-- ===== src/Common/Word.antt =====
-- Words of 64 bits as bit patterns: `intptr_t`, `size_t`, `unsigned long` of the x86-64 target.
-- A signed word is the pattern; its order and its sign extension are written out here.
use Prim.Native.Nat.{ℕ, ◌+◌, ◌-◌, ◌*◌, ◌%◌, ◌<◌, ◌≤◌}
use mathlib.Core.Path.{◌≡◌}
use mathlib.Core.Bool.{Bool, true, false}
use native.Mathlib.Omega.{arith}
use counter_rop.Common.Tests.{ltb, if◌then◌else◌}

-- 2 ^ 64 and 2 ^ 63.
abbrev pub word_mod : ℕ
word_mod = 0x1_0000_0000_0000_0000

abbrev pub half_mod : ℕ
half_mod = 0x8000_0000_0000_0000

abbrev pub page_size : ℕ
page_size = 4096

-- Where a signed word stands in the order: -2^63 at 0, -1 at 2^63 - 1, 0 at 2^63.
abbrev pub rank : ℕ → ℕ
rank x = (x + half_mod) % word_mod

-- `a < b` on `intptr_t`.
unfoldable pub slt : ℕ → ℕ → Bool
slt a b = ltb (rank a) (rank b)

abbrev pub add64 : ℕ → ℕ → ℕ
add64 a b = (a + b) % word_mod

abbrev pub sub64 : ℕ → ℕ → ℕ
sub64 a b = (a + word_mod - b) % word_mod

abbrev pub mul64 : ℕ → ℕ → ℕ
mul64 a b = a * b % word_mod

-- A number of `w` bits read as signed and widened to 64 bits; `m` is 2 ^ w.
abbrev pub sign_extend : ℕ → ℕ → ℕ
sign_extend m x = let v = x % m in if ltb (2 * v) m then v else v + word_mod - m

-- `x & ~(PAGE_SIZE - 1)`.
abbrev pub page_start : ℕ → ℕ
page_start x = x - x % page_size

pub rank-injective : (a b : ℕ) → a < word_mod → b < word_mod → rank a ≡ rank b → a ≡ b
rank-injective a b ha hb e = omega arith

pub slt→lt : (a b : ℕ) → slt a b ≡ true → rank a < rank b
unfolding slt
slt→lt a b h = ground arith

pub slt→le : (a b : ℕ) → slt a b ≡ false → rank b ≤ rank a
unfolding slt
slt→le a b h = ground arith

pub lt→slt : (a b : ℕ) → rank a < rank b → slt a b ≡ true
unfolding slt
lt→slt a b h = ground arith

pub le→slt : (a b : ℕ) → rank b ≤ rank a → slt a b ≡ false
unfolding slt
le→slt a b h = ground arith

pub slt_self : (a : ℕ) → slt a a ≡ false
unfolding slt
slt_self a = ground arith
