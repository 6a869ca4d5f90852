-- ===== src/Jhash.antt =====
-- `JenkinsHash` of data/hashtable/jhash.c, over the bytes that stand at the pointer.
use Prim.Native.Nat.{bit_xor}
use native.Mathlib.Nat.{mod-lt}
use counter_rop.Common.{
  ℕ, zero, suc, ◌/◌, ◌%◌, ◌^◌, ◌<◌, ◌≡◌, Option, none, some, List, [], ◌∷◌, ◌++◌, arith, ◌==◌,
  if◌then◌else◌, ap,
}
use counter_rop.Common.Word.{add64, mul64, sign_extend}

-- The characters before the first zero byte: those that `strlen` counts.
unfoldable pub c_string : List ℕ → List ℕ
c_string [] = []
c_string (c ∷ cs) = if c == 0 then [] else c ∷ c_string cs

-- One round of the loop. `str[i]` is a signed `char`.
unfoldable pub mix : ℕ → ℕ → ℕ
mix hash c =
    let h₁ = add64 hash (sign_extend 256 c) in
    let h₂ = add64 h₁ (mul64 h₁ (2 ^ 10)) in bit_xor h₂ (h₂ / 2 ^ 6)

unfoldable pub mix_all : ℕ → List ℕ → ℕ
unfolding mix
mix_all hash [] = hash
mix_all hash (c ∷ cs) = mix_all (mix hash c) cs

unfoldable pub finish : ℕ → ℕ
finish hash =
    let h₁ = add64 hash (mul64 hash (2 ^ 3)) in
    let h₂ = bit_xor h₁ (h₁ / 2 ^ 11) in add64 h₂ (mul64 h₂ (2 ^ 15))

-- A null `str` is `none`. The caller's `mod` is not 0.
unfoldable pub jenkins_hash : Option (List ℕ) → ℕ → ℕ
unfolding c_string mix_all finish
jenkins_hash none modulus = 0
jenkins_hash (some str) modulus = finish (mix_all 0 (c_string str)) % modulus

-- The bytes of an `intptr_t`, the lowest first.
unfoldable pub bytes : ℕ → ℕ → List ℕ
bytes zero x = []
bytes (suc n) x = (x % 256) ∷ bytes n (x / 256)

-- A zero byte ends the string, whatever stands behind it.
c_string-append : (cs ds : List ℕ) (z : ℕ) → z ≡ 0 → c_string (cs ++ z ∷ ds) ≡ c_string cs
unfolding c_string
c_string-append [] ds z e = rw e
c_string-append (c ∷ cs) ds z e = ground (arith, c_string-append cs ds z e)

pub jenkins_hash-lt :
    (str : Option (List ℕ)) (modulus : ℕ) → 0 < modulus → jenkins_hash str modulus < modulus
unfolding jenkins_hash
jenkins_hash-lt none modulus h = h
jenkins_hash-lt (some str) modulus h = mod-lt (finish (mix_all 0 (c_string str))) h

-- The eighth byte of a word below 2 ^ 56 is zero, so what stands behind the word is not read.
pub jenkins_hash-bytes :
    (x : ℕ) (beyond : List ℕ) (modulus : ℕ)
    → x < 2 ^ 56
    → jenkins_hash (some (bytes 8 x ++ beyond)) modulus ≡ jenkins_hash (some (bytes 7 x)) modulus
unfolding jenkins_hash bytes
jenkins_hash-bytes x beyond modulus h =
    ap (λ str. finish (mix_all 0 str) % modulus)
      (c_string-append (bytes 7 x) beyond (x / 256 / 256 / 256 / 256 / 256 / 256 / 256 % 256)
        (omega arith))
