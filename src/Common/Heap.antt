-- ===== src/Common/Heap.antt =====
-- A heap of cells of one type at addresses, with `malloc`, `free`, reads and writes.
use Prim.Native.Nat.{ℕ, ◌+◌, ◌-◌}
use mathlib.Core.Path.{◌≡◌}
use mathlib.Core.Logic.{◌≢◌}
use mathlib.Core.Option.{Option, none, some}
use native.Mathlib.Omega.{arith}
use counter_rop.Common.Tests.{◌==◌, if◌then◌else◌}
use counter_rop.Common.Outcome.{Outcome, ok, fault}

abbrev pub Ptr : Type 0
Ptr = ℕ

abbrev pub null : Ptr
null = 0

abbrev pub update : {A : Type 0} → (Ptr → Option A) → Ptr → Option A → Ptr → Option A
update f p c q = if q == p then c else f q

-- `fresh` is the next address, `room` the number of calls of `malloc` that succeed from now on.
-- An address is not used again after `free`.
pub record Heap (A : Type 0) : Type 0 where
  pub cell : Ptr → Option A
  pub fresh : Ptr
  pub room : ℕ

abbrev pub empty_heap : {A : Type 0} → ℕ → Heap A
empty_heap room = record { cell = λ _. none; fresh = 1; room = room }

-- `malloc`, and the assignments that fill the new object. `null` if there is no room.
unfoldable pub malloc : {A : Type 0} → A → Heap A → Ptr × Heap A
malloc a h = if h.room == 0 then (null, h) else (
  h.fresh,
  record { cell = update h.cell h.fresh (some a); fresh = h.fresh + 1; room = h.room - 1 },
)

-- `*p`.
unfoldable pub read : {A : Type 0} → Heap A → Ptr → Outcome A
read h p = if p == null then fault else elim (h.cell p) [ none ↦ fault | some a ↦ ok a ]

abbrev pub write : {A : Type 0} → Heap A → Ptr → Option A → Heap A
write h p c = record h { cell = update h.cell p c }

pub update_self : {A : Type 0} (f : Ptr → Option A) (p : Ptr) (c : Option A) → update f p c p ≡ c
update_self f p c = ground arith

pub update_other :
    {A : Type 0} (f : Ptr → Option A) (p q : Ptr) (c : Option A) → p ≢ q → update f q c p ≡ f p
update_other f p q c ne = ground arith
