-- ===== src/BoundTree/Places.antt =====
-- The tree of data/boundTree/boundTree.c without the places of its nodes in memory.
use counter_rop.Common.{ℕ, ◌≡◌, refl, Bool, true, false, is_some, arith, Bool-cases, inl, inr}
use counter_rop.Common.Heap.{Ptr}
use counter_rop.Common.Word.{slt}
use counter_rop.BoundTree.Shape.{Shape, leaf, node, ptr, place, graft}
use counter_rop.BoundTree.Refine.{accepts}

-- The same ranges in the same order, wherever the nodes stand.
pub data IsAlike : Shape → Shape → Type 0 where
  leaves : IsAlike leaf leaf
  nodes :
      {p q : Ptr} {lo hi : ℕ} {l l' r r' : Shape}
      → IsAlike l l'
      → IsAlike r r'
      → IsAlike (node p lo hi l r) (node q lo hi l' r')

pub IsAlike-self : (t : Shape) → IsAlike t t
IsAlike-self leaf = leaves
IsAlike-self (node p lo hi l r) = nodes (IsAlike-self l) (IsAlike-self r)

place-IsAlike :
    {t t' : Shape} (p q : Ptr) (left right : Bool) (x : ℕ)
    → IsAlike t t'
    → is_some (place t p left x) ≡ is_some (place t' q right x)
place-IsAlike p q left right x leaves = refl
place-IsAlike p q left right x (nodes {p = m} {q = n} l r) =
    ground (arith, place-IsAlike m n true true x l, place-IsAlike m n false false x r)

pub accepts-IsAlike : {t t' : Shape} (x : ℕ) → IsAlike t t' → accepts t x ≡ accepts t' x
accepts-IsAlike {t} {t'} x h = place-IsAlike (ptr t) (ptr t') false false x h

pub graft-IsAlike :
    {t t' : Shape} (p q : Ptr) (lo hi : ℕ)
    → IsAlike t t'
    → IsAlike (graft t p lo hi) (graft t' q lo hi)
graft-IsAlike p q lo hi leaves = nodes leaves leaves
graft-IsAlike p q lo hi (nodes {lo = a} {hi = b} l r) = elim (Bool-cases (slt lo a)) [
  | inl left ↦ rw left (nodes (graft-IsAlike p q lo hi l) r)
  | inr other ↦ elim (Bool-cases (slt b lo)) [
    | inl right ↦ rw (other, right) (nodes l (graft-IsAlike p q lo hi r))
    | inr inside ↦ rw (other, inside) (nodes l r)
  ]
]
