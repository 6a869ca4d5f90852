-- ===== src/BoundTree/Walk.antt =====
-- The loops of `boundTree_insert` and `boundFind` on a well-formed tree, and against each other.
use counter_rop.Common.{
  ℕ, zero, suc, ◌<◌, ◌≡◌, refl, Bool, true, false, Option, none, some, arith, ◌==◌, if◌then◌else◌,
  Bool-cases, Option-cases, ◌⊎◌, inl, inr,
}
use counter_rop.Common.Word.{slt, add64, sub64}
use counter_rop.Common.Outcome.{Outcome, ok, fault, exits, out_of_fuel}
use counter_rop.Common.Heap.{Ptr, null}
use counter_rop.BoundTree.{
  TreeNode, tree_node, BoundTree, BoundTreeData, insert_loop, find_loop, load, no_bound,
}
use counter_rop.BoundTree.Shape.{Shape, leaf, node, Repr, ptr, size, place}

-- Where the search for an address ends, with the bound that `boundFind` computes on the way.
abbrev pub search : Shape → Ptr → Bool → ℕ → ℕ → Option BoundTreeData
search leaf prev left bound x = some (record { is_left_child = left; bound = bound; node = prev })
search (node p lo hi l r) prev left bound x =
    if slt x lo
    then search l p true (sub64 lo 1) x
    else if slt hi x
    then search r p false (add64 x no_bound) x
    else none

pub load_node :
    (b : BoundTree) (p lo hi : ℕ) (l r : Shape)
    → Repr b.heap.cell (node p lo hi l r)
    → load p b ≡ ok (tree_node lo hi (ptr l) (ptr r), b)
unfolding load
load_node b p lo hi l r h = ground arith

pub insert_loop-place :
    (k : ℕ) (b : BoundTree) (t : Shape) (prev : Ptr) (left : Bool) (x : ℕ)
    → Repr b.heap.cell t
    → size t < k
    → insert_loop k (ptr t) prev left x b ≡ ok (place t prev left x, b)
unfolding insert_loop
insert_loop-place zero b t prev left x h fuel = absurd (omega arith)
insert_loop-place (suc k) b leaf prev left x h fuel = refl
insert_loop-place (suc k) b (node p lo hi l r) prev left x h fuel = ground (
  arith,
  load_node b p lo hi l r h,
  insert_loop-place k b l p true x h.2,
  insert_loop-place k b r p false x h.3,
)

pub find_loop-search :
    (k : ℕ) (b : BoundTree) (t : Shape) (prev : Ptr) (left : Bool) (bound x : ℕ)
    → Repr b.heap.cell t
    → size t < k
    → find_loop k (ptr t) prev left bound x b ≡ ok (search t prev left bound x, b)
unfolding find_loop
find_loop-search zero b t prev left bound x h fuel = absurd (omega arith)
find_loop-search (suc k) b leaf prev left bound x h fuel = refl
find_loop-search (suc k) b (node p lo hi l r) prev left bound x h fuel = ground (
  arith,
  load_node b p lo hi l r h,
  find_loop-search k b l p true (sub64 lo 1) x h.2,
  find_loop-search k b r p false (add64 x no_bound) x h.3,
)

-- What `boundTree_insert` keeps of the result of `boundFind`.
abbrev pub forget_bound : Option BoundTreeData → Option (Ptr × Bool)
forget_bound none = none
forget_bound (some d) = some (d.node, d.is_left_child)

abbrev pub forget_found :
    Outcome (Option BoundTreeData × BoundTree) → Outcome (Option (Ptr × Bool) × BoundTree)
forget_found (ok (d, b)) = ok (forget_bound d, b)
forget_found fault = fault
forget_found (exits n) = exits n
forget_found out_of_fuel = out_of_fuel

pub load_cases :
    (p : Ptr) (b : BoundTree) → (load p b ≡ fault) ⊎ ((n : TreeNode) × (load p b ≡ ok (n, b)))
unfolding load
load_cases p b = elim (Bool-cases (p == null)) [
  | inl is_null ↦ inl (ground arith)
  | inr other ↦ elim (Option-cases (b.heap.cell p)) [
    | inl unused ↦ inl (ground arith)
    | inr (n, cell) ↦ inr (n, ground arith)
  ]
]

-- On any memory, well-formed or not, the two loops end at the same place.
pub insert_loop-find_loop :
    (k : ℕ) (b : BoundTree) (current prev : Ptr) (left : Bool) (bound x : ℕ)
    → insert_loop k current prev left x b ≡ forget_found (find_loop k current prev left bound x b)
unfolding insert_loop find_loop
insert_loop-find_loop zero b current prev left bound x = refl
insert_loop-find_loop (suc k) b current prev left bound x = elim (load_cases current b) [
  | inl bad ↦ ground (arith, bad)
  | inr (n, loaded) ↦ ground (
    arith,
    loaded,
    insert_loop-find_loop k b n.left_child current true (sub64 n.lower_bound 1) x,
    insert_loop-find_loop k b n.right_child current false (add64 x no_bound) x,
  )
]

-- A walk that ends leaves the tree as it was.
abbrev pub Unchanged : BoundTree → Outcome (Option BoundTreeData × BoundTree) → Type 0
Unchanged b (ok (d, b')) = b' ≡ b
Unchanged b fault = Unit {0}
Unchanged b (exits n) = Unit {0}
Unchanged b out_of_fuel = Unit {0}

pub find_loop-Unchanged :
    (k : ℕ) (b : BoundTree) (current prev : Ptr) (left : Bool) (bound x : ℕ)
    → Unchanged b (find_loop k current prev left bound x b)
unfolding find_loop
find_loop-Unchanged zero b current prev left bound x = tt
find_loop-Unchanged (suc k) b current prev left bound x = elim (load_cases current b) [
  | inl bad ↦ ground (arith, bad)
  | inr (n, loaded) ↦ ground (
    arith,
    loaded,
    find_loop-Unchanged k b n.left_child current true (sub64 n.lower_bound 1) x,
    find_loop-Unchanged k b n.right_child current false (add64 x no_bound) x,
  )
]
