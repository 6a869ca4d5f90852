-- ===== src/BoundTree/Shape.antt =====
-- What a well-formed tree of data/boundTree/boundTree.c looks like in memory.
use counter_rop.Common.{
  ℕ, suc, ◌+◌, ◌<◌, ◌≡◌, ◌≢◌, refl, Bool, true, false, ◌||◌, Option, none, some, ◌∙◌, arith, ◌==◌,
  if◌then◌else◌, Bool-cases, true≢false, sym, ap, ◌⊎◌, inl, inr,
}
use counter_rop.Common.Word.{slt}
use counter_rop.Common.Heap.{Ptr, null, update}
use counter_rop.BoundTree.{new_tree, TreeNode, tree_node, BoundTree}

-- A tree of ranges, with the place of each node.
pub data Shape : Type 0 where
  leaf : Shape
  node : Ptr → ℕ → ℕ → Shape → Shape → Shape

abbrev pub Cells : Type 0
Cells = Ptr → Option TreeNode

abbrev pub ptr : Shape → Ptr
ptr leaf = null
ptr (node p lo hi l r) = p

abbrev pub has : Ptr → Shape → Bool
has q leaf = false
has q (node p lo hi l r) = (q == p) || (has q l || has q r)

abbrev pub size : Shape → ℕ
size leaf = 0
size (node p lo hi l r) = suc (size l + size r)

abbrev pub is_node : Shape → Bool
is_node leaf = false
is_node (node p lo hi l r) = true

abbrev pub Repr : Cells → Shape → Type 0
Repr c leaf = Unit {0}
Repr c (node p lo hi l r) =
    (p ≢ null) × (c p ≡ some (tree_node lo hi (ptr l) (ptr r))) × Repr c l × Repr c r

abbrev pub Distinct : Shape → Type 0
Distinct leaf = Unit {0}
Distinct (node p lo hi l r) =
    (has p l ≡ false)
    × (has p r ≡ false)
    × ((q : Ptr) → has q l ≡ true → has q r ≡ false)
    × Distinct l
    × Distinct r

abbrev pub Below : Ptr → Shape → Type 0
Below n leaf = Unit {0}
Below n (node p lo hi l r) = (p < n) × Below n l × Below n r

-- `root` counts only once the tree is initialized.
pub record IsTree (b : BoundTree) (t : Shape) : Type 0 where
  pub initialized : b.is_initialized ≡ is_node t
  pub rooted : is_node t ≡ true → b.root ≡ ptr t
  pub repr : Repr b.heap.cell t
  pub distinct : Distinct t
  pub below : Below b.heap.fresh t
  pub sized : size t < b.heap.fresh
  pub exact : (p : Ptr) → has p t ≡ false → b.heap.cell p ≡ none

-- Where the search for an address ends: below which node and on which side; `none` in a range.
abbrev pub place : Shape → Ptr → Bool → ℕ → Option (Ptr × Bool)
place leaf prev left x = some (prev, left)
place (node p lo hi l r) prev left x =
    if slt x lo then place l p true x else if slt hi x then place r p false x else none

-- The tree with a new node where the search for `lo` ends.
abbrev pub graft : Shape → Ptr → ℕ → ℕ → Shape
graft leaf n lo hi = node n lo hi leaf leaf
graft (node p a b l r) n lo hi =
    if slt lo a
    then node p a b (graft l n lo hi) r
    else if slt b lo
    then node p a b l (graft r n lo hi)
    else node p a b l r

pub Repr-frame :
    (c : Cells) (p : Ptr) (v : Option TreeNode) (t : Shape)
    → Repr c t
    → has p t ≡ false
    → Repr (update c p v) t
Repr-frame c p v leaf h out = tt
Repr-frame c p v (node q lo hi l r) h out = (
  h.0,
  ground arith,
  Repr-frame c p v l h.2 (ground arith),
  Repr-frame c p v r h.3 (ground arith),
)

pub Below-fresh : (n : Ptr) (t : Shape) → Below n t → has n t ≡ false
Below-fresh n leaf b = refl
Below-fresh n (node p lo hi l r) b = ground (arith, Below-fresh n l b.1, Below-fresh n r b.2)

pub Below-mono : (n : Ptr) (t : Shape) → Below n t → Below (n + 1) t
Below-mono n leaf b = tt
Below-mono n (node p lo hi l r) b = (omega arith, Below-mono n l b.1, Below-mono n r b.2)

pub update_spares :
    (c : Cells) (p q : Ptr) (v : Option TreeNode) (t : Shape)
    → has p t ≡ false
    → has q t ≡ true
    → update c q v p ≡ c p
update_spares c p q v t out member = ground arith

pub ne_of_has : (p q : Ptr) (t : Shape) → has p t ≡ false → has q t ≡ true → p ≢ q
ne_of_has p q t out member e = true≢false (sym member ∙ ap (λ x. has x t) (sym e) ∙ out)

-- A node of the tree, as a cell.
pub has_cell :
    (c : Cells) (q : Ptr) (t : Shape)
    → Repr c t
    → has q t ≡ true
    → (n : TreeNode) × (c q ≡ some n) × (q ≢ null)
has_cell c q leaf h member = absurd (ground arith)
has_cell c q (node p lo hi l r) h member = elim (Bool-cases (q == p)) [
  | inl here ↦ (tree_node lo hi (ptr l) (ptr r), ground arith, ground arith)
  | inr other ↦ elim (Bool-cases (has q l)) [
    | inl left ↦ has_cell c q l h.2 left
    | inr right ↦ has_cell c q r h.3 (ground arith)
  ]
]

-- The search ends at the node that it came from, if there is nothing to search, or in the tree.
pub has-place :
    (t : Shape) (prev : Ptr) (left : Bool) (x : ℕ) (q : Ptr) (side : Bool)
    → place t prev left x ≡ some (q, side)
    → ((is_node t ≡ false) × (q ≡ prev) × (side ≡ left)) ⊎ (has q t ≡ true)
has-place leaf prev left x q side e = inl (refl, ground arith, ground arith)
has-place (node p lo hi l r) prev left x q side e =
    inr (ground (arith, has-place l p true x q side, has-place r p false x q side))

-- A new tree is empty, whatever its root holds.
pub new_tree-IsTree : (garbage : Ptr) (room : ℕ) → IsTree (new_tree garbage room) leaf
unfolding new_tree
new_tree-IsTree garbage room = record {
  initialized = refl;
  rooted = λ e. absurd (true≢false (sym e));
  repr = tt;
  distinct = tt;
  below = tt;
  sized = omega arith;
  exact = λ p out. refl;
}

pub new_tree_room : (garbage : Ptr) (room : ℕ) → (new_tree garbage room).heap.room ≡ room
unfolding new_tree
new_tree_room garbage room = refl

pub new_tree_root : (room : ℕ) → (new_tree null room).root ≡ null
unfolding new_tree
new_tree_root room = refl
