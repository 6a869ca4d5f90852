-- ===== src/BoundTree.antt =====
-- The tree of address ranges of data/boundTree/boundTree.c. A value of `BoundTree` is the
-- `boundTree_t` object and the memory of its nodes; a null `boundTree_t*` is `none`. The flags
-- `isInitialized`, `isLeft` and `isLeftChild` hold 0 or 1 and are Booleans. A `boundTreeData_t` is a
-- value; its field `boundTree` is the tree that the functions are given. A walk down the tree is
-- given as many rounds as addresses were handed out.
pub mod Bounds
pub mod Delete
pub mod Direct
pub mod Measure
pub mod Places
pub mod Insert
pub mod Ranges
pub mod Refine
pub mod Shape
pub mod Walk
use counter_rop.Common.{
  ℕ, zero, suc, ◌≡◌, Option, none, some, ◌==◌, if◌then◌else◌, Bool, true, false, List, [], ◌∷◌,
}
use counter_rop.Common.Word.{slt, add64, sub64}
use counter_rop.Common.Outcome.{
  Outcome, ok, fault, exits, out_of_fuel, Cmd, pure, ◌>>=◌, ◌>>◌, get, modify, and_then, fail,
}
use counter_rop.Common.Heap.{Ptr, null, Heap, empty_heap, malloc, read, write}

abbrev pub no_bound : ℕ
no_bound = 999

pub record TreeNode : Type 0 where
  pub lower_bound : ℕ
  pub upper_bound : ℕ
  pub left_child : Ptr
  pub right_child : Ptr

abbrev pub tree_node : ℕ → ℕ → Ptr → Ptr → TreeNode
tree_node lo hi l r = record { lower_bound = lo; upper_bound = hi; left_child = l; right_child = r }

pub record BoundTree : Type 0 where
  pub root : Ptr
  pub is_initialized : Bool
  pub heap : Heap TreeNode

pub record BoundTreeData : Type 0 where
  pub is_left_child : Bool
  pub bound : ℕ
  pub node : Ptr

-- The object that `boundTree_new` makes. `root` is not assigned: it holds what `malloc` left there.
unfoldable pub new_tree : (garbage : Ptr) → ℕ → BoundTree
new_tree garbage room = record { root = garbage; is_initialized = false; heap = empty_heap room }

-- `made` says whether `malloc` succeeds; its result is not tested.
unfoldable pub bound_tree_new : (made : Bool) → (garbage : Ptr) → ℕ → Outcome BoundTree
bound_tree_new made garbage room = if made then ok (new_tree garbage room) else fault

unfoldable pub load : Ptr → Cmd BoundTree TreeNode
unfolding read
load p b = elim (read b.heap p) [
  | ok n ↦ ok (n, b)
  | fault ↦ fault
  | exits n ↦ exits n
  | out_of_fuel ↦ out_of_fuel
]

unfoldable pub store : Ptr → Option TreeNode → Cmd BoundTree (Unit {0})
store p c b = ok (tt, record b { heap = write b.heap p c })

unfoldable pub free : Ptr → Cmd BoundTree (Unit {0})
unfolding load store
free p = do n ← load p; store p none

-- `malloc`, whose result is not tested, and the four assignments to the new node.
unfoldable pub new_node : ℕ → ℕ → Cmd BoundTree Ptr
unfolding malloc
new_node lo hi b =
    let (p, h) = malloc (tree_node lo hi null null) b.heap in
    if p == null then fault else ok (p, record b { heap = h })

-- `node->leftChild = p` or `node->rightChild = p`.
abbrev pub link_child : Bool → Ptr → TreeNode → TreeNode
link_child true p n = record n { left_child = p }
link_child false p n = record n { right_child = p }

unfoldable pub set_child : Ptr → Bool → Ptr → Cmd BoundTree (Unit {0})
set_child node left p = do n ← load node; store node (some (link_child left p n))

-- The `while` loop of `boundTree_insert`. `none` is its `return NULL`; else `prevNode` and `isLeft`.
unfoldable pub insert_loop :
    ℕ → (current prev : Ptr) → Bool → ℕ → Cmd BoundTree (Option (Ptr × Bool))
insert_loop zero current prev left lower_val = λ _. out_of_fuel
insert_loop (suc k) current prev left lower_val =
    if current == null then pure (some (prev, left)) else do
      n ← load current
      if slt lower_val n.lower_bound
          then insert_loop k n.left_child current true lower_val
          else if slt n.upper_bound lower_val
          then insert_loop k n.right_child current false lower_val
          else pure none

-- The first node.
unfoldable pub plant : ℕ → ℕ → Cmd BoundTree (Unit {0})
plant lower_val upper_val = do
  p ← new_node lower_val upper_val
  modify (λ b. record b { is_initialized = true; root = p })

-- A node below another.
unfoldable pub hang : Ptr → Bool → ℕ → ℕ → Cmd BoundTree (Unit {0})
hang node left lower_val upper_val = do p ← new_node lower_val upper_val; set_child node left p

abbrev pub hang_if : Option (Ptr × Bool) → ℕ → ℕ → Cmd BoundTree Bool
hang_if none lower_val upper_val = pure false
hang_if (some (node, left)) lower_val upper_val = do hang node left lower_val upper_val; pure true

-- `boundTree_insert` at a pointer that is not null. `true` is the pointer, `false` is `NULL`.
unfoldable pub insert_range : ℕ → ℕ → Cmd BoundTree Bool
insert_range lower_val upper_val = do
  b ← get
  if b.is_initialized
      then (do
        place ← insert_loop b.heap.fresh b.root b.root false lower_val
        hang_if place lower_val upper_val)
      else (do plant lower_val upper_val; pure true)

-- A function on the tree that a pointer leads to.
abbrev pub through : {A : Type 0} → A → Cmd BoundTree A → Cmd (Option BoundTree) A
through a m none = ok (a, none)
through a m (some b) = elim (m b) [
  | ok (r, b') ↦ ok (r, some b')
  | fault ↦ fault
  | exits n ↦ exits n
  | out_of_fuel ↦ out_of_fuel
]

unfoldable pub bound_tree_insert : ℕ → ℕ → Cmd (Option BoundTree) Bool
bound_tree_insert lower_val upper_val = through false (insert_range lower_val upper_val)

-- The `while` loop of `boundFind`.
unfoldable pub find_loop :
    ℕ → (current prev : Ptr) → Bool → ℕ → ℕ → Cmd BoundTree (Option BoundTreeData)
find_loop zero current prev left bound lower_val = λ _. out_of_fuel
find_loop (suc k) current prev left bound lower_val =
    if current == null
    then pure (some (record { is_left_child = left; bound = bound; node = prev }))
    else do
      n ← load current
      if slt lower_val n.lower_bound
          then find_loop k n.left_child current true (sub64 n.lower_bound 1) lower_val
          else if slt n.upper_bound lower_val
          then find_loop k n.right_child current false (add64 lower_val no_bound) lower_val
          else pure none

unfoldable pub find_range : ℕ → Cmd BoundTree (Option BoundTreeData)
find_range lower_val = do
  b ← get
  if b.is_initialized
      then find_loop b.heap.fresh b.root b.root false 0 lower_val
      else pure
          (some (record { is_left_child = false; bound = add64 lower_val no_bound; node = b.root }))

unfoldable pub bound_find : ℕ → Cmd (Option BoundTree) (Option BoundTreeData)
bound_find lower_val = through none (find_range lower_val)

-- The new node is made before the test of `isInitialized`.
unfoldable pub direct_bound_tree_insert : BoundTreeData → ℕ → ℕ → Cmd BoundTree (Unit {0})
direct_bound_tree_insert d lower_val upper_val = do
  p ← new_node lower_val upper_val
  b ← get
  if b.is_initialized
      then set_child d.node d.is_left_child p
      else modify (λ b. record b { is_initialized = true; root = p })

-- `node->rightChild` is read again when the left subtree is gone.
unfoldable pub delete_node : ℕ → Ptr → Cmd BoundTree (Unit {0})
unfolding load free
delete_node zero p = λ _. out_of_fuel
delete_node (suc k) p =
    if p == null
    then pure tt
    else do n ← load p; delete_node k n.left_child; m ← load p; delete_node k m.right_child; free p

-- What is left is the memory of the nodes: the `boundTree_t` is freed.
unfoldable pub bound_tree_delete : BoundTree → Outcome (Heap TreeNode)
unfolding delete_node
bound_tree_delete b = elim (delete_node b.heap.fresh b.root b) [
  | ok (_, b') ↦ ok b'.heap
  | fault ↦ fault
  | exits n ↦ exits n
  | out_of_fuel ↦ out_of_fuel
]
