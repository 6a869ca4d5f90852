-- ===== src/BoundTree/Delete.antt =====
-- `deleteNode` and `boundTree_delete`: every node of a well-formed tree is freed.
use counter_rop.Common.{
  Bool, ℕ, zero, suc, ◌<◌, ◌≡◌, ◌≢◌, refl, true, false, none, some, ◌∙◌, arith, if◌then◌else◌, ap,
}
use counter_rop.Common.Outcome.{ok, fault, then_with}
use counter_rop.Common.Heap.{Ptr, null, Heap, write, update}
use counter_rop.BoundTree.{
  new_tree, bound_tree_new, BoundTree, TreeNode, tree_node, delete_node, bound_tree_delete, load,
  free, store,
}
use counter_rop.BoundTree.Shape.{
  Cells, Shape, leaf, node, Repr, Distinct, has, size, ptr, IsTree, is_node,
}

-- The memory without the nodes of a tree, and with all else as it was.
abbrev Without : Shape → Cells → Cells → Type 0
Without t c c' = (p : Ptr) → c' p ≡ (if has p t then none else c p)

Repr-Without :
    (s t : Shape) (c c' : Cells)
    → Repr c t
    → Without s c c'
    → ((p : Ptr) → has p t ≡ true → has p s ≡ false)
    → Repr c' t
Repr-Without s leaf c c' h w apart = tt
Repr-Without s (node p lo hi l r) c c' h w apart = (
  h.0,
  ground (arith, w p, apart p),
  Repr-Without s l c c' h.2 w (λ q m. ground (arith, apart q)),
  Repr-Without s r c c' h.3 w (λ q m. ground (arith, apart q)),
)

Without-spares :
    (t : Shape) (c c' : Cells) (p : Ptr) → Without t c c' → has p t ≡ false → c' p ≡ c p
Without-spares t c c' p w out = w p ∙ rw out

Without-node :
    (p lo hi : ℕ) (l r : Shape) (c c₁ c₂ : Cells)
    → Without l c c₁
    → Without r c₁ c₂
    → Without (node p lo hi l r) c (update c₂ p none)
Without-node p lo hi l r c c₁ c₂ w₁ w₂ q = ground (arith, w₁ q, w₂ q)

free_runs :
    (b : BoundTree) (p : Ptr) (n : TreeNode)
    → p ≢ null
    → b.heap.cell p ≡ some n
    → free p b ≡ ok (tt, record b { heap = write b.heap p none })
unfolding free load store
free_runs b p n ne cell = ground arith

load_runs :
    (b : BoundTree) (p : Ptr) (n : TreeNode)
    → p ≢ null
    → b.heap.cell p ≡ some n
    → load p b ≡ ok (n, b)
unfolding load
load_runs b p n ne cell = ground arith

delete_step :
    (k : ℕ) (b b₁ b₂ b₃ : BoundTree) (p : Ptr) (n : TreeNode)
    → p ≢ null
    → load p b ≡ ok (n, b)
    → delete_node k n.left_child b ≡ ok (tt, b₁)
    → load p b₁ ≡ ok (n, b₁)
    → delete_node k n.right_child b₁ ≡ ok (tt, b₂)
    → free p b₂ ≡ ok (tt, b₃)
    → delete_node (suc k) p b ≡ ok (tt, b₃)
unfolding delete_node
delete_step k b b₁ b₂ b₃ p n ne e₀ e₁ e₂ e₃ e₄ = ground arith

pub delete_node-Without :
    (k : ℕ) (b : BoundTree) (t : Shape)
    → Repr b.heap.cell t
    → Distinct t
    → size t < k
    → (b' : BoundTree) × (delete_node k (ptr t) b ≡ ok (tt, b'))
      × Without t b.heap.cell b'.heap.cell
delete_node-Without zero b t h d fuel = absurd (omega arith)
delete_node-Without (suc k) b leaf h d fuel = (b, unfold delete_node in refl, λ p. refl)
delete_node-Without (suc k) b (node p lo hi l r) h d fuel =
    let n : TreeNode = tree_node lo hi (ptr l) (ptr r) in
    let (b₁, left, gone₁) = delete_node-Without k b l h.2 d.3 (omega arith) in
    let repr : Repr b₁.heap.cell r =
      Repr-Without l r b.heap.cell b₁.heap.cell h.3 gone₁ (λ q m. ground (arith, d.2 q)) in
    let (b₂, right, gone₂) = delete_node-Without k b₁ r repr d.4 (omega arith) in
    let cell₁ : b₁.heap.cell p ≡ some n =
      Without-spares l b.heap.cell b₁.heap.cell p gone₁ d.0 ∙ h.1 in
    let cell₂ : b₂.heap.cell p ≡ some n =
      Without-spares r b₁.heap.cell b₂.heap.cell p gone₂ d.1 ∙ cell₁ in
    (
      record b₂ { heap = write b₂.heap p none },
      delete_step k b b₁ b₂ _ p n h.0 (load_runs b p n h.0 h.1) left (load_runs b₁ p n h.0 cell₁)
          right (free_runs b₂ p n h.0 cell₂),
      Without-node p lo hi l r b.heap.cell b₁.heap.cell b₂.heap.cell gone₁ gone₂,
    )

bound_tree_delete_runs :
    (b b' : BoundTree)
    → delete_node b.heap.fresh b.root b ≡ ok (tt, b')
    → bound_tree_delete b ≡ ok b'.heap
unfolding bound_tree_delete
bound_tree_delete_runs b b' run = ground arith

-- `boundTree_delete` of a well-formed tree with at least one range frees every node.
pub bound_tree_delete_all :
    (b : BoundTree) (t : Shape)
    → IsTree b t
    → is_node t ≡ true
    → (h : Heap TreeNode) × (bound_tree_delete b ≡ ok h) × ((p : Ptr) → h.cell p ≡ none)
bound_tree_delete_all b t is inner =
    let (b', run, gone) = delete_node-Without b.heap.fresh b t is.repr is.distinct is.sized in
    (
      b'.heap,
      bound_tree_delete_runs b b' (ap (λ p. delete_node b.heap.fresh p b) (is.rooted inner) ∙ run),
      λ p. ground (arith, gone p, is.exact p),
    )

delete_node-null :
    (k : ℕ) (p : Ptr) (b : BoundTree) → 0 < k → p ≡ null → delete_node k p b ≡ ok (tt, b)
unfolding delete_node
delete_node-null zero p b more e = absurd (omega arith)
delete_node-null (suc k) p b more e = rw e refl

-- A tree whose root is null has no node to free.
pub bound_tree_delete-null :
    (b : BoundTree) (t : Shape) → IsTree b t → b.root ≡ null → bound_tree_delete b ≡ ok b.heap
bound_tree_delete-null b t is e =
    bound_tree_delete_runs b b (delete_node-null b.heap.fresh b.root b (omega (arith, is.sized)) e)

-- A tree that was never given a range leads `boundTree_delete` to whatever its root pointer holds: any
-- value but null, which is no node, is undefined behaviour. So is a tree that `malloc` did not make.
pub bound_tree_delete_new :
    (made : Bool) (garbage room : ℕ)
    → garbage ≢ null
    → then_with (bound_tree_new made garbage room) bound_tree_delete ≡ fault
unfolding bound_tree_delete new_tree bound_tree_new
bound_tree_delete_new false garbage room ne = refl
bound_tree_delete_new true garbage room ne = ground arith
