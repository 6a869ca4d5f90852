-- ===== src/BoundTree/Direct.antt =====
-- `boundFind` followed by `direct_boundTree_insert`, which is how the analyser adds a range, against
-- `boundTree_insert`.
use counter_rop.Common.{
  sym, ◌+◌, ◌<◌, ◌≤◌, ℕ, ◌≡◌, refl, Bool, true, false, Option, none, some, ◌∙◌, arith, inl, inr,
  Bool-cases, ap, ◌==◌, ◌⊎◌,
}
use counter_rop.Common.Word.{add64}
use counter_rop.Common.Outcome.{
  Outcome, ok, fault, exits, out_of_fuel, Cmd, pure, and_then, ◌>>=◌, ◌>>◌,
}
use counter_rop.Common.Heap.{Ptr, null, malloc}
use counter_rop.BoundTree.{
  BoundTree, BoundTreeData, tree_node, insert_range, find_loop, hang, plant, hang_if, new_node,
  no_bound, find_range, direct_bound_tree_insert,
}
use counter_rop.BoundTree.Shape.{IsTree, Shape, graft}
use counter_rop.BoundTree.Refine.{insert_range-graft, accepts}
use counter_rop.BoundTree.Walk.{forget_found, Unchanged, find_loop-Unchanged, insert_loop-find_loop}

abbrev pub direct_if : Option BoundTreeData → ℕ → ℕ → Cmd BoundTree Bool
direct_if none lower_val upper_val = pure false
direct_if (some d) lower_val upper_val = do
  direct_bound_tree_insert d lower_val upper_val
  pure true

-- What a caller of the two functions does on a tree.
unfoldable pub find_then_insert : ℕ → ℕ → Cmd BoundTree Bool
find_then_insert lower_val upper_val = do d ← find_range lower_val; direct_if d lower_val upper_val

new_node_cases :
    (b : BoundTree) (lo hi : ℕ)
    → (new_node lo hi b ≡ fault)
      ⊎ ((p : Ptr) × (b' : BoundTree) × (new_node lo hi b ≡ ok (p, b'))
          × (b'.is_initialized ≡ b.is_initialized))
unfolding new_node
new_node_cases b lo hi = elim (Bool-cases ((malloc (tree_node lo hi null null) b.heap).0 == null)) [
  | inl full ↦ inl (rw (full, new_node))
  | inr made ↦ inr (
    (malloc (tree_node lo hi null null) b.heap).0,
    record b { heap = (malloc (tree_node lo hi null null) b.heap).1 },
    rw (made, new_node),
    refl,
  )
]

direct_at_child :
    (b : BoundTree) (d : BoundTreeData) (lo hi : ℕ)
    → b.is_initialized ≡ true
    → direct_bound_tree_insert d lo hi b ≡ hang d.node d.is_left_child lo hi b
unfolding direct_bound_tree_insert hang
direct_at_child b d lo hi init = elim (new_node_cases b lo hi) [
  | inl full ↦ ground (arith, full)
  | inr (p, b', made, same) ↦ ground (arith, made, same ∙ init)
]

direct_at_root :
    (b : BoundTree) (d : BoundTreeData) (lo hi : ℕ)
    → b.is_initialized ≡ false
    → direct_bound_tree_insert d lo hi b ≡ plant lo hi b
unfolding direct_bound_tree_insert plant
direct_at_root b d lo hi init = elim (new_node_cases b lo hi) [
  | inl full ↦ ground (arith, full)
  | inr (p, b', made, same) ↦ ground (arith, made, same ∙ init)
]

after_search :
    (b : BoundTree) (lo hi : ℕ) (r : Outcome (Option BoundTreeData × BoundTree))
    → b.is_initialized ≡ true
    → Unchanged b r
    → and_then (forget_found r) (λ found. hang_if found lo hi) ≡ and_then r (λ d. direct_if d lo hi)
after_search b lo hi (ok (none, b')) init same = refl
after_search b lo hi (ok (some d, b')) init same =
    ground (arith, direct_at_child b' d lo hi (ap (λ t. t.is_initialized) same ∙ init))
after_search b lo hi fault init same = refl
after_search b lo hi (exits n) init same = refl
after_search b lo hi out_of_fuel init same = refl

-- On any memory the two ways to insert a range do the same.
pub insert_range-find_then_insert :
    (b : BoundTree) (lo hi : ℕ) → insert_range lo hi b ≡ find_then_insert lo hi b
unfolding insert_range find_then_insert find_range
insert_range-find_then_insert b lo hi = elim (Bool-cases b.is_initialized) [
  | inl init ↦ simp init (
      ap (λ r. and_then r (λ found. hang_if found lo hi))
        (insert_loop-find_loop b.heap.fresh b b.root b.root false 0 lo)
      ∙ after_search b lo hi (find_loop b.heap.fresh b.root b.root false 0 lo b) init
          (find_loop-Unchanged b.heap.fresh b b.root b.root false 0 lo))
  | inr not_init ↦ simp not_init (
      ground (
        arith,
        direct_at_root b
            (record { is_left_child = false; bound = add64 lo no_bound; node = b.root }) lo hi
            not_init,
      ))
]

-- The outcome of the insertion, from that of a search followed by it.
inserted :
    (r : Outcome (Unit {0} × BoundTree)) (c : Bool) (b : BoundTree)
    → and_then r (λ _. pure true) ≡ ok (c, b)
    → (r ≡ ok (tt, b)) × (c ≡ true)
inserted (ok (tt, b')) c b e = (cc, cc)
inserted fault c b e = (cc, cc)
inserted (exits n) c b e = (cc, cc)
inserted out_of_fuel c b e = (cc, cc)

-- Below a node that the search for the lower value returned, the insertion succeeds, and makes the tree
-- that `boundTree_insert` would make.
pub direct_inserts :
    (b : BoundTree) (t : Shape) (m : BoundTreeData) (lo hi : ℕ)
    → IsTree b t
    → 0 < b.heap.room
    → find_range lo b ≡ ok (some m, b)
    → (b' : BoundTree) × (direct_bound_tree_insert m lo hi b ≡ ok (tt, b'))
      × (insert_range lo hi b ≡ ok (true, b'))
      × IsTree b' (graft t b.heap.fresh lo hi)
      × (b.heap.room ≤ b'.heap.room + 1)
      × (accepts t lo ≡ true)
unfolding find_then_insert
direct_inserts b t m lo hi h room found =
    let (b', run, is, left) = insert_range-graft b t lo hi h room in
    let (direct, one) = inserted (direct_bound_tree_insert m lo hi b) (accepts t lo) b' (
      sym (ap (λ r. and_then r (λ d. direct_if d lo hi)) found)
      ∙ sym (insert_range-find_then_insert b lo hi)
      ∙ run) in
    (b', direct, run ∙ ap (λ c. ok (c, b')) one, is, left, one)
