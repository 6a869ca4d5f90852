-- ===== src/BoundTree/Refine.antt =====
-- `boundTree_insert`, `boundFind` and `direct_boundTree_insert` on a well-formed tree: what they
-- return, and the tree in memory afterwards.
use counter_rop.Common.{
  is_some, ℕ, ◌+◌, ◌-◌, ◌<◌, ◌≤◌, ◌≡◌, ◌≢◌, refl, Bool, true, false, Option, none, some, ◌∙◌, arith,
  ◌==◌, ap, sym, subst, ◌||◌, or_false, ==→ne,
}
use counter_rop.Common.Word.{add64}
use counter_rop.Common.Outcome.{ok, fault}
use counter_rop.Common.Heap.{Ptr, null, Heap, update, write, update_self, update_other}
use counter_rop.BoundTree.{
  TreeNode, tree_node, hang_if, BoundTree, BoundTreeData, insert_range, hang, plant, new_node,
  set_child, link_child, load, store, find_range, no_bound,
}
use counter_rop.BoundTree.Shape.{
  Shape, leaf, node, ptr, place, graft, has, IsTree, is_node, Repr-frame, Below-fresh,
  update_spares, ne_of_has, has_cell, has-place,
}
use counter_rop.BoundTree.Walk.{search, insert_loop-place, find_loop-search}
use counter_rop.BoundTree.Insert.{
  size-graft, has-graft, is_node-graft, Distinct-graft, Below-graft, Repr-graft, ptr-graft,
}

pub none_of {ℓ} : {A : Type ℓ} (o : Option A) → is_some o ≡ false → o ≡ none
none_of none e = refl
none_of (some a) e = cc

-- A search that ends in a range leaves the tree as it is.
pub graft_inside :
    (t : Shape) (n lo hi : ℕ) (prev : Ptr) (left : Bool)
    → place t prev left lo ≡ none
    → graft t n lo hi ≡ t
graft_inside leaf n lo hi prev left e = cc
graft_inside (node p a b l r) n lo hi prev left e =
    ground (arith, graft_inside l n lo hi p true, graft_inside r n lo hi p false)

-- Whether the search for an address ends below a node, and not in a range.
abbrev pub accepts : Shape → ℕ → Bool
accepts t x = is_some (place t (ptr t) false x)

module _ (b : BoundTree) (lo hi : ℕ) where
  abbrev grown : Heap TreeNode
  grown = record {
    cell = update b.heap.cell b.heap.fresh (some (tree_node lo hi null null));
    fresh = b.heap.fresh + 1;
    room = b.heap.room - 1;
  }

  pub new_node_some :
      0 < b.heap.room
      → 0 < b.heap.fresh
      → new_node lo hi b ≡ ok (b.heap.fresh, record b { heap = grown })
  unfolding new_node
  new_node_some room fresh = ground arith

  pub new_node_full : b.heap.room ≡ 0 → new_node lo hi b ≡ fault
  unfolding new_node
  new_node_full room = ground arith

  abbrev planted : BoundTree
  planted = record { root = b.heap.fresh; is_initialized = true; heap = grown }

  pub planted-IsTree : IsTree b leaf → IsTree planted (node b.heap.fresh lo hi leaf leaf)
  planted-IsTree h = record {
    initialized = refl;
    rooted = λ e. refl;
    repr = (omega (arith, h.sized), ground arith, tt, tt);
    distinct = (refl, refl, λ q m. refl, tt, tt);
    below = (omega arith, tt, tt);
    sized = omega (arith, h.sized);
    exact = λ p out. ground (arith, h.exact p);
  }

  -- The new node hangs below the node `q`.
  abbrev hung : Ptr → Bool → TreeNode → BoundTree
  hung q side m = record b { heap = write grown q (some (link_child side b.heap.fresh m)) }

  pub place_member :
      (t : Shape) (prev : Ptr) (left : Bool) (q : Ptr) (side : Bool)
      → is_node t ≡ true
      → place t prev left lo ≡ some (q, side)
      → has q t ≡ true
  place_member t prev left q side inner found =
      ground (arith, has-place t prev left lo q side found)

  hung_exact :
      (t : Shape) (prev : Ptr) (left : Bool) (q : Ptr) (side : Bool) (m : TreeNode)
      → IsTree b t
      → place t prev left lo ≡ some (q, side)
      → has q t ≡ true
      → (p : Ptr) → ((p == b.heap.fresh) || has p t) ≡ false
      → (hung q side m).heap.cell p ≡ none
  hung_exact t prev left q side m h found member p out =
      let (other, spared) = or_false (p == b.heap.fresh) (has p t) out in
      update_spares grown.cell p q _ t spared member
      ∙ update_other b.heap.cell p b.heap.fresh _ (==→ne p b.heap.fresh other)
      ∙ h.exact p spared

  pub hung-IsTree :
      (t : Shape) (prev : Ptr) (left : Bool) (q : Ptr) (side : Bool) (m : TreeNode)
      → IsTree b t
      → is_node t ≡ true
      → place t prev left lo ≡ some (q, side)
      → b.heap.cell q ≡ some m
      → IsTree (hung q side m) (graft t b.heap.fresh lo hi)
  hung-IsTree t prev left q side m h inner found cell =
      let out = Below-fresh b.heap.fresh t h.below in
      let member : has q t ≡ true = place_member t prev left q side inner found in
      let other = ne_of_has b.heap.fresh q t out member in
      record {
        initialized = h.initialized ∙ inner ∙ sym (is_node-graft t b.heap.fresh lo hi);
        rooted = λ e. h.rooted inner ∙ sym (ptr-graft t b.heap.fresh lo hi inner);
        repr =
            Repr-graft grown.cell b.heap.fresh lo hi q side m
              (update_other b.heap.cell q b.heap.fresh _ (λ e. other (sym e)) ∙ cell)
              (update_self b.heap.cell b.heap.fresh _) (omega (arith, h.sized)) other t prev left
              (Repr-frame b.heap.cell b.heap.fresh _ t h.repr out) h.distinct found;
        distinct = Distinct-graft t b.heap.fresh lo hi prev left q side found h.distinct out;
        below = Below-graft t b.heap.fresh lo hi h.below;
        sized = omega (arith, size-graft t b.heap.fresh lo hi, h.sized);
        exact = λ p free.
            hung_exact t prev left q side m h found member p
              (sym (has-graft t b.heap.fresh lo hi p prev left q side found) ∙ free);
      }

module _ (b : BoundTree) (t : Shape) (lo hi : ℕ) (h : IsTree b t) where
  hang_runs :
      (q : Ptr) (side : Bool) (m : TreeNode)
      → 0 < b.heap.room
      → q ≢ null
      → b.heap.fresh ≢ q
      → b.heap.cell q ≡ some m
      → hang q side lo hi b ≡ ok (tt, hung b lo hi q side m)
  unfolding hang set_child load store
  hang_runs q side m room ne other cell = ground (arith, new_node_some b lo hi room, h.sized)

  insert_range_runs :
      is_node t ≡ true → insert_range lo hi b ≡ hang_if (place t (ptr t) false lo) lo hi b
  unfolding insert_range
  insert_range_runs inner = ground (
    arith,
    h.initialized,
    h.rooted inner,
    insert_loop-place b.heap.fresh b t (ptr t) false lo h.repr h.sized,
  )

  hang_if-IsTree :
      (found : Option (Ptr × Bool))
      → is_node t ≡ true
      → 0 < b.heap.room
      → place t (ptr t) false lo ≡ found
      → (b' : BoundTree) × (hang_if found lo hi b ≡ ok (is_some found, b'))
        × IsTree b' (graft t b.heap.fresh lo hi)
        × (b.heap.room ≤ b'.heap.room + 1)
  hang_if-IsTree none inner room e = (
    b,
    refl,
    subst (IsTree b) (sym (graft_inside t b.heap.fresh lo hi (ptr t) false e)) h,
    omega arith,
  )
  hang_if-IsTree (some (q, side)) inner room e =
      let member = place_member b lo hi t (ptr t) false q side inner e in
      let (m, cell, ne) = has_cell b.heap.cell q t h.repr member in
      let other = ne_of_has b.heap.fresh q t (Below-fresh b.heap.fresh t h.below) member in
      (
        hung b lo hi q side m,
        ground (arith, hang_runs q side m room ne other cell),
        hung-IsTree b lo hi t (ptr t) false q side m h inner e cell,
        omega arith,
      )

plant_runs :
    (b : BoundTree) (lo hi : ℕ)
    → IsTree b leaf
    → 0 < b.heap.room
    → insert_range lo hi b ≡ ok (true, planted b lo hi)
unfolding insert_range plant
plant_runs b lo hi h room = ground (arith, h.initialized, h.sized, new_node_some b lo hi room)

-- With memory left `boundTree_insert` returns `NULL` and changes nothing if the search for the lower
-- value ends in a range; else it returns the tree with the new range where the search ended.
pub insert_range-graft :
    (b : BoundTree) (t : Shape) (lo hi : ℕ)
    → IsTree b t
    → 0 < b.heap.room
    → (b' : BoundTree) × (insert_range lo hi b ≡ ok (accepts t lo, b'))
      × IsTree b' (graft t b.heap.fresh lo hi)
      × (b.heap.room ≤ b'.heap.room + 1)
insert_range-graft b leaf lo hi h room =
    (planted b lo hi, plant_runs b lo hi h room, planted-IsTree b lo hi h, omega arith)
insert_range-graft b (node p x y l r) lo hi h room =
    let t : Shape = node p x y l r in
    let (b', run, is, left) = hang_if-IsTree b t lo hi h (place t p false lo) refl room refl in
    (b', insert_range_runs b t lo hi h refl ∙ run, is, left)

pub insert_range_inside :
    (b : BoundTree) (t : Shape) (lo hi : ℕ)
    → IsTree b t
    → accepts t lo ≡ false
    → insert_range lo hi b ≡ ok (false, b)
insert_range_inside b leaf lo hi h inside = cc
insert_range_inside b (node p x y l r) lo hi h inside =
    insert_range_runs b (node p x y l r) lo hi h refl
    ∙ ap (λ found. hang_if found lo hi b) (none_of (place (node p x y l r) p false lo) inside)

-- The result of `boundFind`: what the search for the address ends with, or a bound 999 above it in
-- a tree that is not initialized.
abbrev pub found_in : BoundTree → Shape → ℕ → Option BoundTreeData
found_in b leaf x = some (record { is_left_child = false; bound = add64 x no_bound; node = b.root })
found_in b (node p lo hi l r) x = search (node p lo hi l r) p false 0 x

-- `boundFind` changes nothing and returns what the search ends with.
pub find_range-search :
    (b : BoundTree) (t : Shape) (x : ℕ) → IsTree b t → find_range x b ≡ ok (found_in b t x, b)
unfolding find_range
find_range-search b leaf x h = rw h.initialized
find_range-search b (node p lo hi l r) x h = ground (
  arith,
  h.initialized,
  h.rooted refl,
  find_loop-search b.heap.fresh b (node p lo hi l r) p false 0 x h.repr h.sized,
)
