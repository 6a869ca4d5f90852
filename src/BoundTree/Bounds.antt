-- ===== src/BoundTree/Bounds.antt =====
-- What the calls of the tree's functions promise of the ranges that it holds.
use counter_rop.Common.{
  is_some, ℕ, ◌+◌, ◌<◌, ◌≤◌, ◌≡◌, refl, Bool, true, false, not, Option, none, some, ◌∙◌, arith, sym,
  ap, ◌||◌, ◌&&◌,
}
use counter_rop.Common.Word.{rank, add64, sub64, word_mod, slt}
use counter_rop.Common.Outcome.{Outcome, ok, fault, exits, out_of_fuel}
use counter_rop.Common.Heap.{Ptr}
use counter_rop.BoundTree.{BoundTree, BoundTreeData, no_bound, insert_range, find_range}
use counter_rop.BoundTree.Shape.{Shape, leaf, node, place, graft, IsTree, ptr}
use counter_rop.BoundTree.Walk.{search}
use counter_rop.BoundTree.Refine.{
  accepts, found_in, insert_range-graft, insert_range_inside, find_range-search,
}
use counter_rop.BoundTree.Ranges.{
  Separated, covered, next_above, place-covered, Separated-graft, graft-Separated, search_left,
  search_right, covered-graft,
}

-- The tree in memory holds ranges that do not overlap, over the whole address space.
pub record Holds (b : BoundTree) (t : Shape) : Type 0 where
  pub is_tree : IsTree b t
  pub separated : Separated 0 word_mod t

-- Whether `boundFind` returned a pointer.
search-place :
    (t : Shape) (prev : Ptr) (left : Bool) (bound x : ℕ)
    → is_some (search t prev left bound x) ≡ is_some (place t prev left x)
search-place leaf prev left bound x = refl
search-place (node p lo hi l r) prev left bound x =
    ground
      (arith, search-place l p true (sub64 lo 1) x, search-place r p false (add64 x no_bound) x)

pub found_in-accepts : (b : BoundTree) (t : Shape) (x : ℕ) → is_some (found_in b t x) ≡ accepts t x
found_in-accepts b leaf x = refl
found_in-accepts b (node p lo hi l r) x = search-place (node p lo hi l r) p false 0 x

found_in-covered :
    (b : BoundTree) (t : Shape) (x : ℕ)
    → Separated 0 word_mod t
    → is_some (found_in b t x) ≡ not (covered t x)
found_in-covered b leaf x s = refl
found_in-covered b (node p lo hi l r) x s =
    search-place (node p lo hi l r) p false 0 x
    ∙ place-covered (node p lo hi l r) 0 word_mod p false x s

-- In a well-formed tree whose ranges are apart, `boundFind` changes nothing, and returns `NULL`
-- exactly when a range of the tree holds the address.
pub find_range-covered :
    (b : BoundTree) (t : Shape) (x : ℕ)
    → Holds b t
    → (d : Option BoundTreeData) × (find_range x b ≡ ok (d, b)) × (is_some d ≡ not (covered t x))
find_range-covered b t x h =
    (found_in b t x, find_range-search b t x h.is_tree, found_in-covered b t x h.separated)

-- In a well-formed tree whose ranges are apart, with memory left, `boundTree_insert` takes a range
-- that is not empty, whose lower bound no range holds and which ends below the next range: the ranges
-- stay apart, and afterwards the tree covers the new range and what it covered before.
pub insert_range-Holds :
    (b : BoundTree) (t : Shape) (lo hi : ℕ)
    → Holds b t
    → 0 < b.heap.room
    → covered t lo ≡ false
    → rank lo ≤ rank hi
    → rank hi < next_above t word_mod lo
    → (b' : BoundTree) × (t' : Shape) × (insert_range lo hi b ≡ ok (true, b'))
      × Holds b' t'
      × ((y : ℕ) → covered t' y ≡ ((not (slt y lo) && not (slt hi y)) || covered t y))
insert_range-Holds b t lo hi h room free order fits =
    let (b', run, is, _) = insert_range-graft b t lo hi h.is_tree room in
    let accepted : accepts t lo ≡ true =
      place-covered t 0 word_mod (ptr t) false lo h.separated ∙ ap not free in
    (
      b',
      graft t b.heap.fresh lo hi,
      run ∙ ap (λ a. ok (a, b')) accepted,
      record {
        is_tree = is;
        separated =
            Separated-graft t 0 word_mod b.heap.fresh lo hi h.separated (omega arith) order fits;
      },
      λ y. covered-graft t b.heap.fresh lo hi y (ptr t) false accepted,
    )

-- In a well-formed tree whose ranges are apart, `boundTree_insert` refuses a range whose lower bound
-- another range holds, and changes nothing.
pub insert_range-covered :
    (b : BoundTree) (t : Shape) (lo hi : ℕ)
    → Holds b t
    → covered t lo ≡ true
    → insert_range lo hi b ≡ ok (false, b)
insert_range-covered b t lo hi h inside =
    insert_range_inside b t lo hi h.is_tree
      (place-covered t 0 word_mod (ptr t) false lo h.separated ∙ ap not inside)

-- What a run of `boundFind` returned.
kept : Outcome (Option BoundTreeData × BoundTree) → Option BoundTreeData
kept (ok (d, b)) = d
kept fault = none
kept (exits n) = none
kept out_of_fuel = none

found :
    (b : BoundTree) (t : Shape) (x : ℕ) (d : BoundTreeData)
    → IsTree b t
    → find_range x b ≡ ok (some d, b)
    → found_in b t x ≡ some d
unfolding kept
found b t x d h e = ap kept (sym (find_range-search b t x h) ∙ e)

found_free :
    (b : BoundTree) (t : Shape) (x : ℕ) (d : BoundTreeData)
    → Holds b t
    → found_in b t x ≡ some d
    → covered t x ≡ false
found_free b t x d h e = ground (arith, found_in-covered b t x h.separated, ap is_some e)

found_left :
    (b : BoundTree) (t : Shape) (x : ℕ) (d : BoundTreeData)
    → found_in b t x ≡ some d
    → d.is_left_child ≡ true
    → rank d.bound + 1 ≡ next_above t word_mod x
found_left b leaf x d e turn = absurd (ground arith)
found_left b (node p lo hi l r) x d e turn =
    search_left (node p lo hi l r) word_mod p false 0 x d (λ q. cc) e turn

found_right :
    (b : BoundTree) (t : Shape) (x : ℕ) (d : BoundTreeData)
    → found_in b t x ≡ some d
    → d.is_left_child ≡ false
    → d.bound ≡ add64 x no_bound
found_right b leaf x d e turn = ground arith
found_right b (node p lo hi l r) x d e turn =
    ground
      (arith, search_right l p true (sub64 lo 1) x d, search_right r p false (add64 x no_bound) x d)

-- In a well-formed tree whose ranges are apart, with memory left: where the search of `boundFind` ends
-- on the left of a node, any range from the address up to the bound may be inserted, and the ranges
-- stay apart.
pub find_range_left :
    (b : BoundTree) (t : Shape) (x hi : ℕ) (d : BoundTreeData)
    → Holds b t
    → 0 < b.heap.room
    → find_range x b ≡ ok (some d, b)
    → d.is_left_child ≡ true
    → rank x ≤ rank hi
    → rank hi ≤ rank d.bound
    → (b' : BoundTree) × (t' : Shape) × (insert_range x hi b ≡ ok (true, b')) × Holds b' t'
find_range_left b t x hi d h room e turn order below =
    let got = found b t x d h.is_tree e in
    let (b', t', run, kept, _) =
      insert_range-Holds b t x hi h room (found_free b t x d h got) order
        (omega (arith, found_left b t x d got turn)) in
    (b', t', run, kept)

-- In a well-formed tree whose ranges are apart, with memory left: where the search of `boundFind` ends
-- on the right of a node and the next range begins no later than 999 above the address, a range
-- inserted up to the bound makes the ranges overlap.
pub find_range_right :
    (b : BoundTree) (t : Shape) (x : ℕ) (d : BoundTreeData)
    → Holds b t
    → 0 < b.heap.room
    → find_range x b ≡ ok (some d, b)
    → d.is_left_child ≡ false
    → next_above t word_mod x ≤ rank (add64 x no_bound)
    → (b' : BoundTree) × (t' : Shape) × (insert_range x d.bound b ≡ ok (true, b'))
      × IsTree b' t'
      × ¬ Separated 0 word_mod t'
find_range_right b t x d h room e turn near =
    let got = found b t x d h.is_tree e in
    let (b', run, is, _) = insert_range-graft b t x d.bound h.is_tree room in
    let accepted : accepts t x ≡ true =
      place-covered t 0 word_mod (ptr t) false x h.separated ∙ ap not (found_free b t x d h got) in
    (
      b',
      graft t b.heap.fresh x d.bound,
      run ∙ ap (λ a. ok (a, b')) accepted,
      is,
      λ s. absurd (
          omega (
            arith,
            graft-Separated t 0 word_mod b.heap.fresh x d.bound (ptr t) false accepted s,
            ap (λ y. rank y) (found_right b t x d got turn),
          )),
    )
