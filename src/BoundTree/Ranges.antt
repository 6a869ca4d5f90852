-- ===== src/BoundTree/Ranges.antt =====
-- The ranges of the tree in order: when the search finds the range of an address, when an insertion
-- keeps the ranges apart, and what the bound of `boundFind` is worth.
use counter_rop.Common.{
  is_some, ℕ, suc, ◌+◌, ◌<◌, ◌≤◌, ◌≡◌, refl, Bool, true, false, ◌||◌, ◌&&◌, not, some, arith,
  if◌then◌else◌,
}
use counter_rop.Common.Word.{slt, rank, add64, sub64, slt→lt, slt→le}
use counter_rop.Common.Heap.{Ptr}
use counter_rop.BoundTree.{BoundTreeData, no_bound}
use counter_rop.BoundTree.Shape.{Shape, leaf, node, place, graft}
use counter_rop.BoundTree.Walk.{search}

-- The ranges stand in order, none overlaps another, and all lie at ranks from `a` up to below `b`.
abbrev pub Separated : ℕ → ℕ → Shape → Type 0
Separated a b leaf = Unit {0}
Separated a b (node p lo hi l r) =
    (a ≤ rank lo)
    × (rank lo ≤ rank hi)
    × (rank hi < b)
    × Separated a (rank lo) l
    × Separated (suc (rank hi)) b r

-- An address is in a range of the tree.
abbrev pub covered : Shape → ℕ → Bool
covered leaf x = false
covered (node p lo hi l r) x = (not (slt x lo) && not (slt hi x)) || (covered l x || covered r x)

-- The rank of the first lower bound above an address, or `b` if there is none.
abbrev pub next_above : Shape → ℕ → ℕ → ℕ
next_above leaf b x = b
next_above (node p lo hi l r) b x = if slt x lo then next_above l (rank lo) x else next_above r b x

covered_below : (t : Shape) (a b x : ℕ) → Separated a b t → rank x < a → covered t x ≡ false
covered_below leaf a b x s h = refl
covered_below (node p lo hi l r) a b x s h = ground (
  arith,
  slt→le x lo,
  covered_below l a (rank lo) x s.3 h,
  covered_below r (suc (rank hi)) b x s.4 (omega arith),
)

covered_above : (t : Shape) (a b x : ℕ) → Separated a b t → b ≤ rank x → covered t x ≡ false
covered_above leaf a b x s h = refl
covered_above (node p lo hi l r) a b x s h = ground (
  arith,
  slt→le hi x,
  covered_above l a (rank lo) x s.3 (omega arith),
  covered_above r (suc (rank hi)) b x s.4 h,
)

-- In a tree of separated ranges the search ends in a range exactly when some range holds the address.
pub place-covered :
    (t : Shape) (a b : ℕ) (prev : Ptr) (left : Bool) (x : ℕ)
    → Separated a b t
    → is_some (place t prev left x) ≡ not (covered t x)
place-covered leaf a b prev left x s = refl
place-covered (node p lo hi l r) a b prev left x s = ground (
  arith,
  slt→lt x lo,
  slt→lt hi x,
  slt→le hi x,
  place-covered l a (rank lo) p true x s.3,
  place-covered r (suc (rank hi)) b p false x s.4,
  covered_below r (suc (rank hi)) b x s.4,
  covered_above l a (rank lo) x s.3,
)

pub Separated-graft :
    (t : Shape) (a b n lo hi : ℕ)
    → Separated a b t
    → a ≤ rank lo
    → rank lo ≤ rank hi
    → rank hi < next_above t b lo
    → Separated a b (graft t n lo hi)
Separated-graft leaf a b n lo hi s from order room = (from, order, room, tt, tt)
Separated-graft (node p x y l r) a b n lo hi s from order room = ground (
  arith,
  slt→lt y lo,
  Separated-graft l a (rank x) n lo hi s.3,
  Separated-graft r (suc (rank y)) b n lo hi s.4,
)

pub graft-Separated :
    (t : Shape) (a b n lo hi : ℕ) (prev : Ptr) (left : Bool)
    → is_some (place t prev left lo) ≡ true
    → Separated a b (graft t n lo hi)
    → rank hi < next_above t b lo
graft-Separated leaf a b n lo hi prev left e s = s.2
graft-Separated (node p x y l r) a b n lo hi prev left e s = ground (
  arith,
  graft-Separated l a (rank x) n lo hi p true,
  graft-Separated r (suc (rank y)) b n lo hi p false,
)

rank-sub64 : (x y : ℕ) → rank x < rank y → rank (sub64 y 1) + 1 ≡ rank y
rank-sub64 x y h = omega arith

-- After a last step to the left the bound is the last address before the next range.
pub search_left :
    (t : Shape) (b : ℕ) (prev : Ptr) (left : Bool) (bound x : ℕ) (d : BoundTreeData)
    → (left ≡ true → rank bound + 1 ≡ b)
    → search t prev left bound x ≡ some d
    → d.is_left_child ≡ true
    → rank d.bound + 1 ≡ next_above t b x
search_left leaf b prev left bound x d e found turn = ground arith
search_left (node p lo hi l r) b prev left bound x d e found turn = ground (
  arith,
  rank-sub64 x lo,
  slt→lt x lo,
  search_left l (rank lo) p true (sub64 lo 1) x d,
  search_left r b p false (add64 x no_bound) x d,
)

-- After a last step to the right it is 999 above the address, whatever ranges lie there.
pub search_right :
    (t : Shape) (prev : Ptr) (left : Bool) (bound x : ℕ) (d : BoundTreeData)
    → (left ≡ false → bound ≡ add64 x no_bound)
    → search t prev left bound x ≡ some d
    → d.is_left_child ≡ false
    → d.bound ≡ add64 x no_bound
search_right leaf prev left bound x d e found turn = ground arith
search_right (node p lo hi l r) prev left bound x d e found turn =
    ground
      (arith, search_right l p true (sub64 lo 1) x d, search_right r p false (add64 x no_bound) x d)

-- An accepted range adds its addresses and takes none away.
pub covered-graft :
    (t : Shape) (n lo hi y : ℕ) (prev : Ptr) (left : Bool)
    → is_some (place t prev left lo) ≡ true
    → covered (graft t n lo hi) y ≡ ((not (slt y lo) && not (slt hi y)) || covered t y)
covered-graft leaf n lo hi y prev left e = refl
covered-graft (node p a b l r) n lo hi y prev left e =
    ground (arith, covered-graft l n lo hi y p true, covered-graft r n lo hi y p false)
