-- ===== src/BoundTree/Measure.antt =====
-- How many addresses the tree of data/boundTree/boundTree.c does not hold: what makes the analyser end.
use counter_rop.Common.{
  is_some, ℕ, zero, suc, ◌+◌, ◌<◌, ◌≤◌, ◌%◌, ◌≡◌, refl, Bool, true, false, arith, if◌then◌else◌, ap,
  ==→eq, ◌==◌, ltb, Bool-cases, inl, inr, ◌∙◌, sym, true≢false, not, ◌&&◌, ◌⊎◌,
}
use counter_rop.Common.Word.{slt, slt_self, rank, word_mod}
use counter_rop.Common.Heap.{Ptr}
use counter_rop.BoundTree.Shape.{Shape, leaf, node, ptr, place, graft}
use counter_rop.BoundTree.Refine.{accepts}

-- How many numbers below `n` have the property.
count : ℕ → (ℕ → Bool) → ℕ
count zero p = 0
count (suc n) p = (if p n then 1 else 0) + count n p

count_mono : (n : ℕ) (p q : ℕ → Bool) → ((x : ℕ) → q x ≡ true → p x ≡ true) → count n q ≤ count n p
unfolding count
count_mono zero p q fewer = omega arith
count_mono (suc n) p q fewer = ground (arith, fewer n, count_mono n p q fewer)

count_less :
    (n x : ℕ) (p q : ℕ → Bool)
    → ((x : ℕ) → q x ≡ true → p x ≡ true)
    → x < n
    → p x ≡ true
    → q x ≡ false
    → count n q < count n p
unfolding count
count_less zero x p q fewer below there gone = absurd (omega arith)
count_less (suc n) x p q fewer below there gone = elim (Bool-cases (x == n)) [
  | inl same ↦
      let e = ==→eq x n same in
      let there' : p n ≡ true = ap p (sym e) ∙ there in
      let gone' : q n ≡ false = ap q (sym e) ∙ gone in
      rw (there', gone') (omega (arith, count_mono n p q fewer))
  | inr other ↦ ground (arith, fewer n, count_less n x p q fewer)
]

-- How many words no range of the tree holds.
pub uncovered : Shape → ℕ
uncovered t = count word_mod (accepts t)

count_all : (n : ℕ) (p : ℕ → Bool) → count n p ≤ n
unfolding count
count_all zero p = omega arith
count_all (suc n) p = ground (arith, count_all n p)

pub uncovered_words : (t : Shape) → uncovered t ≤ word_mod
unfolding uncovered
uncovered_words t = count_all word_mod (accepts t)

rank-word : (x : ℕ) → rank (x % word_mod) ≡ rank x
rank-word x = omega arith

slt-word : (x a : ℕ) → slt (x % word_mod) a ≡ slt x a
unfolding slt
slt-word x a = ap (λ r. ltb r (rank a)) (rank-word x)

slt-word_right : (x a : ℕ) → slt a (x % word_mod) ≡ slt a x
unfolding slt
slt-word_right x a = ap (λ r. ltb (rank a) r) (rank-word x)

place-word :
    (t : Shape) (prev : Ptr) (left : Bool) (x : ℕ)
    → is_some (place t prev left (x % word_mod)) ≡ is_some (place t prev left x)
place-word leaf prev left x = refl
place-word (node p a b l r) prev left x =
    rw (slt-word x a, slt-word_right x b)
      (ground (arith, place-word l p true x, place-word r p false x))

-- A new range takes no address from those that are held.
place-graft :
    (t : Shape) (n lo hi : ℕ) (prev : Ptr) (left : Bool) (x : ℕ)
    → is_some (place (graft t n lo hi) prev left x) ≡ true
    → is_some (place t prev left x) ≡ true
place-graft leaf n lo hi prev left x h = refl
place-graft (node p a b l r) n lo hi prev left x h =
    ground (arith, place-graft l n lo hi p true x, place-graft r n lo hi p false x)

-- Its own lower bound is held, unless it is empty.
place-graft_self :
    (t : Shape) (n lo hi : ℕ) (prev : Ptr) (left : Bool)
    → slt hi lo ≡ false
    → is_some (place (graft t n lo hi) prev left lo) ≡ false
place-graft_self leaf n lo hi prev left full = ground (arith, slt_self lo)
place-graft_self (node p a b l r) n lo hi prev left full =
    ground (arith, place-graft_self l n lo hi p true full, place-graft_self r n lo hi p false full)

ptr-indep :
    (t : Shape) (p q : Ptr) (left right : Bool) (x : ℕ)
    → is_some (place t p left x) ≡ is_some (place t q right x)
ptr-indep leaf p q left right x = refl
ptr-indep (node n a b l r) p q left right x = refl

accepted_before :
    (t : Shape) (n lo hi x : ℕ) → accepts (graft t n lo hi) x ≡ true → accepts t x ≡ true
accepted_before t n lo hi x h =
    place-graft t n lo hi (ptr t) false x
      (ptr-indep (graft t n lo hi) (ptr t) (ptr (graft t n lo hi)) false false x ∙ h)

pub accepts-graft :
    (t : Shape) (n lo hi x : ℕ) → accepts t x ≡ false → accepts (graft t n lo hi) x ≡ false
accepts-graft t n lo hi x held = elim (Bool-cases (accepts (graft t n lo hi) x)) [
  | inl free ↦ absurd (true≢false (sym (accepted_before t n lo hi x free) ∙ held))
  | inr still ↦ still
]

-- Between the two ends of a range.
abbrev pub within : ℕ → ℕ → ℕ → Bool
within lo hi x = not (slt x lo) && not (slt hi x)

place-graft-within :
    (t : Shape) (n lo hi : ℕ) (prev : Ptr) (left : Bool) (x : ℕ)
    → is_some (place (graft t n lo hi) prev left x) ≡ false
    → (is_some (place t prev left x) ≡ false) ⊎ (within lo hi x ≡ true)
place-graft-within leaf n lo hi prev left x h = inr (ground arith)
place-graft-within (node p a b l r) n lo hi prev left x h =
    ground (arith, place-graft-within l n lo hi p true x, place-graft-within r n lo hi p false x)

-- An address that is held with a new range was held before, or lies in the range.
pub accepts-graft-within :
    (t : Shape) (n lo hi x : ℕ)
    → accepts (graft t n lo hi) x ≡ false
    → (accepts t x ≡ false) ⊎ (within lo hi x ≡ true)
accepts-graft-within t n lo hi x h =
    place-graft-within t n lo hi (ptr t) false x
      (ptr-indep (graft t n lo hi) (ptr t) (ptr (graft t n lo hi)) false false x ∙ h)

pub accepts-graft_self :
    (t : Shape) (n lo hi : ℕ) → slt hi lo ≡ false → accepts (graft t n lo hi) lo ≡ false
accepts-graft_self t n lo hi full = place-graft_self t n lo hi (ptr (graft t n lo hi)) false full

-- A range that is not empty, at an address that no range holds, makes the addresses fewer that no
-- range holds.
pub uncovered-graft :
    (t : Shape) (n lo hi : ℕ)
    → accepts t lo ≡ true
    → slt hi lo ≡ false
    → uncovered (graft t n lo hi) < uncovered t
unfolding uncovered
uncovered-graft t n lo hi free full =
    count_less word_mod (lo % word_mod) (accepts t) (accepts (graft t n lo hi))
      (accepted_before t n lo hi) (omega arith) (place-word t (ptr t) false lo ∙ free)
      (place-word (graft t n lo hi) (ptr (graft t n lo hi)) false lo
        ∙ accepts-graft_self t n lo hi full)

-- The same for the addresses below a number.
pub uncovered_below : ℕ → Shape → ℕ
uncovered_below m t = count m (accepts t)

pub uncovered_below-le : (m : ℕ) (t : Shape) → uncovered_below m t ≤ m
unfolding uncovered_below
uncovered_below-le m t = count_all m (accepts t)

pub uncovered_below-graft :
    (m : ℕ) (t : Shape) (n lo hi : ℕ)
    → lo < m
    → accepts t lo ≡ true
    → slt hi lo ≡ false
    → uncovered_below m (graft t n lo hi) < uncovered_below m t
unfolding uncovered_below
uncovered_below-graft m t n lo hi small free full =
    count_less m lo (accepts t) (accepts (graft t n lo hi)) (accepted_before t n lo hi) small free
      (accepts-graft_self t n lo hi full)
