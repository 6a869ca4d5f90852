-- ===== src/BoundTree/Insert.antt =====
-- `boundTree_insert` on a well-formed tree.
use counter_rop.Common.{
  ℕ, ◌+◌, ◌≤◌, ◌≡◌, ◌≢◌, refl, Bool, true, false, some, arith, ◌==◌, ◌||◌, inl, inr, Bool-cases,
}
use counter_rop.Common.Word.{slt}
use counter_rop.Common.Heap.{Ptr, null, update}
use counter_rop.BoundTree.{TreeNode, tree_node, link_child}
use counter_rop.BoundTree.Shape.{
  Cells, Shape, leaf, node, Repr, ptr, size, place, graft, has, Distinct, Below, is_node,
  Repr-frame, Below-mono, has-place,
}

pub size-graft : (t : Shape) (n lo hi : ℕ) → size (graft t n lo hi) ≤ size t + 1
size-graft leaf n lo hi = omega arith
size-graft (node p a b l r) n lo hi = ground (arith, size-graft l n lo hi, size-graft r n lo hi)

pub has-graft :
    (t : Shape) (n lo hi x : ℕ) (prev : Ptr) (left : Bool) (q : Ptr) (side : Bool)
    → place t prev left lo ≡ some (q, side)
    → has x (graft t n lo hi) ≡ ((x == n) || has x t)
has-graft leaf n lo hi x prev left q side found = ground arith
has-graft (node p a b l r) n lo hi x prev left q side found =
    ground (arith, has-graft l n lo hi x p true q side, has-graft r n lo hi x p false q side)

pub Distinct-graft :
    (t : Shape) (n lo hi : ℕ) (prev : Ptr) (left : Bool) (q : Ptr) (side : Bool)
    → place t prev left lo ≡ some (q, side)
    → Distinct t
    → has n t ≡ false
    → Distinct (graft t n lo hi)
Distinct-graft leaf n lo hi prev left q side found d out = (refl, refl, λ q m. refl, tt, tt)
Distinct-graft (node p a b l r) n lo hi prev left q side found d out =
    elim (Bool-cases (slt lo a)) [
      | inl below ↦
          let found' : place l p true lo ≡ some (q, side) = ground arith in
          rw below (
            ground (arith, has-graft l n lo hi p p true q side found'),
            d.1,
            λ x m. ground (arith, has-graft l n lo hi x p true q side found', d.2 x),
            Distinct-graft l n lo hi p true q side found' d.3 (ground arith),
            d.4,
          )
      | inr not_below ↦ elim (Bool-cases (slt b lo)) [
        | inl above ↦
            let found' : place r p false lo ≡ some (q, side) = ground arith in
            rw (not_below, above)
              (
                d.0,
                ground (arith, has-graft r n lo hi p p false q side found'),
                λ x m. ground (arith, has-graft r n lo hi x p false q side found', d.2 x),
                d.3,
                Distinct-graft r n lo hi p false q side found' d.4 (ground arith),
              )
        | inr inside ↦ rw (not_below, inside) d
      ]
    ]

pub Below-graft : (t : Shape) (n lo hi : ℕ) → Below n t → Below (n + 1) (graft t n lo hi)
Below-graft leaf n lo hi b = (omega arith, tt, tt)
Below-graft (node p a c l r) n lo hi b = ground (
  arith,
  Below-graft l n lo hi b.1,
  Below-graft r n lo hi b.2,
  Below-mono n l b.1,
  Below-mono n r b.2,
)

pub ptr-graft : (t : Shape) (n lo hi : ℕ) → is_node t ≡ true → ptr (graft t n lo hi) ≡ ptr t
ptr-graft leaf n lo hi inner = cc
ptr-graft (node p a b l r) n lo hi inner = ground arith

pub is_node-graft : (t : Shape) (n lo hi : ℕ) → is_node (graft t n lo hi) ≡ true
is_node-graft leaf n lo hi = refl
is_node-graft (node p a b l r) n lo hi = ground arith

-- The write at the place where the search in a subtree ends spares what the subtree is apart from.
place_apart :
    (t other : Shape) (p : Ptr) (side : Bool) (x : ℕ) (q : Ptr) (end : Bool)
    → place t p side x ≡ some (q, end)
    → has p other ≡ false
    → ((y : Ptr) → has y t ≡ true → has y other ≡ false)
    → has q other ≡ false
place_apart t other p side x q end found out apart =
    ground (arith, has-place t p side x q end found, apart q)

module _ (c : Cells) (n lo hi : ℕ) (q : Ptr) (side : Bool) (m : TreeNode) (held : c q ≡ some m)
    (fresh : c n ≡ some (tree_node lo hi null null)) (ne : n ≢ null) (other : n ≢ q) where
  -- One pointer is written, in the node where the search ended.
  abbrev linked : Cells
  linked = update c q (some (link_child side n m))

  child_left :
      (l : Shape) (p a b : ℕ) (right : Ptr)
      → place l p true lo ≡ some (q, side)
      → has p l ≡ false
      → c p ≡ some (tree_node a b (ptr l) right)
      → linked p ≡ some (tree_node a b (ptr (graft l n lo hi)) right)
  child_left leaf p a b right found out cell = ground (arith, held)
  child_left (node p' a' b' l r) p a b right found out cell =
      rw (ptr-graft (node p' a' b' l r) n lo hi refl)
        (ground (arith, has-place (node p' a' b' l r) p true lo q side found))

  child_right :
      (r : Shape) (p a b : ℕ) (left : Ptr)
      → place r p false lo ≡ some (q, side)
      → has p r ≡ false
      → c p ≡ some (tree_node a b left (ptr r))
      → linked p ≡ some (tree_node a b left (ptr (graft r n lo hi)))
  child_right leaf p a b left found out cell = ground (arith, held)
  child_right (node p' a' b' l r) p a b left found out cell =
      rw (ptr-graft (node p' a' b' l r) n lo hi refl)
        (ground (arith, has-place (node p' a' b' l r) p false lo q side found))

  pub Repr-graft :
      (t : Shape) (prev : Ptr) (left : Bool)
      → Repr c t
      → Distinct t
      → place t prev left lo ≡ some (q, side)
      → Repr linked (graft t n lo hi)
  Repr-graft leaf prev left h d found = (ne, ground (arith, fresh, other), tt, tt)
  Repr-graft (node p a b l r) prev left h d found = elim (Bool-cases (slt lo a)) [
    | inl below ↦
        let found' : place l p true lo ≡ some (q, side) = ground arith in
        rw below (
          h.0,
          child_left l p a b (ptr r) found' d.0 h.1,
          Repr-graft l p true h.2 d.3 found',
          Repr-frame c q _ r h.3 (place_apart l r p true lo q side found' d.1 d.2),
        )
    | inr not_below ↦ elim (Bool-cases (slt b lo)) [
      | inl above ↦
          let found' : place r p false lo ≡ some (q, side) = ground arith in
          rw (not_below, above)
            (
              h.0,
              child_right r p a b (ptr l) found' d.1 h.1,
              Repr-frame c q _ l h.2
                  (place_apart r l p false lo q side found' d.0 (λ y m. ground (arith, d.2 y))),
              Repr-graft r p false h.3 d.4 found',
            )
      | inr inside ↦ absurd (ground arith)
    ]
  ]
