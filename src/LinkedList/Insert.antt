-- ===== src/LinkedList/Insert.antt =====
-- `list_insert` on a well-formed list.
use counter_rop.Common.{
  ℕ, ◌+◌, ◌-◌, ◌∙◌, ◌<◌, ◌≡◌, ◌≢◌, refl, sym, subst, ap, true, false, some, none, [], ◌∷◌, ◌++◌,
  arith, length-append,
}
use counter_rop.Common.Outcome.{ok, exits}
use counter_rop.Common.Heap.{null, update, Ptr, malloc, Heap, write}
use counter_rop.LinkedList.Find.{list_find-Holds}
use counter_rop.LinkedList.{
  LinkedList, ListNode, list_insert, list_node, list_find, new_node, link, set_next, load, store,
}
use counter_rop.LinkedList.Chain.{
  Cells, Nodes, Chain, Holds, last, has, addresses, contains, Distinct, Chain-frame, Below-fresh,
  has-last, update_spares, has-append, not_has_left, last-snoc, Distinct-snoc, Below-snoc,
}

-- The last node of a chain, as a cell.
last_cell :
    (c : Cells) (d p a : ℕ) (r : Nodes)
    → Chain c d ((p, a) ∷ r)
    → (b : ℕ) × (q : Ptr) × (c (last d ((p, a) ∷ r)) ≡ some (list_node b null q))
      × (last d ((p, a) ∷ r) ≢ null)
last_cell c d p a [] h = (a, d, h.1, h.0)
last_cell c d p a ((q, b) ∷ r) h = last_cell c p q b r h.2

-- A new node behind the last.
Chain-snoc :
    (c : Cells) (d p a b : ℕ) (q new v : ℕ) (r : Nodes)
    → Chain c d ((p, a) ∷ r)
    → Distinct ((p, a) ∷ r)
    → new ≢ null
    → c new ≡ some (list_node v null (last d ((p, a) ∷ r)))
    → has new ((p, a) ∷ r) ≡ false
    → c (last d ((p, a) ∷ r)) ≡ some (list_node b null q)
    → Chain
        (update c (last d ((p, a) ∷ r)) (some (list_node b new q)))
        d
        (((p, a) ∷ r) ++ (new, v) ∷ [])
Chain-snoc c d p a b q new v [] h dist ne cn out e = (h.0, ground arith, (ne, ground arith, tt))
Chain-snoc c d p a b q new v ((p', a') ∷ r) h dist ne cn out e = (
  h.0,
  update_spares c p _ _ ((p', a') ∷ r) dist.0 (has-last p p' a' r) ∙ h.1,
  Chain-snoc c p p' a' b q new v r h.2 dist.1 ne cn (ground arith) e,
)

module _ (l : LinkedList) (a : ℕ) where
  -- The heap with the new node, which is not yet linked.
  abbrev grown : Ptr → Heap ListNode
  grown t = record {
    cell = update l.heap.cell l.heap.fresh (some (list_node a null t));
    fresh = l.heap.fresh + 1;
    room = l.heap.room - 1;
  }

  new_node_some :
      0 < l.heap.room
      → 0 < l.heap.fresh
      → new_node a l ≡ ok (l.heap.fresh, record l { heap = grown l.tail })
  unfolding new_node
  new_node_some room fresh = ground arith

  grown_exact :
      (t : Ptr) (ns : Nodes)
      → ((p : Ptr) → has p ns ≡ false → l.heap.cell p ≡ none)
      → (p : Ptr) → has p (ns ++ (l.heap.fresh, a) ∷ []) ≡ false
      → (grown t).cell p ≡ none
  grown_exact t ns exact p out = ground (arith, exact p, has-append p ns ((l.heap.fresh, a) ∷ []))

  insert_empty :
      Holds l []
      → 0 < l.heap.room
      → (l' : LinkedList) × (list_insert a l ≡ ok (1, l'))
        × Holds l' ((l.heap.fresh, a) ∷ [])
        × (l'.heap.room + 1 ≡ l.heap.room)
  unfolding list_insert link
  insert_empty h room = (
    record { head = l.heap.fresh; tail = l.heap.fresh; heap = grown null },
    ground (arith, list_find-Holds l a [] h, new_node_some room),
    record {
      head_first = refl;
      tail_last = refl;
      chain = ground (arith, h.sized);
      distinct = (refl, tt);
      below = omega arith;
      sized = omega (arith, h.sized);
      exact = grown_exact null [] h.exact;
    },
    omega arith,
  )

  -- The last node, rewritten to point at the new one.
  abbrev relinked : ℕ → Ptr → Heap ListNode
  relinked v q = write (grown l.tail) l.tail (some (list_node v l.heap.fresh q))

  link_behind :
      (v : ℕ) (q : Ptr)
      → l.head ≢ null
      → l.tail ≢ null
      → l.tail ≢ l.heap.fresh
      → l.heap.cell l.tail ≡ some (list_node v null q)
      → link l.heap.fresh (record l { heap = grown l.tail })
        ≡ ok (tt, record l { tail = l.heap.fresh; heap = relinked v q })
  unfolding link set_next load store
  link_behind v q head tail other cell = ground arith

  relinked_chain :
      (v p b : ℕ) (q : Ptr) (r : Nodes)
      → Holds l ((p, b) ∷ r)
      → l.heap.cell (last null ((p, b) ∷ r)) ≡ some (list_node v null q)
      → Chain (relinked v q).cell null (((p, b) ∷ r) ++ (l.heap.fresh, a) ∷ [])
  relinked_chain v p b q r h cell =
      let c = update l.heap.cell l.heap.fresh (some (list_node a null (last null ((p, b) ∷ r)))) in
      let out = Below-fresh l.heap.fresh ((p, b) ∷ r) h.below in
      subst
        (λ t.
          Chain
            (update (update l.heap.cell l.heap.fresh (some (list_node a null t))) t
              (some (list_node v l.heap.fresh q)))
            null (((p, b) ∷ r) ++ (l.heap.fresh, a) ∷ []))
        (sym h.tail_last)
        (Chain-snoc c null p b v q l.heap.fresh a r
          (Chain-frame l.heap.cell l.heap.fresh _ null ((p, b) ∷ r) h.chain out) h.distinct
          (omega (arith, h.sized)) (ground arith) out (ground (arith, has-last null p b r)))

  last_member : (p b : ℕ) (r : Nodes) → Holds l ((p, b) ∷ r) → has l.tail ((p, b) ∷ r) ≡ true
  last_member p b r h =
      subst (λ t. has t ((p, b) ∷ r) ≡ true) (sym h.tail_last) (has-last null p b r)

  last_ne_fresh : (p b : ℕ) (r : Nodes) → Holds l ((p, b) ∷ r) → l.tail ≢ l.heap.fresh
  last_ne_fresh p b r h e = ground (
    arith,
    last_member p b r h,
    Below-fresh l.heap.fresh ((p, b) ∷ r) h.below,
    ap (λ t. has t ((p, b) ∷ r)) e,
  )

  insert_runs :
      (p : Ptr) (l₁ l₂ : LinkedList)
      → list_find a l ≡ ok (0, l)
      → new_node a l ≡ ok (p, l₁)
      → link p l₁ ≡ ok (tt, l₂)
      → list_insert a l ≡ ok (1, l₂)
  unfolding list_insert
  insert_runs p l₁ l₂ absent made linked = ground arith

  relinked_exact :
      (v p b : ℕ) (q : Ptr) (r : Nodes)
      → Holds l ((p, b) ∷ r)
      → (x : Ptr) → has x (((p, b) ∷ r) ++ (l.heap.fresh, a) ∷ []) ≡ false
      → (relinked v q).cell x ≡ none
  relinked_exact v p b q r h x out =
      update_spares (grown l.tail).cell x l.tail _ ((p, b) ∷ r)
        (not_has_left x ((p, b) ∷ r) ((l.heap.fresh, a) ∷ []) out) (last_member p b r h)
      ∙ grown_exact l.tail ((p, b) ∷ r) h.exact x out

  insert_behind :
      (p b : ℕ) (r : Nodes)
      → Holds l ((p, b) ∷ r)
      → contains a (addresses ((p, b) ∷ r)) ≡ false
      → 0 < l.heap.room
      → (l' : LinkedList) × (list_insert a l ≡ ok (1, l'))
        × Holds l' (((p, b) ∷ r) ++ (l.heap.fresh, a) ∷ [])
        × (l'.heap.room + 1 ≡ l.heap.room)
  insert_behind p b r h absent room =
      let (v, q, cell, ne) = last_cell l.heap.cell null p b r h.chain in
      let out = Below-fresh l.heap.fresh ((p, b) ∷ r) h.below in
      (
        record l { tail = l.heap.fresh; heap = relinked v q },
        insert_runs l.heap.fresh (record l { heap = grown l.tail }) _
            (list_find-Holds l a ((p, b) ∷ r) h ∙ rw absent)
            (new_node_some room (omega (arith, h.sized)))
            (link_behind v q (ground (arith, h.head_first, h.chain.0)) (rw h.tail_last ne)
              (last_ne_fresh p b r h) (rw h.tail_last cell)),
        record {
          head_first = h.head_first;
          tail_last = sym (last-snoc p l.heap.fresh a r);
          chain = relinked_chain v p b q r h cell;
          distinct = Distinct-snoc l.heap.fresh a ((p, b) ∷ r) h.distinct out;
          below = Below-snoc l.heap.fresh a ((p, b) ∷ r) h.below;
          sized = omega (arith, length-append ((p, b) ∷ r) ((l.heap.fresh, a) ∷ []), h.sized);
          exact = relinked_exact v p b q r h;
        },
        omega arith,
      )

-- Inserting an address that the list does not store succeeds if `malloc` does, and puts it last.
pub insert_absent :
    (l : LinkedList) (a : ℕ) (ns : Nodes)
    → Holds l ns
    → contains a (addresses ns) ≡ false
    → 0 < l.heap.room
    → (l' : LinkedList) × (list_insert a l ≡ ok (1, l'))
      × Holds l' (ns ++ (l.heap.fresh, a) ∷ [])
      × (l'.heap.room + 1 ≡ l.heap.room)
insert_absent l a [] h absent room = insert_empty l a h room
insert_absent l a ((p, b) ∷ r) h absent room = insert_behind l a p b r h absent room

pub insert_present :
    (l : LinkedList) (a : ℕ) (ns : Nodes)
    → Holds l ns
    → contains a (addresses ns) ≡ true
    → list_insert a l ≡ ok (0, l)
unfolding list_insert
insert_present l a ns h present = ground (arith, list_find-Holds l a ns h)

pub insert_full :
    (l : LinkedList) (a : ℕ) (ns : Nodes)
    → Holds l ns
    → contains a (addresses ns) ≡ false
    → l.heap.room ≡ 0
    → list_insert a l ≡ exits 1
unfolding list_insert new_node malloc
insert_full l a ns h absent full = ground (arith, list_find-Holds l a ns h)
