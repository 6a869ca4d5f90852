-- ===== src/LinkedList/Pop.antt =====
-- `list_pop` on a well-formed list.
use counter_rop.Common.{
  ℕ, ◌≡◌, ◌≢◌, refl, false, some, none, [], ◌∷◌, arith, ◌∙◌, sym, subst, true≢false,
}
use counter_rop.Common.Outcome.{ok}
use counter_rop.Common.Heap.{null, Ptr, Heap, write}
use counter_rop.LinkedList.{
  LinkedList, ListNode, list_pop, list_node, load, store, unhook, set_prev, free,
}
use counter_rop.LinkedList.Find.{load_chain}
use counter_rop.LinkedList.Chain.{
  Nodes, Holds, first, last, has, Chain-frame, has-last, update_spares, has-first,
}

pub pop_empty : (l : LinkedList) → Holds l [] → list_pop l ≡ ok (0, l)
unfolding list_pop
pop_empty l h = ground (arith, h.head_first)

module _ (l : LinkedList) (p a : ℕ) where
  pub pop_single :
      Holds l ((p, a) ∷ [])
      → (l' : LinkedList) × (list_pop l ≡ ok (a, l'))
        × Holds l' []
        × (l'.heap.fresh ≡ l.heap.fresh)
        × (l'.heap.room ≡ l.heap.room)
        × (l'.heap.cell p ≡ none)
  unfolding list_pop unhook free store
  pop_single h = (
    record { head = null; tail = null; heap = write l.heap p none },
    ground (arith, load_chain l null p a [] h.chain, h.chain),
    record {
      head_first = refl;
      tail_last = refl;
      chain = tt;
      distinct = tt;
      below = tt;
      sized = omega (arith, h.sized);
      exact = λ x out. ground (arith, h.exact x);
    },
    refl,
    refl,
    ground arith,
  )

  pop_runs :
      (n : ListNode) (l₁ l₂ : LinkedList)
      → l.head ≡ p
      → p ≢ null
      → load p l ≡ ok (n, l)
      → unhook n.next l ≡ ok (tt, l₁)
      → free p l₁ ≡ ok (tt, l₂)
      → list_pop l ≡ ok (n.address, l₂)
  unfolding list_pop
  pop_runs n l₁ l₂ head ne loaded unhooked freed = ground arith

  unhook_front :
      (q b : ℕ) (next : Ptr)
      → l.head ≢ l.tail
      → q ≢ null
      → l.heap.cell q ≡ some (list_node b next p)
      → unhook q l
        ≡ ok (tt, record l { head = q; heap = write l.heap q (some (list_node b next null)) })
  unfolding unhook set_prev load store
  unhook_front q b next apart ne cell = ground arith

  free_cell :
      (m : LinkedList) (n : ListNode)
      → p ≢ null
      → m.heap.cell p ≡ some n
      → free p m ≡ ok (tt, record m { heap = write m.heap p none })
  unfolding free load store
  free_cell m n ne cell = ground arith

  head_ne_tail : (q b : ℕ) (r : Nodes) → Holds l ((p, a) ∷ (q, b) ∷ r) → l.head ≢ l.tail
  head_ne_tail q b r h e =
      let same : p ≡ last q r = sym h.head_first ∙ e ∙ h.tail_last in
      let out : has (last q r) ((q, b) ∷ r) ≡ false =
        subst (λ x. has x ((q, b) ∷ r) ≡ false) same h.distinct.0 in
      absurd (true≢false (sym (has-last null q b r) ∙ out))

  module _ (q b : ℕ) (r : Nodes) where
    -- The heap after the second node has lost its `prev` and the first was freed.
    abbrev popped : Heap ListNode
    popped = write (write l.heap q (some (list_node b (first r) null))) p none

    pub pop_front :
        Holds l ((p, a) ∷ (q, b) ∷ r)
        → (l' : LinkedList) × (list_pop l ≡ ok (a, l'))
          × Holds l' ((q, b) ∷ r)
          × (l'.heap.fresh ≡ l.heap.fresh)
          × (l'.heap.room ≡ l.heap.room)
          × (l'.heap.cell p ≡ none)
    pop_front h = (
      record { head = q; tail = l.tail; heap = popped },
      pop_runs (list_node a q null) _ _ h.head_first h.chain.0
          (load_chain l null p a ((q, b) ∷ r) h.chain)
          (unhook_front q b (first r) (head_ne_tail q b r h) h.chain.2.0 h.chain.2.1)
          (free_cell _ (list_node a q null) h.chain.0 (
            update_spares l.heap.cell p q _ ((q, b) ∷ r) h.distinct.0 (has-first q b r)
            ∙ h.chain.1)),
      record {
        head_first = refl;
        tail_last = h.tail_last;
        chain = (
          h.chain.2.0,
          ground arith,
          Chain-frame _ p none q r (Chain-frame l.heap.cell q _ q r h.chain.2.2 h.distinct.1.0)
              (ground arith),
        );
        distinct = h.distinct.1;
        below = h.below.1;
        sized = omega (arith, h.sized);
        exact = λ x out. ground (arith, h.exact x);
      },
      refl,
      refl,
      ground arith,
    )
