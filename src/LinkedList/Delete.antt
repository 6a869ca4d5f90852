-- ===== src/LinkedList/Delete.antt =====
-- `list_delete` on a well-formed list: the walk from the tail frees every node.
use counter_rop.Common.{
  ℕ, zero, suc, ◌+◌, ◌<◌, ◌≡◌, ◌≢◌, refl, false, ◌||◌, some, none, Option, [], ◌∷◌, arith, length,
  ◌∙◌, sym,
}
use mathlib.Core.List.{reverse_aux}
use counter_rop.Common.Outcome.{ok}
use counter_rop.Common.Heap.{null, update, Ptr, Heap, write}
use counter_rop.LinkedList.{
  LinkedList, ListNode, list_delete, delete_loop, list_node, load, store, free,
}
use counter_rop.LinkedList.Chain.{Cells, Nodes, Chain, Holds, first, last, has, Distinct}

-- The nodes as the walk meets them: each `prev` leads to the next of the list.
abbrev Back : Cells → Nodes → Type 0
Back c [] = Unit {0}
Back c ((p, a) ∷ r) = (p ≢ null) × ((n : ListNode) × (c p ≡ some n) × (n.prev ≡ first r)) × Back c r

Back-frame :
    (c : Cells) (p : Ptr) (v : Option ListNode) (ns : Nodes)
    → Back c ns
    → has p ns ≡ false
    → Back (update c p v) ns
Back-frame c p v [] b out = tt
Back-frame c p v ((q, a) ∷ r) b out =
    (b.0, (b.1.0, ground arith, b.1.2), Back-frame c p v r b.2 (ground arith))

Back-reverse :
    (c : Cells) (ns acc : Nodes) → Chain c (first acc) ns → Back c acc → Back c (reverse_aux ns acc)
Back-reverse c [] acc h b = b
Back-reverse c ((p, a) ∷ r) acc h b =
    Back-reverse c r ((p, a) ∷ acc) h.2 (h.0, (list_node a (first r) (first acc), h.1, refl), b)

first-reverse : (ns acc : Nodes) → first (reverse_aux ns acc) ≡ last (first acc) ns
first-reverse [] acc = refl
first-reverse ((p, a) ∷ r) acc = first-reverse r ((p, a) ∷ acc)

has-reverse : (p : Ptr) (ns acc : Nodes) → has p (reverse_aux ns acc) ≡ (has p ns || has p acc)
has-reverse p [] acc = refl
has-reverse p ((q, a) ∷ r) acc = ground (arith, has-reverse p r ((q, a) ∷ acc))

length-reverse : (ns acc : Nodes) → length (reverse_aux ns acc) ≡ length ns + length acc
length-reverse [] acc = omega arith
length-reverse (n ∷ r) acc = omega (arith, length-reverse r (n ∷ acc))

-- No node of the one is a node of the other.
abbrev Apart : Nodes → Nodes → Type 0
Apart [] ms = Unit {0}
Apart ((p, _) ∷ r) ms = (has p ms ≡ false) × Apart r ms

Apart-cons : (p a : ℕ) (ns ms : Nodes) → Apart ns ms → has p ns ≡ false → Apart ns ((p, a) ∷ ms)
Apart-cons p a [] ms h out = tt
Apart-cons p a ((q, b) ∷ r) ms h out = (ground arith, Apart-cons p a r ms h.1 (ground arith))

Distinct-reverse :
    (ns acc : Nodes) → Distinct ns → Distinct acc → Apart ns acc → Distinct (reverse_aux ns acc)
Distinct-reverse [] acc d e apart = e
Distinct-reverse ((p, a) ∷ r) acc d e apart =
    Distinct-reverse r ((p, a) ∷ acc) d.1 (apart.0, e) (Apart-cons p a r acc apart.1 d.0)

Apart-nil : (ns : Nodes) → Apart ns []
Apart-nil [] = tt
Apart-nil (n ∷ r) = (refl, Apart-nil r)

-- One round of the loop, at a tail that is not null.
delete_round :
    (k : ℕ) (l : LinkedList) (n : ListNode)
    → l.tail ≢ null
    → l.heap.cell l.tail ≡ some n
    → delete_loop (suc k) l
      ≡ delete_loop k (record l { tail = n.prev; heap = write l.heap l.tail none })
unfolding delete_loop load store free
delete_round k l n ne cell = ground arith

delete_loop-clear :
    (k : ℕ) (l : LinkedList) (ns : Nodes)
    → Back l.heap.cell ns
    → Distinct ns
    → l.tail ≡ first ns
    → length ns < k
    → ((p : Ptr) → has p ns ≡ false → l.heap.cell p ≡ none)
    → (l' : LinkedList) × (delete_loop k l ≡ ok (tt, l')) × ((p : Ptr) → l'.heap.cell p ≡ none)
delete_loop-clear zero l ns b d t fuel exact = absurd (omega arith)
delete_loop-clear (suc k) l [] b d t fuel exact =
    (l, unfold delete_loop in ground arith, λ p. exact p refl)
delete_loop-clear (suc k) l ((p, a) ∷ r) b d t fuel exact =
    let n : ListNode = b.1.0 in
    let l₁ : LinkedList = record l { tail = n.prev; heap = write l.heap l.tail none } in
    let (l', run, gone) =
      delete_loop-clear k l₁ r (rw t (Back-frame l.heap.cell p none r b.2 d.0)) d.1 b.1.2
        (omega arith) (λ x out. ground (arith, exact x)) in
    (l', delete_round k l n (rw t b.0) (rw t b.1.1) ∙ run, gone)

list_delete_runs :
    (l l' : LinkedList)
    → delete_loop l.heap.fresh l ≡ ok (tt, l')
    → list_delete (some l) ≡ ok (1, some l'.heap)
unfolding list_delete
list_delete_runs l l' run = ground arith

pub list_delete_frees :
    (l : LinkedList) (ns : Nodes)
    → Holds l ns
    → (h : Heap ListNode) × (list_delete (some l) ≡ ok (1, some h)) × ((p : Ptr) → h.cell p ≡ none)
list_delete_frees l ns h =
    let (l', run, gone) =
      delete_loop-clear l.heap.fresh l (reverse_aux ns [])
        (Back-reverse l.heap.cell ns [] h.chain tt)
        (Distinct-reverse ns [] h.distinct tt (Apart-nil ns))
        (h.tail_last ∙ sym (first-reverse ns [])) (omega (arith, length-reverse ns [], h.sized))
        (λ p out. h.exact p (ground (arith, has-reverse p ns []))) in
    (l'.heap, list_delete_runs l l' run, gone)
