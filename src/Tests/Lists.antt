-- ===== src/Tests/Lists.antt =====
-- data/list/list.c at a list of the addresses 5 and 9.
use counter_rop.Common.{ℕ, ◌≡◌, ◌≤◌, ◌+◌, refl, true, Option, none, some, List, [], ◌∷◌, arith}
use counter_rop.Common.Outcome.{ok, exits}
use counter_rop.Common.Heap.{Heap, Ptr, update}
use counter_rop.LinkedList.{
  LinkedList, ListNode, list_node, list_new, list_insert, list_pop, list_delete,
}
use counter_rop.LinkedList.Chain.{Stores}
use counter_rop.LinkedList.Queue.{
  list_insert-enqueue, list_insert_full, list_pop-dequeue, list_delete_all, calls-answers, calls,
  answers, answer, effect, ListCall, inserts, finds, pops,
}

abbrev two_cells : Ptr → Option ListNode
two_cells = update (update (λ _. none) 1 (some (list_node 5 2 0))) 2 (some (list_node 9 0 1))

abbrev two_list : ℕ → LinkedList
two_list room = record {
  head = 1;
  tail = 2;
  heap = record { cell = two_cells; fresh = 3; room = room };
}

two_list-Stores : (room : ℕ) → Stores (two_list room) (5 ∷ 9 ∷ [])
two_list-Stores room = (
  (1, 5) ∷ (2, 9) ∷ [],
  record {
    head_first = refl;
    tail_last = refl;
    chain = (omega arith, refl, (omega arith, refl, tt));
    distinct = (refl, (refl, tt));
    below = omega arith;
    sized = omega arith;
    exact = λ p out. ground arith;
  },
  refl,
)

list_insert-enqueue_example :
    (l' : LinkedList) × (list_insert 7 (two_list 4) ≡ ok (1, l'))
    × Stores l' (5 ∷ 9 ∷ 7 ∷ [])
    × (4 ≤ l'.heap.room + 1)
list_insert-enqueue_example =
    list_insert-enqueue (two_list 4) 7 (5 ∷ 9 ∷ []) (two_list-Stores 4) (omega arith)

list_insert_full_example : list_insert 7 (two_list 0) ≡ exits 1
list_insert_full_example = list_insert_full (two_list 0) 7 (5 ∷ 9 ∷ []) (two_list-Stores 0) refl

list_pop-dequeue_example :
    (l' : LinkedList) × (list_pop (two_list 4) ≡ ok (5, l'))
    × Stores l' (9 ∷ [])
    × (◌≡◌ {A = ℕ} 4 l'.heap.room)
list_pop-dequeue_example = list_pop-dequeue (two_list 4) (5 ∷ 9 ∷ []) (two_list-Stores 4)

list_delete_all_example :
    (h : Heap ListNode) × (list_delete (some (two_list 4)) ≡ ok (1, some h))
    × ((p : Ptr) → h.cell p ≡ none)
list_delete_all_example = list_delete_all (two_list 4) (5 ∷ 9 ∷ []) (two_list-Stores 4)

-- The calls of data/list/test_list.c, and a second insertion of the same address.
abbrev test_calls : List ListCall
test_calls =
    inserts 0xffff_ffff_ffff_1234
    ∷ inserts 0xffff_ffff_ffff_5678
    ∷ inserts 0xffff_ffff_ffff_1234
    ∷ finds 0xffff_ffff_ffff_5678
    ∷ pops
    ∷ pops
    ∷ pops
    ∷ []

calls-answers_example :
    (l : LinkedList) × (l' : LinkedList) × (list_new true 7 ≡ ok l)
    × (calls test_calls l
        ≡ ok (1 ∷ 1 ∷ 0 ∷ 1 ∷ 0xffff_ffff_ffff_1234 ∷ 0xffff_ffff_ffff_5678 ∷ 0 ∷ [], l'))
unfolding answers answer effect
calls-answers_example = calls-answers test_calls 7 (omega arith)
