-- ===== src/LinkedList/Queue.antt =====
-- data/list/list.c against a queue of distinct addresses, for each function and for any sequence of
-- calls.
use counter_rop.Common.{
  ℕ, suc, ◌+◌, ◌<◌, ◌≤◌, ◌≡◌, refl, true, some, none, List, [], ◌∷◌, ◌++◌, arith, length,
  if◌then◌else◌, ◌∙◌, ap, inl, inr, Bool-cases, sym, subst, ◌||◌, ◌==◌, ==→eq,
}
use mathlib.Core.List.{map-append}
use counter_rop.Common.Outcome.{ok, exits, Cmd, pure, ◌>>=◌}
use counter_rop.Common.Heap.{Ptr, Heap}
use counter_rop.LinkedList.{
  LinkedList, ListNode, list_new, list_find, list_insert, list_pop, list_delete,
}
use counter_rop.LinkedList.Chain.{Nodes, Holds, Stores, addresses, contains}
use counter_rop.LinkedList.Find.{list_find-Holds}
use counter_rop.LinkedList.Insert.{insert_absent, insert_present, insert_full}
use counter_rop.LinkedList.Pop.{pop_empty, pop_single, pop_front}
use counter_rop.LinkedList.Delete.{list_delete_frees}

-- The queue that the list implements, and what the calls return.
abbrev pub enqueue : ℕ → List ℕ → List ℕ
enqueue a xs = if contains a xs then xs else xs ++ a ∷ []

abbrev pub front : List ℕ → ℕ
front [] = 0
front (x ∷ xs) = x

abbrev pub dequeue : List ℕ → List ℕ
dequeue [] = []
dequeue (x ∷ xs) = xs

pub list_new-Stores :
    (room : ℕ) → (l : LinkedList) × (list_new true room ≡ ok l) × Stores l [] × (l.heap.room ≡ room)
unfolding list_new
list_new-Stores room = (
  _,
  refl,
  (
    [],
    record {
      head_first = refl;
      tail_last = refl;
      chain = tt;
      distinct = tt;
      below = tt;
      sized = omega arith;
      exact = λ p out. refl;
    },
    refl,
  ),
  refl,
)

-- In a list that stores `xs`, `list_find` tells whether the address is in `xs`, and changes nothing.
pub list_find-contains :
    (l : LinkedList) (a : ℕ) (xs : List ℕ)
    → Stores l xs
    → list_find a l ≡ ok ((if contains a xs then 1 else 0), l)
list_find-contains l a xs (ns, h, e) =
    list_find-Holds l a ns h ∙ ap (λ ys. ok ((if contains a ys then 1 else 0), l)) e

Stores-snoc :
    (l l' : LinkedList) (p : Ptr) (a : ℕ) (ns : Nodes) (xs : List ℕ)
    → Holds l' (ns ++ (p, a) ∷ [])
    → addresses ns ≡ xs
    → Stores l' (xs ++ a ∷ [])
Stores-snoc l l' p a ns xs h e =
    (ns ++ (p, a) ∷ [], h, map-append (λ n. n.1) ns ((p, a) ∷ []) ∙ ap (λ ys. ys ++ a ∷ []) e)

-- In a well-formed list with memory left, `list_insert` enqueues an address that is not stored yet and
-- returns 1; it returns 0 and does not change the stored addresses if the address is stored.
pub list_insert-enqueue :
    (l : LinkedList) (a : ℕ) (xs : List ℕ)
    → Stores l xs
    → 0 < l.heap.room
    → (l' : LinkedList) × (list_insert a l ≡ ok ((if contains a xs then 0 else 1), l'))
      × Stores l' (enqueue a xs)
      × (l.heap.room ≤ l'.heap.room + 1)
list_insert-enqueue l a xs (ns, h, e) room = elim (Bool-cases (contains a xs)) [
  | inl stored ↦
      rw stored (l, insert_present l a ns h (ap (contains a) e ∙ stored), (ns, h, e), omega arith)
  | inr absent ↦
      let (l', run, h', left) = insert_absent l a ns h (ap (contains a) e ∙ absent) room in
      rw absent (l', run, Stores-snoc l l' l.heap.fresh a ns xs h' e, omega arith)
]

-- In a well-formed list without memory left, `list_insert` ends the process with status 1, unless the
-- address is stored.
pub list_insert_full :
    (l : LinkedList) (a : ℕ) (xs : List ℕ)
    → Stores l xs
    → l.heap.room ≡ 0
    → list_insert a l ≡ (if contains a xs then ok (0, l) else exits 1)
list_insert_full l a xs (ns, h, e) full = elim (Bool-cases (contains a xs)) [
  | inl stored ↦ rw stored (insert_present l a ns h (ap (contains a) e ∙ stored))
  | inr absent ↦ rw absent (insert_full l a ns h (ap (contains a) e ∙ absent) full)
]

pop_nodes :
    (l : LinkedList) (ns : Nodes)
    → Holds l ns
    → (l' : LinkedList) × (list_pop l ≡ ok (front (addresses ns), l'))
      × Stores l' (dequeue (addresses ns))
      × (l.heap.room ≡ l'.heap.room)
pop_nodes l [] h = (l, pop_empty l h, ([], h, refl), refl)
pop_nodes l ((p, a) ∷ []) h =
    let (l', run, h', _, room, _) = pop_single l p a h in (l', run, ([], h', refl), sym room)
pop_nodes l ((p, a) ∷ (q, b) ∷ r) h =
    let (l', run, h', _, room, _) = pop_front l p a q b r h in
    (l', run, ((q, b) ∷ r, h', refl), sym room)

-- `list_pop` of a well-formed list returns the oldest address and takes it out of the list; it returns
-- 0 and changes no stored address if the list is empty.
pub list_pop-dequeue :
    (l : LinkedList) (xs : List ℕ)
    → Stores l xs
    → (l' : LinkedList) × (list_pop l ≡ ok (front xs, l'))
      × Stores l' (dequeue xs)
      × (l.heap.room ≡ l'.heap.room)
list_pop-dequeue l xs (ns, h, e) =
    subst
      (λ ys.
        (l' : LinkedList) × (list_pop l ≡ ok (front ys, l'))
        × Stores l' (dequeue ys)
        × (l.heap.room ≡ l'.heap.room))
      e (pop_nodes l ns h)

-- `list_delete` of a well-formed list returns 1 and frees every node that the list owns.
pub list_delete_all :
    (l : LinkedList) (xs : List ℕ)
    → Stores l xs
    → (h : Heap ListNode) × (list_delete (some l) ≡ ok (1, some h)) × ((p : Ptr) → h.cell p ≡ none)
list_delete_all l xs (ns, h, e) = list_delete_frees l ns h

pub data ListCall : Type 0 where
  finds inserts : ℕ → ListCall
  pops : ListCall

unfoldable pub call : ListCall → Cmd LinkedList ℕ
call (finds a) = list_find a
call (inserts a) = list_insert a
call pops = list_pop

unfoldable pub answer : ListCall → List ℕ → ℕ
answer (finds a) xs = if contains a xs then 1 else 0
answer (inserts a) xs = if contains a xs then 0 else 1
answer pops xs = front xs

unfoldable pub effect : ListCall → List ℕ → List ℕ
effect (finds a) xs = xs
effect (inserts a) xs = enqueue a xs
effect pops xs = dequeue xs

unfoldable pub calls : List ListCall → Cmd LinkedList (List ℕ)
calls [] = pure []
calls (c ∷ cs) = do r ← call c; rs ← calls cs; pure (r ∷ rs)

unfoldable pub answers : List ListCall → List ℕ → List ℕ
answers [] xs = []
answers (c ∷ cs) xs = answer c xs ∷ answers cs (effect c xs)

call-answer :
    (c : ListCall) (l : LinkedList) (xs : List ℕ)
    → Stores l xs
    → 0 < l.heap.room
    → (l' : LinkedList) × (call c l ≡ ok (answer c xs, l'))
      × Stores l' (effect c xs)
      × (l.heap.room ≤ l'.heap.room + 1)
unfolding call answer effect
call-answer (finds a) l xs s room = (l, list_find-contains l a xs s, s, omega arith)
call-answer (inserts a) l xs s room = list_insert-enqueue l a xs s room
call-answer pops l xs s room =
    let (l', run, s', left) = list_pop-dequeue l xs s in (l', run, s', omega arith)

calls_from :
    (cs : List ListCall) (l : LinkedList) (xs : List ℕ)
    → Stores l xs
    → length cs ≤ l.heap.room
    → (l' : LinkedList) × (calls cs l ≡ ok (answers cs xs, l'))
unfolding calls answers
calls_from [] l xs s room = (l, refl)
calls_from (c ∷ cs) l xs s room =
    let (l₁, run, s₁, left) = call-answer c l xs s (omega arith) in
    let (l₂, rest) = calls_from cs l₁ (effect c xs) s₁ (omega arith) in
    (l₂, ground (arith, run, rest))

-- Any sequence of calls on a new list, with memory for as many nodes, returns what the queue answers.
pub calls-answers :
    (cs : List ListCall) (room : ℕ)
    → length cs ≤ room
    → (l : LinkedList) × (l' : LinkedList) × (list_new true room ≡ ok l)
      × (calls cs l ≡ ok (answers cs [], l'))
calls-answers cs room enough =
    let (l, made, s, r) = list_new-Stores room in
    let (l', run) = calls_from cs l [] s (omega arith) in (l, l', made, run)

-- Facts on the queue that clients use.
pub contains-append :
    (a b : ℕ) (xs : List ℕ) → contains a (xs ++ b ∷ []) ≡ (contains a xs || (b == a))
contains-append a b [] = ground arith
contains-append a b (x ∷ xs) = ground (arith, contains-append a b xs)

pub contains-enqueue :
    (a b : ℕ) (xs : List ℕ) → contains a (enqueue b xs) ≡ ((b == a) || contains a xs)
contains-enqueue a b xs = elim (Bool-cases (contains b xs)) [
  | inl stored ↦ rw stored (elim (Bool-cases (b == a)) [
    | inl same ↦ rw same (ap (λ x. contains x xs) (sym (==→eq b a same)) ∙ stored)
    | inr other ↦ rw other
  ])
  | inr absent ↦ rw absent (ground (arith, contains-append a b xs))
]

length-addresses : (ns : Nodes) → length (addresses ns) ≡ length ns
length-addresses [] = refl
length-addresses (n ∷ ns) = ap suc (length-addresses ns)

-- The rounds that a walk along the list is given are enough for the list.
pub Stores-fresh : (l : LinkedList) (xs : List ℕ) → Stores l xs → length xs < l.heap.fresh
Stores-fresh l xs (ns, h, e) = omega (arith, ap length e, length-addresses ns, h.sized)
