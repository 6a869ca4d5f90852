-- ===== src/LinkedList.antt =====
-- The doubly linked queue of data/list/list.c. A value of `LinkedList` is the `list_t` object and
-- the memory of the nodes that it owns. A walk along the nodes is given as many rounds as
-- addresses were handed out.
pub mod Chain
pub mod Find
pub mod Delete
pub mod Insert
pub mod Pop
pub mod Queue
use counter_rop.Common.{
  ℕ, zero, suc, ◌≡◌, Option, none, some, ◌==◌, if◌then◌else◌, Bool, true, false,
}
use counter_rop.Common.Outcome.{
  Outcome, ok, fault, exits, out_of_fuel, Cmd, pure, ◌>>=◌, ◌>>◌, get, modify, exit_with, and_then,
}
use counter_rop.Common.Heap.{Ptr, null, Heap, empty_heap, malloc, read, write}

pub record ListNode : Type 0 where
  pub address : ℕ
  pub next : Ptr
  pub prev : Ptr

abbrev pub list_node : ℕ → Ptr → Ptr → ListNode
list_node a n p = record { address = a; next = n; prev = p }

pub record LinkedList : Type 0 where
  pub head : Ptr
  pub tail : Ptr
  pub heap : Heap ListNode

-- The first argument says whether `malloc` of the `list_t` succeeded; its result is not tested.
unfoldable pub list_new : Bool → ℕ → Outcome LinkedList
list_new true room = ok (record { head = null; tail = null; heap = empty_heap room })
list_new false room = fault

unfoldable pub load : Ptr → Cmd LinkedList ListNode
unfolding read
load p l = elim (read l.heap p) [
  | ok n ↦ ok (n, l)
  | fault ↦ fault
  | exits n ↦ exits n
  | out_of_fuel ↦ out_of_fuel
]

unfoldable pub store : Ptr → Option ListNode → Cmd LinkedList (Unit {0})
store p c l = ok (tt, record l { heap = write l.heap p c })

unfoldable pub set_next : Ptr → Ptr → Cmd LinkedList (Unit {0})
unfolding load store
set_next p q = do n ← load p; store p (some (record n { next = q }))

unfoldable pub set_prev : Ptr → Ptr → Cmd LinkedList (Unit {0})
unfolding load store
set_prev p q = do n ← load p; store p (some (record n { prev = q }))

unfoldable pub free : Ptr → Cmd LinkedList (Unit {0})
unfolding load store
free p = do n ← load p; store p none

unfoldable pub find_loop : ℕ → Ptr → ℕ → Cmd LinkedList ℕ
unfolding load
find_loop zero next address = λ _. out_of_fuel
find_loop (suc k) next address =
    if next == null
    then pure 0
    else do n ← load next; if n.address == address then pure 1 else find_loop k n.next address

unfoldable pub list_find : ℕ → Cmd LinkedList ℕ
unfolding find_loop
list_find address = do l ← get; find_loop l.heap.fresh l.head address

-- `malloc`, the test of its result, and the three assignments to the new node.
unfoldable pub new_node : ℕ → Cmd LinkedList Ptr
unfolding malloc
new_node address l =
    let (p, h) = malloc (list_node address null l.tail) l.heap in
    if p == null then exits 1 else ok (p, record l { heap = h })

-- `if (list->head == NULL) …`, `if (list->tail != NULL) …`, `list->tail = newNode`.
unfoldable pub link : Ptr → Cmd LinkedList (Unit {0})
unfolding set_next
link p = do
  l ← get
  modify (λ l. record l { head = if l.head == null then p else l.head })
  if l.tail == null then pure tt else set_next l.tail p
  modify (λ l. record l { tail = p })

unfoldable pub list_insert : ℕ → Cmd LinkedList ℕ
unfolding list_find new_node link
list_insert address = do
  found ← list_find address
  if found == 0 then (do p ← new_node address; link p; pure 1) else pure 0

-- The two ways to unhook the head node, whose `next` is given.
unfoldable pub unhook : Ptr → Cmd LinkedList (Unit {0})
unfolding set_prev
unhook next = do
  l ← get
  if l.head == l.tail
      then modify (λ l. record l { head = null; tail = null })
      else (do modify (λ l. record l { head = next }); set_prev next null)

unfoldable pub list_pop : Cmd LinkedList ℕ
unfolding load unhook free
list_pop = do
  l ← get
  if l.head == null then pure 0 else do n ← load l.head; unhook n.next; free l.head; pure n.address

unfoldable pub delete_loop : ℕ → Cmd LinkedList (Unit {0})
unfolding load free
delete_loop zero = λ _. out_of_fuel
delete_loop (suc k) = do
  l ← get
  if l.tail == null
      then pure tt
      else do n ← load l.tail; modify (λ l. record l { tail = n.prev }); free l.tail; delete_loop k

-- What is left is the memory of the nodes: the `list_t` is freed.
unfoldable pub list_delete : Option LinkedList → Outcome (ℕ × Option (Heap ListNode))
unfolding delete_loop
list_delete none = ok (0, none)
list_delete (some l) = elim (delete_loop l.heap.fresh l) [
  | ok (_, l') ↦ ok (1, some l'.heap)
  | fault ↦ fault
  | exits n ↦ exits n
  | out_of_fuel ↦ out_of_fuel
]
