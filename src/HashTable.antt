-- ===== src/HashTable.antt =====
-- The chained hash table of data/hashtable/hashtable.c. A value of `HashTable` is the `hashtable_t`
-- object, the array of slots and the memory of the entries. The hash of a key is taken over the bytes
-- of the key and, up to a zero byte, of the memory behind it, which a call is given as `beyond`. A walk
-- along a chain is given as many rounds as addresses were handed out.
pub mod Chains
pub mod Delete
pub mod Lookup
pub mod Map
pub mod Push
use counter_rop.Common.{
  ℕ, zero, suc, ◌≡◌, Option, none, some, ◌==◌, if◌then◌else◌, Bool, true, false, List, [], ◌∷◌,
  ◌++◌, get_elem?, set,
}
use counter_rop.Common.Outcome.{
  Outcome, ok, fault, exits, out_of_fuel, Cmd, pure, ◌>>=◌, ◌>>◌, get, modify,
}
use counter_rop.Common.Heap.{Ptr, null, Heap, empty_heap, malloc, read, write}
use counter_rop.Jhash.{jenkins_hash, bytes}

-- `value` is the field `data`.
pub record HashEntry : Type 0 where
  pub key : ℕ
  pub value : ℕ
  pub next : Ptr

abbrev pub hash_entry : ℕ → ℕ → Ptr → HashEntry
hash_entry k v n = record { key = k; value = v; next = n }

pub record HashTable : Type 0 where
  pub table_addr : List Ptr
  pub size : ℕ
  pub heap : Heap HashEntry

abbrev pub replicate : ℕ → Ptr → List Ptr
replicate zero p = []
replicate (suc n) p = p ∷ replicate n p

-- The two flags say whether the two calls of `malloc` succeed.
unfoldable pub hashtable_new : (array_made table_made : Bool) → ℕ → ℕ → Outcome HashTable
hashtable_new false table_made num_slots room = exits 1
hashtable_new true false num_slots room = exits 1
hashtable_new true true num_slots room =
    ok (record { table_addr = replicate num_slots null; size = num_slots; heap = empty_heap room })

unfoldable pub load : Ptr → Cmd HashTable HashEntry
unfolding read
load p t = elim (read t.heap p) [
  | ok e ↦ ok (e, t)
  | fault ↦ fault
  | exits n ↦ exits n
  | out_of_fuel ↦ out_of_fuel
]

unfoldable pub free : Ptr → Cmd HashTable (Unit {0})
free p = do e ← load p; modify (λ t. record t { heap = write t.heap p none })

-- `JenkinsHash((char*)key, ht->size)`, a division by zero in a table without slots.
unfoldable pub slot_index : ℕ → List ℕ → Cmd HashTable ℕ
slot_index key beyond t =
    if t.size == 0 then fault else ok (jenkins_hash (some (bytes 8 key ++ beyond)) t.size, t)

-- `ht->tableAddr[value]`.
unfoldable pub slot : ℕ → Cmd HashTable Ptr
slot i t = elim (get_elem? t.table_addr i) [ none ↦ fault | some p ↦ ok (p, t) ]

unfoldable pub find_loop : ℕ → Ptr → ℕ → Cmd HashTable ℕ
find_loop zero current key = λ _. out_of_fuel
find_loop (suc k) current key =
    if current == null
    then pure 0
    else do e ← load current; if e.key == key then pure e.value else find_loop k e.next key

unfoldable pub hashtable_find : ℕ → List ℕ → Cmd HashTable ℕ
hashtable_find key beyond = do
  i ← slot_index key beyond
  p ← slot i
  if p == null then pure 0 else (do t ← get; find_loop t.heap.fresh p key)

-- The loop of `hashtable_insert`: whether the chain has the key.
unfoldable pub key_loop : ℕ → Ptr → ℕ → Cmd HashTable Bool
key_loop zero current key = λ _. out_of_fuel
key_loop (suc k) current key =
    if current == null
    then pure false
    else do e ← load current; if e.key == key then pure true else key_loop k e.next key

-- `malloc`, the test of its result, and the three assignments to the entry.
unfoldable pub new_entry : ℕ → ℕ → Ptr → Cmd HashTable Ptr
unfolding malloc
new_entry key value next t =
    let (p, h) = malloc (hash_entry key value next) t.heap in
    if p == null then exits 1 else ok (p, record t { heap = h })

unfoldable pub hashtable_insert : ℕ → List ℕ → ℕ → Cmd HashTable Bool
hashtable_insert key beyond value = do
  i ← slot_index key beyond
  first ← slot i
  t ← get
  present ← if first == null then pure false else key_loop t.heap.fresh first key
  if present then pure false else do
    entry ← new_entry key value first
    modify (λ t. record t { table_addr = set t.table_addr i entry })
    pure true

-- The inner loop of `hashtable_delete`, at an entry that is there.
unfoldable pub delete_chain : ℕ → Ptr → Ptr → Cmd HashTable (Unit {0})
delete_chain zero current next = λ _. out_of_fuel
delete_chain (suc k) current next =
    if next == null
    then free current
    else do free current; e ← load next; delete_chain k next e.next

unfoldable pub delete_slots : List Ptr → Cmd HashTable (Unit {0})
delete_slots [] = pure tt
delete_slots (current ∷ slots) =
    if current == null
    then delete_slots slots
    else do e ← load current; t ← get; delete_chain t.heap.fresh current e.next; delete_slots slots

-- What is left is the memory of the entries: the array and the `hashtable_t` are freed.
unfoldable pub hashtable_delete : Option HashTable → Outcome (Bool × Option (Heap HashEntry))
hashtable_delete none = ok (false, none)
hashtable_delete (some t) = elim (delete_slots t.table_addr t) [
  | ok (_, t') ↦ ok (true, some t'.heap)
  | fault ↦ fault
  | exits n ↦ exits n
  | out_of_fuel ↦ out_of_fuel
]
