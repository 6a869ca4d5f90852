-- ===== src/HashTable/Lookup.antt =====
-- `hashtable_find` and `hashtable_insert` on a well-formed table, chain by chain.
use counter_rop.Common.{
  is_some, ℕ, zero, suc, ◌+◌, ◌-◌, ◌<◌, ◌≡◌, ◌^◌, refl, true, false, Option, none, some, List, [],
  ◌∷◌, ◌∙◌, arith, ◌==◌, if◌then◌else◌, length, set, ap, sym, subst, or_false, ==→ne, ne→==, inl,
  inr, Bool-cases,
}
use counter_rop.Common.Outcome.{ok, exits}
use counter_rop.Common.Heap.{Ptr, null, update, update_self, update_other}
use counter_rop.Jhash.{jenkins_hash, bytes, jenkins_hash-lt, jenkins_hash-bytes}
use counter_rop.HashTable.{
  hash_entry, HashTable, load, slot_index, slot, find_loop, key_loop, hashtable_find,
  hashtable_insert, new_entry,
}
use counter_rop.HashTable.Chains.{
  Entries, Cells, first, has_any, lookup, Chain, IsTable, chain_at, Slots-frame, AllBelow-fresh,
}
use counter_rop.HashTable.Push.{
  push_at, chain_at-push_at, slot_chain, length-chain_at, length-push_at, Slots-push_at,
  has_any-push_at, Apart-push_at, AllBelow-push_at, total-push_at,
}

-- What `hashtable_find` returns where nothing is found.
abbrev pub value_or_zero : Option ℕ → ℕ
value_or_zero none = 0
value_or_zero (some v) = v

-- The slot of a key, and the value that the table holds for it.
unfoldable pub index : HashTable → ℕ → ℕ
index t key = jenkins_hash (some (bytes 7 key)) t.size

abbrev pub view : HashTable → List Entries → ℕ → Option ℕ
view t ess key = lookup key (chain_at (index t key) ess)

load_entry :
    (t : HashTable) (p k v : ℕ) (es : Entries)
    → Chain t.heap.cell ((p, k, v) ∷ es)
    → load p t ≡ ok (hash_entry k v (first es), t)
unfolding load
load_entry t p k v es h = ground arith

find_loop-lookup :
    (n : ℕ) (t : HashTable) (es : Entries) (key : ℕ)
    → Chain t.heap.cell es
    → length es < n
    → find_loop n (first es) key t ≡ ok (value_or_zero (lookup key es), t)
unfolding find_loop
find_loop-lookup zero t es key h fuel = absurd (omega arith)
find_loop-lookup (suc n) t [] key h fuel = refl
find_loop-lookup (suc n) t ((p, k, v) ∷ es) key h fuel =
    ground (arith, load_entry t p k v es h, find_loop-lookup n t es key h.2)

key_loop-lookup :
    (n : ℕ) (t : HashTable) (es : Entries) (key : ℕ)
    → Chain t.heap.cell es
    → length es < n
    → key_loop n (first es) key t ≡ ok (is_some (lookup key es), t)
unfolding key_loop
key_loop-lookup zero t es key h fuel = absurd (omega arith)
key_loop-lookup (suc n) t [] key h fuel = refl
key_loop-lookup (suc n) t ((p, k, v) ∷ es) key h fuel =
    ground (arith, load_entry t p k v es h, key_loop-lookup n t es key h.2)

lookup-push_at :
    (i j n key value k : ℕ) (ess : List Entries)
    → i < length ess
    → (key ≡ k → i ≡ j)
    → lookup k (chain_at j (push_at i (n, key, value) ess))
      ≡ (if key == k then some value else lookup k (chain_at j ess))
lookup-push_at i j n key value k ess lt same =
    rw (chain_at-push_at i j (n, key, value) ess lt) (elim (Bool-cases (j == i)) [
      | inl hit ↦
          let e : j ≡ i = ground arith in
          rw hit (ap (λ x. if key == k then some value else lookup k (chain_at x ess)) (sym e))
      | inr miss ↦
          let ne : (key == k) ≡ false = ne→== key k (λ e. ==→ne j i miss (sym (same e))) in
          rw (miss, ne)
    ])

-- A null slot is the empty chain.
lookup-null :
    (c : Cells) (es : Entries) (key : ℕ) → Chain c es → first es ≡ null → lookup key es ≡ none
lookup-null c [] key h e = refl
lookup-null c ((p, k, v) ∷ es) key h e = absurd (h.0 e)

module _ (t : HashTable) (ess : List Entries) (key : ℕ) (beyond : List ℕ) (h : IsTable t ess)
    (small : key < 2 ^ 56) where
  pub index-lt : index t key < length ess
  unfolding index
  index-lt =
      subst (λ n. jenkins_hash (some (bytes 7 key)) t.size < n) h.sized
        (jenkins_hash-lt (some (bytes 7 key)) t.size h.some_slot)

  slot_index_runs : slot_index key beyond t ≡ ok (index t key, t)
  unfolding slot_index index
  slot_index_runs = ground (arith, h.some_slot, jenkins_hash-bytes key beyond t.size small)

  abbrev chain : Entries
  chain = chain_at (index t key) ess

  chain_Chain : Chain t.heap.cell chain
  chain_Chain = (slot_chain t.heap.cell (index t key) t.table_addr ess h.slots index-lt).1

  slot_runs : slot (index t key) t ≡ ok (first chain, t)
  unfolding slot
  slot_runs =
      ground (arith, (slot_chain t.heap.cell (index t key) t.table_addr ess h.slots index-lt).0)

  chain_short : length chain < t.heap.fresh
  chain_short = omega (arith, length-chain_at (index t key) ess, h.enough)

  pub find_runs : hashtable_find key beyond t ≡ ok (value_or_zero (view t ess key), t)
  unfolding hashtable_find
  find_runs = ground (
    arith,
    slot_index_runs,
    slot_runs,
    lookup-null t.heap.cell chain key chain_Chain,
    find_loop-lookup t.heap.fresh t chain key chain_Chain chain_short,
  )

  -- `hashtable_insert` at a key that the table holds.
  pub insert_present :
      is_some (view t ess key) ≡ true
      → (value : ℕ) → hashtable_insert key beyond value t ≡ ok (false, t)
  unfolding hashtable_insert
  insert_present present value = ground (
    arith,
    slot_index_runs,
    slot_runs,
    lookup-null t.heap.cell chain key chain_Chain,
    key_loop-lookup t.heap.fresh t chain key chain_Chain chain_short,
  )

  -- The table after the insertion of a key that it does not hold.
  abbrev pushed : ℕ → HashTable
  pushed value = record {
    table_addr = set t.table_addr (index t key) t.heap.fresh;
    size = t.size;
    heap = record {
      cell = update t.heap.cell t.heap.fresh (some (hash_entry key value (first chain)));
      fresh = t.heap.fresh + 1;
      room = t.heap.room - 1;
    };
  }

  new_entry_runs :
      0 < t.heap.room
      → (value : ℕ)
      → new_entry key value (first chain) t
        ≡ ok (t.heap.fresh, record t { heap = (pushed value).heap })
  unfolding new_entry
  new_entry_runs room value = ground (arith, h.enough)

  insert_step :
      is_some (view t ess key) ≡ false
      → (value : ℕ) (entry : Ptr) (t' : HashTable)
      → new_entry key value (first chain) t ≡ ok (entry, t')
      → hashtable_insert key beyond value t
        ≡ ok (true, record t' { table_addr = set t'.table_addr (index t key) entry })
  unfolding hashtable_insert
  insert_step absent value entry t' made = ground (
    arith,
    slot_index_runs,
    slot_runs,
    made,
    key_loop-lookup t.heap.fresh t chain key chain_Chain chain_short,
  )

  pub insert_full :
      is_some (view t ess key) ≡ false
      → t.heap.room ≡ 0
      → (value : ℕ) → hashtable_insert key beyond value t ≡ exits 1
  unfolding hashtable_insert new_entry
  insert_full absent full value = ground (
    arith,
    slot_index_runs,
    slot_runs,
    key_loop-lookup t.heap.fresh t chain key chain_Chain chain_short,
  )

  pushed-IsTable :
      (value : ℕ) → IsTable (pushed value) (push_at (index t key) (t.heap.fresh, key, value) ess)
  pushed-IsTable value =
      let out = AllBelow-fresh t.heap.fresh ess h.below in
      record {
        slots =
            Slots-push_at (pushed value).heap.cell (index t key) t.heap.fresh key value t.table_addr
              ess (Slots-frame t.heap.cell t.heap.fresh _ t.table_addr ess h.slots out) index-lt
              (omega (arith, h.enough)) (update_self t.heap.cell t.heap.fresh _);
        sized = h.sized ∙ sym (length-push_at (index t key) (t.heap.fresh, key, value) ess);
        some_slot = h.some_slot;
        apart = Apart-push_at t.heap.fresh key value (index t key) ess index-lt h.apart out;
        below = AllBelow-push_at t.heap.fresh key value (index t key) ess h.below;
        enough = omega (arith, total-push_at t.heap.fresh key value (index t key) ess, h.enough);
        exact = λ p gone.
            let (other, spared) =
              or_false (p == t.heap.fresh) (has_any p ess) (
                sym (has_any-push_at t.heap.fresh key value p (index t key) ess index-lt) ∙ gone) in
            update_other t.heap.cell p t.heap.fresh _ (==→ne p t.heap.fresh other)
            ∙ h.exact p spared;
      }

  pushed-view :
      (value k : ℕ)
      → view (pushed value) (push_at (index t key) (t.heap.fresh, key, value) ess) k
        ≡ (if key == k then some value else view t ess k)
  unfolding index
  pushed-view value k =
      lookup-push_at (index t key) (index t k) t.heap.fresh key value k ess index-lt (ap (index t))

  pub insert_absent :
      is_some (view t ess key) ≡ false
      → 0 < t.heap.room
      → (value : ℕ)
      → (t' : HashTable) × (ess' : List Entries) × (hashtable_insert key beyond value t
          ≡ ok (true, t'))
        × IsTable t' ess'
        × ((k : ℕ) → view t' ess' k ≡ (if key == k then some value else view t ess k))
        × (t'.heap.room + 1 ≡ t.heap.room)
  insert_absent absent room value = (
    pushed value,
    push_at (index t key) (t.heap.fresh, key, value) ess,
    insert_step absent value t.heap.fresh _ (new_entry_runs room value),
    pushed-IsTable value,
    pushed-view value,
    omega arith,
  )
