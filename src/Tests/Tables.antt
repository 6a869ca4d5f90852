-- ===== src/Tests/Tables.antt =====
-- data/hashtable/hashtable.c at a table of one slot that holds the byte 0x55 of the address 64.
use counter_rop.Common.{
  ℕ, ◌≡◌, ◌≤◌, ◌+◌, refl, true, Option, none, some, List, [], ◌∷◌, arith, ap, ◌==◌, if◌then◌else◌,
}
use counter_rop.Common.Outcome.{ok, exits}
use counter_rop.Common.Heap.{Heap, Ptr, update}
use counter_rop.Jhash.{jenkins_hash-lt, bytes}
use counter_rop.HashTable.{
  HashTable, HashEntry, hash_entry, hashtable_find, hashtable_insert, hashtable_delete,
}
use counter_rop.HashTable.Chains.{Entries, IsTable, chain_at, lookup}
use counter_rop.HashTable.Lookup.{index}
use counter_rop.HashTable.Map.{
  Maps, put_first, hashtable_find-Maps, hashtable_insert-put_first, hashtable_insert_full,
}
use counter_rop.HashTable.Delete.{hashtable_delete_all}

abbrev pub one_table : ℕ → HashTable
one_table room = record {
  table_addr = 1 ∷ [];
  size = 1;
  heap = record {
    cell = update (λ _. none) 1 (some (hash_entry 64 0x55 0));
    fresh = 2;
    room = room;
  };
}

abbrev pub one_chain : List Entries
one_chain = ((1, 64, 0x55) ∷ []) ∷ []

abbrev pub one_map : ℕ → Option ℕ
one_map k = if 64 == k then some 0x55 else none

one_table-IsTable : (room : ℕ) → IsTable (one_table room) one_chain
one_table-IsTable room = record {
  slots = (refl, (omega arith, refl, tt), tt);
  sized = refl;
  some_slot = omega arith;
  apart = ((refl, tt), λ p m. refl, tt);
  below = omega arith;
  enough = omega arith;
  exact = λ p out. ground arith;
}

index_zero : (room k : ℕ) → index (one_table room) k ≡ 0
unfolding index
index_zero room k = omega (arith, jenkins_hash-lt (some (bytes 7 k)) 1 (omega arith))

pub one_table-Maps : (room : ℕ) → Maps (one_table room) one_map
one_table-Maps room = (
  one_chain,
  one_table-IsTable room,
  λ k. ap (λ i. lookup k (chain_at i one_chain)) (index_zero room k),
)

hashtable_find-Maps_example : hashtable_find 64 (3 ∷ []) (one_table 4) ≡ ok (0x55, one_table 4)
hashtable_find-Maps_example =
    hashtable_find-Maps (one_table 4) one_map 64 (3 ∷ []) (one_table-Maps 4) (omega arith)

hashtable_insert-put_first_example :
    (t' : HashTable) × (hashtable_insert 72 [] 0x90 (one_table 4) ≡ ok (true, t'))
    × Maps t' (put_first one_map 72 0x90)
    × (4 ≤ t'.heap.room + 1)
hashtable_insert-put_first_example =
    hashtable_insert-put_first (one_table 4) one_map 72 0x90 [] (one_table-Maps 4) (omega arith)
      (omega arith)

hashtable_insert_full_example : hashtable_insert 72 [] 0x90 (one_table 0) ≡ exits 1
hashtable_insert_full_example =
    hashtable_insert_full (one_table 0) one_map 72 0x90 [] (one_table-Maps 0) (omega arith) refl

hashtable_delete_all_example :
    (h : Heap HashEntry) × (hashtable_delete (some (one_table 4)) ≡ ok (true, some h))
    × ((p : Ptr) → h.cell p ≡ none)
hashtable_delete_all_example = hashtable_delete_all (one_table 4) one_chain (one_table-IsTable 4)
