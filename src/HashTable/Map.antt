-- ===== src/HashTable/Map.antt =====
-- data/hashtable/hashtable.c against a finite map from keys to values, for keys below 2 ^ 56. (The
-- keys of the program are addresses of user space, which are below 2 ^ 47.)
use counter_rop.Common.{
  is_some, ℕ, zero, suc, ◌+◌, ◌<◌, ◌≤◌, ◌≡◌, ◌^◌, refl, true, false, not, Option, none, some, List,
  [], ◌∷◌, ◌∙◌, arith, ◌==◌, if◌then◌else◌, length, ap, sym, Bool-cases, inl, inr, ◌||◌, ==→eq,
}
use counter_rop.Common.Outcome.{ok, exits}
use counter_rop.Common.Heap.{null}
use counter_rop.HashTable.{HashTable, hashtable_new, hashtable_find, hashtable_insert, replicate}
use counter_rop.HashTable.Chains.{Entries, Slots, Apart, AllBelow, total, IsTable, chain_at, lookup}
use counter_rop.HashTable.Lookup.{
  value_or_zero, view, find_runs, insert_present, insert_absent, insert_full,
}

-- The table in memory holds these values for the keys.
abbrev pub Maps : HashTable → (ℕ → Option ℕ) → Type 0
Maps t m = (ess : List Entries) × IsTable t ess × ((k : ℕ) → view t ess k ≡ m k)

-- The first value that a key is given stays.
abbrev pub put_first : (ℕ → Option ℕ) → ℕ → ℕ → ℕ → Option ℕ
put_first m key value k = if key == k then (if is_some (m key) then m key else some value) else m k

pub put_first_present :
    (m : ℕ → Option ℕ) (key value k : ℕ) → is_some (m key) ≡ true → put_first m key value k ≡ m k
put_first_present m key value k present = rw present (elim (Bool-cases (key == k)) [
  | inl same ↦ rw same (ap m (==→eq key k same))
  | inr other ↦ rw other
])

pub put_first_absent :
    (m : ℕ → Option ℕ) (key value k : ℕ)
    → is_some (m key) ≡ false
    → put_first m key value k ≡ (if key == k then some value else m k)
put_first_absent m key value k absent = rw absent

pub is_some-put_first :
    (m : ℕ → Option ℕ) (key value k : ℕ)
    → is_some (put_first m key value k) ≡ ((key == k) || is_some (m k))
is_some-put_first m key value k = elim (Bool-cases (is_some (m key))) [
  | inl present ↦
      ap is_some (put_first_present m key value k present) ∙ (elim (Bool-cases (key == k)) [
        | inl same ↦ rw same (ap (λ x. is_some (m x)) (sym (==→eq key k same)) ∙ present)
        | inr other ↦ rw other
      ])
  | inr absent ↦
      ap is_some (put_first_absent m key value k absent)
      ∙ (elim (Bool-cases (key == k)) [ inl same ↦ rw same | inr other ↦ rw other ])
]

-- In a well-formed table, and for a key below 2 ^ 56, `hashtable_find` returns the value of the key,
-- or 0 if the table has none, and changes nothing, whatever stands in memory behind the key.
pub hashtable_find-Maps :
    (t : HashTable) (m : ℕ → Option ℕ) (key : ℕ) (beyond : List ℕ)
    → Maps t m
    → key < 2 ^ 56
    → hashtable_find key beyond t ≡ ok (value_or_zero (m key), t)
hashtable_find-Maps t m key beyond (ess, h, e) small =
    find_runs t ess key beyond h small ∙ ap (λ o. ok (value_or_zero o, t)) (e key)

-- In a well-formed table with memory left, and for a key below 2 ^ 56, `hashtable_insert` returns
-- `true` and adds the value if the table has none for the key; else it returns `false` and changes
-- nothing.
pub hashtable_insert-put_first :
    (t : HashTable) (m : ℕ → Option ℕ) (key value : ℕ) (beyond : List ℕ)
    → Maps t m
    → key < 2 ^ 56
    → 0 < t.heap.room
    → (t' : HashTable) × (hashtable_insert key beyond value t ≡ ok (not (is_some (m key)), t'))
      × Maps t' (put_first m key value)
      × (t.heap.room ≤ t'.heap.room + 1)
hashtable_insert-put_first t m key value beyond (ess, h, e) small room =
    elim (Bool-cases (is_some (m key))) [
      | inl present ↦ (
        t,
        insert_present t ess key beyond h small (ap is_some (e key) ∙ present) value
            ∙ ap (λ b. ok (not b, t)) (sym present),
        (ess, h, λ k. e k ∙ sym (put_first_present m key value k present)),
        omega arith,
      )
      | inr absent ↦
          let (t', ess', run, is, changed, room') =
            insert_absent t ess key beyond h small (ap is_some (e key) ∙ absent) room value in
          (
            t',
            run ∙ ap (λ b. ok (not b, t')) (sym absent),
            (
              ess',
              is,
              λ k.
                  changed k
                  ∙ ap (λ o. if key == k then some value else o) (e k)
                  ∙ sym (put_first_absent m key value k absent),
            ),
            omega arith,
          )
    ]

-- In a well-formed table without memory left, and for a key below 2 ^ 56, `hashtable_insert` ends the
-- process with status 1, unless the table has a value for the key.
pub hashtable_insert_full :
    (t : HashTable) (m : ℕ → Option ℕ) (key value : ℕ) (beyond : List ℕ)
    → Maps t m
    → key < 2 ^ 56
    → t.heap.room ≡ 0
    → hashtable_insert key beyond value t ≡ (if is_some (m key) then ok (false, t) else exits 1)
hashtable_insert_full t m key value beyond (ess, h, e) small full =
    elim (Bool-cases (is_some (m key))) [
      | inl present ↦
          rw present (insert_present t ess key beyond h small (ap is_some (e key) ∙ present) value)
      | inr absent ↦
          rw absent (insert_full t ess key beyond h small (ap is_some (e key) ∙ absent) full value)
    ]

abbrev empties : ℕ → List Entries
empties zero = []
empties (suc n) = [] ∷ empties n

Slots-empties : (n : ℕ) → Slots (λ p. none) (replicate n null) (empties n)
Slots-empties zero = tt
Slots-empties (suc n) = (refl, tt, Slots-empties n)

length-empties : (n : ℕ) → length (empties n) ≡ n
length-empties zero = refl
length-empties (suc n) = ap suc (length-empties n)

Apart-empties : (n : ℕ) → Apart (empties n)
Apart-empties zero = tt
Apart-empties (suc n) = (tt, λ p m. cc, Apart-empties n)

AllBelow-empties : (m n : ℕ) → AllBelow m (empties n)
AllBelow-empties m zero = tt
AllBelow-empties m (suc n) = (tt, AllBelow-empties m n)

total-empties : (n : ℕ) → total (empties n) ≡ 0
total-empties zero = refl
total-empties (suc n) = omega (arith, total-empties n)

lookup-empties : (k i n : ℕ) → lookup k (chain_at i (empties n)) ≡ none
lookup-empties k i zero = refl
lookup-empties k zero (suc n) = refl
lookup-empties k (suc i) (suc n) = lookup-empties k i n

-- A new table with at least one slot maps no key.
pub hashtable_new-Maps :
    (num_slots room : ℕ)
    → 0 < num_slots
    → (t : HashTable) × (hashtable_new true true num_slots room ≡ ok t)
      × Maps t (λ k. none)
      × (t.heap.room ≡ room)
unfolding hashtable_new
hashtable_new-Maps num_slots room some_slot = (
  _,
  refl,
  (
    empties num_slots,
    record {
      slots = Slots-empties num_slots;
      sized = sym (length-empties num_slots);
      some_slot = some_slot;
      apart = Apart-empties num_slots;
      below = AllBelow-empties 1 num_slots;
      enough = omega (arith, total-empties num_slots);
      exact = λ p out. refl;
    },
    λ k. lookup-empties k _ num_slots,
  ),
  refl,
)
