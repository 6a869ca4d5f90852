-- ===== src/HashTable/Delete.antt =====
-- `hashtable_delete` on a well-formed table: every entry is freed.
use counter_rop.Common.{
  ℕ, zero, suc, ◌<◌, ◌≡◌, ◌≢◌, refl, Bool, true, false, none, some, List, [], ◌∷◌, ◌∙◌, arith,
  if◌then◌else◌, length, sym, subst,
}
use counter_rop.Common.Outcome.{ok}
use counter_rop.Common.Heap.{Ptr, null, Heap, update, write}
use counter_rop.HashTable.{
  HashTable, HashEntry, hash_entry, load, free, delete_chain, delete_slots, hashtable_delete,
}
use counter_rop.HashTable.Chains.{
  Entries, Cells, first, has, has_any, Chain, Slots, Distinct, Apart, total, IsTable, Chain-frame,
}

-- The memory without the entries that a test names, and with all else as it was.
abbrev Without : (Ptr → Bool) → Cells → Cells → Type 0
Without gone c c' = (p : Ptr) → c' p ≡ (if gone p then none else c p)

Chain-Without :
    (gone : Ptr → Bool) (es : Entries) (c c' : Cells)
    → Chain c es
    → Without gone c c'
    → ((p : Ptr) → has p es ≡ true → gone p ≡ false)
    → Chain c' es
Chain-Without gone [] c c' h w apart = tt
Chain-Without gone ((p, k, v) ∷ es) c c' h w apart = (
  h.0,
  ground (arith, w p, apart p),
  Chain-Without gone es c c' h.2 w (λ q m. ground (arith, apart q)),
)

Slots-Without :
    (gone : Ptr → Bool) (ps : List Ptr) (ess : List Entries) (c c' : Cells)
    → Slots c ps ess
    → Without gone c c'
    → ((p : Ptr) → has_any p ess ≡ true → gone p ≡ false)
    → Slots c' ps ess
Slots-Without gone [] [] c c' h w apart = tt
Slots-Without gone [] (es ∷ ess) c c' h w apart = elim h [ ]
Slots-Without gone (p ∷ ps) [] c c' h w apart = elim h [ ]
Slots-Without gone (p ∷ ps) (es ∷ ess) c c' h w apart = (
  h.0,
  Chain-Without gone es c c' h.1 w (λ q m. ground (arith, apart q)),
  Slots-Without gone ps ess c c' h.2 w (λ q m. ground (arith, apart q)),
)

not_in_chain :
    (es : Entries) (ess : List Entries)
    → ((q : Ptr) → has q es ≡ true → has_any q ess ≡ false)
    → (q : Ptr) → has_any q ess ≡ true
    → has q es ≡ false
not_in_chain es ess apart q member = ground (arith, apart q)

free_runs :
    (t : HashTable) (p : Ptr) (e : HashEntry)
    → p ≢ null
    → t.heap.cell p ≡ some e
    → free p t ≡ ok (tt, record t { heap = write t.heap p none })
unfolding free load
free_runs t p e ne cell = ground arith

load_runs :
    (t : HashTable) (p : Ptr) (e : HashEntry)
    → p ≢ null
    → t.heap.cell p ≡ some e
    → load p t ≡ ok (e, t)
unfolding load
load_runs t p e ne cell = ground arith

Without-entry :
    (p k v : ℕ) (es : Entries) (c c' : Cells)
    → Without (λ q. has q es) (update c p none) c'
    → Without (λ q. has q ((p, k, v) ∷ es)) c c'
Without-entry p k v es c c' w q = ground (arith, w q)

Without-chain :
    (es : Entries) (ess : List Entries) (c c₁ c₂ : Cells)
    → Without (λ q. has q es) c c₁
    → Without (λ q. has_any q ess) c₁ c₂
    → Without (λ q. has_any q (es ∷ ess)) c c₂
Without-chain es ess c c₁ c₂ w₁ w₂ q = ground (arith, w₁ q, w₂ q)

delete_chain_step :
    (n : ℕ) (t t₁ t₂ : HashTable) (p next : Ptr) (e : HashEntry)
    → next ≢ null
    → free p t ≡ ok (tt, t₁)
    → load next t₁ ≡ ok (e, t₁)
    → delete_chain n next e.next t₁ ≡ ok (tt, t₂)
    → delete_chain (suc n) p next t ≡ ok (tt, t₂)
unfolding delete_chain
delete_chain_step n t t₁ t₂ p next e ne freed loaded run = ground arith

delete_slots_step :
    (t t₁ t₂ : HashTable) (p : Ptr) (ps : List Ptr) (e : HashEntry)
    → p ≢ null
    → load p t ≡ ok (e, t)
    → delete_chain t.heap.fresh p e.next t ≡ ok (tt, t₁)
    → delete_slots ps t₁ ≡ ok (tt, t₂)
    → delete_slots (p ∷ ps) t ≡ ok (tt, t₂)
unfolding delete_slots
delete_slots_step t t₁ t₂ p ps e ne loaded chain rest = ground arith

delete_slots-null :
    (t : HashTable) (p : Ptr) (ps : List Ptr)
    → p ≡ null
    → delete_slots (p ∷ ps) t ≡ delete_slots ps t
unfolding delete_slots
delete_slots-null t p ps e = ground arith

-- From an entry on, with the pointer to the next one in `next`.
delete_chain-Without :
    (n : ℕ) (t : HashTable) (p k v : ℕ) (es : Entries)
    → Chain t.heap.cell ((p, k, v) ∷ es)
    → Distinct ((p, k, v) ∷ es)
    → length es < n
    → (t' : HashTable) × (delete_chain n p (first es) t ≡ ok (tt, t'))
      × Without (λ q. has q ((p, k, v) ∷ es)) t.heap.cell t'.heap.cell
      × (t'.heap.fresh ≡ t.heap.fresh)
delete_chain-Without zero t p k v es h d fuel = absurd (omega arith)
delete_chain-Without (suc n) t p k v [] h d fuel = (
  record t { heap = write t.heap p none },
  unfold delete_chain in free_runs t p (hash_entry k v null) h.0 h.1,
  λ q. ground arith,
  refl,
)
delete_chain-Without (suc n) t p k v ((p', k', v') ∷ es) h d fuel =
    let t₁ : HashTable = record t { heap = write t.heap p none } in
    let h₁ : Chain t₁.heap.cell ((p', k', v') ∷ es) =
      Chain-frame t.heap.cell p none ((p', k', v') ∷ es) h.2 d.0 in
    let (t', run, gone, fresh) = delete_chain-Without n t₁ p' k' v' es h₁ d.1 (omega arith) in
    (
      t',
      delete_chain_step n t t₁ t' p p' (hash_entry k' v' (first es)) h.2.0
          (free_runs t p (hash_entry k v p') h.0 h.1)
          (load_runs t₁ p' (hash_entry k' v' (first es)) h₁.0 h₁.1) run,
      Without-entry p k v ((p', k', v') ∷ es) t.heap.cell t'.heap.cell gone,
      fresh,
    )

delete_slots-Without :
    (ps : List Ptr) (ess : List Entries) (t : HashTable)
    → Slots t.heap.cell ps ess
    → Apart ess
    → total ess < t.heap.fresh
    → (t' : HashTable) × (delete_slots ps t ≡ ok (tt, t'))
      × Without (λ q. has_any q ess) t.heap.cell t'.heap.cell
delete_slots-Without [] [] t h a fuel = (t, unfold delete_slots in refl, λ q. refl)
delete_slots-Without [] (es ∷ ess) t h a fuel = elim h [ ]
delete_slots-Without (p ∷ ps) [] t h a fuel = elim h [ ]
delete_slots-Without (p ∷ ps) ([] ∷ ess) t h a fuel =
    let (t', run, gone) = delete_slots-Without ps ess t h.2 a.2 (omega arith) in
    (t', delete_slots-null t p ps h.0 ∙ run, gone)
delete_slots-Without (p ∷ ps) (((p', k, v) ∷ es) ∷ ess) t h a fuel =
    let (t₁, chain, gone₁, fresh₁) =
      delete_chain-Without t.heap.fresh t p' k v es h.1 a.0 (omega arith) in
    let h₁ : Slots t₁.heap.cell ps ess =
      Slots-Without (λ q. has q ((p', k, v) ∷ es)) ps ess t.heap.cell t₁.heap.cell h.2 gone₁
        (not_in_chain ((p', k, v) ∷ es) ess a.1) in
    let (t₂, rest, gone₂) = delete_slots-Without ps ess t₁ h₁ a.2 (omega arith) in
    (
      t₂,
      subst (λ q. delete_slots (q ∷ ps) t ≡ ok (tt, t₂)) (sym h.0)
          (delete_slots_step t t₁ t₂ p' ps (hash_entry k v (first es)) h.1.0
            (load_runs t p' (hash_entry k v (first es)) h.1.0 h.1.1) chain rest),
      Without-chain ((p', k, v) ∷ es) ess t.heap.cell t₁.heap.cell t₂.heap.cell gone₁ gone₂,
    )

hashtable_delete_runs :
    (t t' : HashTable)
    → delete_slots t.table_addr t ≡ ok (tt, t')
    → hashtable_delete (some t) ≡ ok (true, some t'.heap)
unfolding hashtable_delete
hashtable_delete_runs t t' run = ground arith

-- `hashtable_delete` of a well-formed table returns `true` and frees every entry.
pub hashtable_delete_all :
    (t : HashTable) (ess : List Entries)
    → IsTable t ess
    → (h : Heap HashEntry) × (hashtable_delete (some t) ≡ ok (true, some h))
      × ((p : Ptr) → h.cell p ≡ none)
hashtable_delete_all t ess is =
    let (t', run, gone) = delete_slots-Without t.table_addr ess t is.slots is.apart is.enough in
    (t'.heap, hashtable_delete_runs t t' run, λ p. ground (arith, gone p, is.exact p))
