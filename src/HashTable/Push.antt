-- ===== src/HashTable/Push.antt =====
-- A new entry at the front of a chain.
use counter_rop.Common.{
  ℕ, zero, suc, ◌+◌, ◌<◌, ◌≤◌, ◌≡◌, ◌≢◌, refl, false, ◌||◌, some, List, [], ◌∷◌, arith, ◌==◌,
  if◌then◌else◌, length, get_elem?, set, ap,
}
use counter_rop.Common.Heap.{Ptr, null}
use counter_rop.HashTable.{hash_entry}
use counter_rop.HashTable.Chains.{
  Entries, Cells, first, has_any, Chain, Slots, Apart, AllBelow, total, chain_at, Below-mono,
  AllBelow-mono,
}

abbrev pub push_at : ℕ → Ptr × ℕ × ℕ → List Entries → List Entries
push_at i e [] = []
push_at zero e (es ∷ ess) = (e ∷ es) ∷ ess
push_at (suc i) e (es ∷ ess) = es ∷ push_at i e ess

pub slot_chain :
    (c : Cells) (i : ℕ) (ps : List Ptr) (ess : List Entries)
    → Slots c ps ess
    → i < length ess
    → (get_elem? ps i ≡ some (first (chain_at i ess))) × Chain c (chain_at i ess)
slot_chain c i [] [] h lt = absurd (omega arith)
slot_chain c i [] (es ∷ ess) h lt = elim h [ ]
slot_chain c i (p ∷ ps) [] h lt = elim h [ ]
slot_chain c zero (p ∷ ps) (es ∷ ess) h lt = (ap some h.0, h.1)
slot_chain c (suc i) (p ∷ ps) (es ∷ ess) h lt = slot_chain c i ps ess h.2 (omega arith)

pub length-chain_at : (i : ℕ) (ess : List Entries) → length (chain_at i ess) ≤ total ess
length-chain_at i [] = omega arith
length-chain_at zero (es ∷ ess) = omega arith
length-chain_at (suc i) (es ∷ ess) = omega (arith, length-chain_at i ess)

pub length-push_at :
    (i : ℕ) (e : Ptr × ℕ × ℕ) (ess : List Entries) → length (push_at i e ess) ≡ length ess
length-push_at i e [] = refl
length-push_at zero e (es ∷ ess) = refl
length-push_at (suc i) e (es ∷ ess) = ap suc (length-push_at i e ess)

pub chain_at-push_at :
    (i j : ℕ) (e : Ptr × ℕ × ℕ) (ess : List Entries)
    → i < length ess
    → chain_at j (push_at i e ess) ≡ (if j == i then e ∷ chain_at i ess else chain_at j ess)
chain_at-push_at i j e [] lt = absurd (omega arith)
chain_at-push_at zero zero e (es ∷ ess) lt = ground arith
chain_at-push_at zero (suc j) e (es ∷ ess) lt = ground arith
chain_at-push_at (suc i) zero e (es ∷ ess) lt = ground arith
chain_at-push_at (suc i) (suc j) e (es ∷ ess) lt = ground (arith, chain_at-push_at i j e ess)

pub Slots-push_at :
    (c : Cells) (i : ℕ) (n k v : ℕ) (ps : List Ptr) (ess : List Entries)
    → Slots c ps ess
    → i < length ess
    → n ≢ null
    → c n ≡ some (hash_entry k v (first (chain_at i ess)))
    → Slots c (set ps i n) (push_at i (n, k, v) ess)
Slots-push_at c i n k v [] [] h lt ne e = absurd (omega arith)
Slots-push_at c i n k v [] (es ∷ ess) h lt ne e = elim h [ ]
Slots-push_at c i n k v (p ∷ ps) [] h lt ne e = elim h [ ]
Slots-push_at c zero n k v (p ∷ ps) (es ∷ ess) h lt ne e = (refl, (ne, e, h.1), h.2)
Slots-push_at c (suc i) n k v (p ∷ ps) (es ∷ ess) h lt ne e =
    (h.0, h.1, Slots-push_at c i n k v ps ess h.2 (omega arith) ne e)

module _ (n k v : ℕ) where
  pub has_any-push_at :
      (q i : ℕ) (ess : List Entries)
      → i < length ess
      → has_any q (push_at i (n, k, v) ess) ≡ ((q == n) || has_any q ess)
  has_any-push_at q i [] lt = absurd (omega arith)
  has_any-push_at q zero (es ∷ ess) lt = ground arith
  has_any-push_at q (suc i) (es ∷ ess) lt = ground (arith, has_any-push_at q i ess)

  pub Apart-push_at :
      (i : ℕ) (ess : List Entries)
      → i < length ess
      → Apart ess
      → has_any n ess ≡ false
      → Apart (push_at i (n, k, v) ess)
  Apart-push_at i [] lt a out = absurd (omega arith)
  Apart-push_at zero (es ∷ ess) lt a out = ((ground arith, a.0), λ p m. ground (arith, a.1 p), a.2)
  Apart-push_at (suc i) (es ∷ ess) lt a out = (
    a.0,
    λ p m. ground (arith, a.1 p, has_any-push_at p i ess),
    Apart-push_at i ess (omega arith) a.2 (ground arith),
  )

  pub AllBelow-push_at :
      (i : ℕ) (ess : List Entries) → AllBelow n ess → AllBelow (n + 1) (push_at i (n, k, v) ess)
  AllBelow-push_at i [] b = tt
  AllBelow-push_at zero (es ∷ ess) b = ((omega arith, Below-mono n es b.0), AllBelow-mono n ess b.1)
  AllBelow-push_at (suc i) (es ∷ ess) b = (Below-mono n es b.0, AllBelow-push_at i ess b.1)

  pub total-push_at : (i : ℕ) (ess : List Entries) → total (push_at i (n, k, v) ess) ≤ total ess + 1
  total-push_at i [] = omega arith
  total-push_at zero (es ∷ ess) = omega arith
  total-push_at (suc i) (es ∷ ess) = omega (arith, total-push_at i ess)
