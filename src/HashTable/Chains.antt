-- ===== src/HashTable/Chains.antt =====
-- What a well-formed table of data/hashtable/hashtable.c looks like in memory.
use counter_rop.Common.{
  ℕ, zero, suc, ◌+◌, ◌<◌, ◌≡◌, ◌≢◌, refl, Bool, true, false, ◌||◌, Option, none, some, List, [],
  ◌∷◌, arith, ◌==◌, if◌then◌else◌, length,
}
use counter_rop.Common.Heap.{Ptr, null, update}
use counter_rop.HashTable.{HashEntry, hash_entry, HashTable}

-- The entries of a chain: where each stands, its key and its value.
abbrev pub Entries : Type 0
Entries = List (Ptr × ℕ × ℕ)

abbrev pub Cells : Type 0
Cells = Ptr → Option HashEntry

abbrev pub first : Entries → Ptr
first [] = null
first ((p, _, _) ∷ _) = p

abbrev pub has : Ptr → Entries → Bool
has q [] = false
has q ((p, _, _) ∷ es) = (q == p) || has q es

abbrev pub has_any : Ptr → List Entries → Bool
has_any q [] = false
has_any q (es ∷ ess) = has q es || has_any q ess

abbrev pub lookup : ℕ → Entries → Option ℕ
lookup k [] = none
lookup k ((_, key, v) ∷ es) = if key == k then some v else lookup k es

abbrev pub Chain : Cells → Entries → Type 0
Chain c [] = Unit {0}
Chain c ((p, k, v) ∷ es) = (p ≢ null) × (c p ≡ some (hash_entry k v (first es))) × Chain c es

abbrev pub Slots : Cells → List Ptr → List Entries → Type 0
Slots c [] [] = Unit {0}
Slots c [] (es ∷ ess) = ⊥
Slots c (p ∷ ps) [] = ⊥
Slots c (p ∷ ps) (es ∷ ess) = (p ≡ first es) × Chain c es × Slots c ps ess

abbrev pub Distinct : Entries → Type 0
Distinct [] = Unit {0}
Distinct ((p, _, _) ∷ es) = (has p es ≡ false) × Distinct es

-- No entry stands in two chains, or twice in one.
abbrev pub Apart : List Entries → Type 0
Apart [] = Unit {0}
Apart (es ∷ ess) = Distinct es × ((p : Ptr) → has p es ≡ true → has_any p ess ≡ false) × Apart ess

abbrev pub Below : Ptr → Entries → Type 0
Below n [] = Unit {0}
Below n ((p, _, _) ∷ es) = (p < n) × Below n es

abbrev pub AllBelow : Ptr → List Entries → Type 0
AllBelow n [] = Unit {0}
AllBelow n (es ∷ ess) = Below n es × AllBelow n ess

abbrev pub total : List Entries → ℕ
total [] = 0
total (es ∷ ess) = length es + total ess

pub record IsTable (t : HashTable) (ess : List Entries) : Type 0 where
  pub slots : Slots t.heap.cell t.table_addr ess
  pub sized : t.size ≡ length ess
  pub some_slot : 0 < t.size
  pub apart : Apart ess
  pub below : AllBelow t.heap.fresh ess
  pub enough : total ess < t.heap.fresh
  pub exact : (p : Ptr) → has_any p ess ≡ false → t.heap.cell p ≡ none

-- The chain in slot `i`.
abbrev pub chain_at : ℕ → List Entries → Entries
chain_at i [] = []
chain_at zero (es ∷ ess) = es
chain_at (suc i) (es ∷ ess) = chain_at i ess

pub Chain-frame :
    (c : Cells) (p : Ptr) (v : Option HashEntry) (es : Entries)
    → Chain c es
    → has p es ≡ false
    → Chain (update c p v) es
Chain-frame c p v [] h out = tt
Chain-frame c p v ((q, k, x) ∷ es) h out =
    (h.0, ground arith, Chain-frame c p v es h.2 (ground arith))

pub Slots-frame :
    (c : Cells) (p : Ptr) (v : Option HashEntry) (ps : List Ptr) (ess : List Entries)
    → Slots c ps ess
    → has_any p ess ≡ false
    → Slots (update c p v) ps ess
Slots-frame c p v [] [] h out = tt
Slots-frame c p v [] (es ∷ ess) h out = elim h [ ]
Slots-frame c p v (q ∷ ps) [] h out = elim h [ ]
Slots-frame c p v (q ∷ ps) (es ∷ ess) h out =
    (h.0, Chain-frame c p v es h.1 (ground arith), Slots-frame c p v ps ess h.2 (ground arith))

pub Below-fresh : (n : Ptr) (es : Entries) → Below n es → has n es ≡ false
Below-fresh n [] b = refl
Below-fresh n ((p, k, v) ∷ es) b = ground (arith, Below-fresh n es b.1)

pub AllBelow-fresh : (n : Ptr) (ess : List Entries) → AllBelow n ess → has_any n ess ≡ false
AllBelow-fresh n [] b = refl
AllBelow-fresh n (es ∷ ess) b = ground (arith, Below-fresh n es b.0, AllBelow-fresh n ess b.1)

pub Below-mono : (n : Ptr) (es : Entries) → Below n es → Below (n + 1) es
Below-mono n [] b = tt
Below-mono n ((p, k, v) ∷ es) b = (omega arith, Below-mono n es b.1)

pub AllBelow-mono : (n : Ptr) (ess : List Entries) → AllBelow n ess → AllBelow (n + 1) ess
AllBelow-mono n [] b = tt
AllBelow-mono n (es ∷ ess) b = (Below-mono n es b.0, AllBelow-mono n ess b.1)
