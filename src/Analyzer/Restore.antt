-- ===== src/Analyzer/Restore.antt =====
-- `shutdown` of data/trap/trap.c puts back every byte that was there before the analyser came.
use counter_rop.Common.{
  is_some, ℕ, zero, suc, ◌<◌, ◌≡◌, ◌≢◌, ◌^◌, refl, true, false, Option, some, List, [], ◌∷◌, ◌∙◌,
  arith, ◌==◌, length, ap, sym, Bool-cases, Option-cases, inl, inr, All, ==→eq, true≢false,
}
use counter_rop.Common.Word.{page_start}
use counter_rop.Common.Outcome.{ok}
use counter_rop.LinkedList.{LinkedList, list_pop}
use counter_rop.LinkedList.Chain.{Stores, contains}
use counter_rop.LinkedList.Queue.{list_pop-dequeue, Stores-fresh}
use counter_rop.HashTable.Lookup.{value_or_zero}
use counter_rop.HashTable.Map.{Maps, hashtable_find-Maps}
use counter_rop.Analyzer.{Analyzer, poke}
use counter_rop.Analyzer.Trap.{System, swap_start_byte, shutdown_loop, shutdown}
use counter_rop.Analyzer.Armed.{Armed, IsSite, unknown_original}

restored :
    (orig memory : ℕ → ℕ) (m : ℕ → Option ℕ) (x a : ℕ) (xs : List ℕ)
    → m x ≡ some (orig x)
    → (contains a (x ∷ xs) ≡ false → memory a ≡ orig a)
    → contains a xs ≡ false
    → poke memory x (value_or_zero (m x)) a ≡ orig a
restored orig memory m x a xs held rest out = elim (Bool-cases (a == x)) [
  | inl same ↦ rw (same, held) (ap orig (sym (==→eq a x same)))
  | inr other ↦ rw other (rest (ground arith))
]

module _ {Ud : Type 0} (sys : System) where
  swap_runs :
      (s : Analyzer Ud) (m : ℕ → Option ℕ) (a : ℕ)
      → Maps s.original_start_bytes m
      → a < 2 ^ 56
      → sys.mprotect (page_start a) ≡ true
      → swap_start_byte sys a s
        ≡ ok (tt, record s { memory = poke s.memory a (value_or_zero (m a)) })
  unfolding swap_start_byte
  swap_runs s m a maps small writable =
      ground
        (arith, writable, hashtable_find-Maps s.original_start_bytes m a (sys.beyond a) maps small)

  shutdown_round :
      (k : ℕ) (s s' : Analyzer Ud) (l : LinkedList) (a : ℕ)
      → list_pop s.start_byte_list ≡ ok (a, l)
      → a ≢ 0
      → swap_start_byte sys a (record s { start_byte_list = l }) ≡ ok (tt, s')
      → shutdown_loop sys (suc k) s ≡ shutdown_loop sys k s'
  unfolding shutdown_loop
  shutdown_round k s s' l a popped ne swapped = ground arith

  shutdown_end :
      (k : ℕ) (s : Analyzer Ud) (l : LinkedList)
      → list_pop s.start_byte_list ≡ ok (0, l)
      → shutdown_loop sys (suc k) s ≡ ok (tt, record s { start_byte_list = l })
  unfolding shutdown_loop
  shutdown_end k s l popped = ground arith

  shutdown_loop-restores :
      (k : ℕ) (orig : ℕ → ℕ) (s : Analyzer Ud) (m : ℕ → Option ℕ) (xs : List ℕ)
      → Maps s.original_start_bytes m
      → Stores s.start_byte_list xs
      → All (IsSite sys) xs
      → ((a : ℕ) → contains a xs ≡ true → m a ≡ some (orig a))
      → ((a : ℕ) → contains a xs ≡ false → s.memory a ≡ orig a)
      → length xs < k
      → (s' : Analyzer Ud) × (shutdown_loop sys k s ≡ ok (tt, s'))
        × ((a : ℕ) → s'.memory a ≡ orig a)
  shutdown_loop-restores zero orig s m xs maps stores sites held rest fuel = absurd (omega arith)
  shutdown_loop-restores (suc k) orig s m [] maps stores sites held rest fuel =
      let (l, popped, _, _) = list_pop-dequeue s.start_byte_list [] stores in
      (record s { start_byte_list = l }, shutdown_end k s l popped, λ a. rest a refl)
  shutdown_loop-restores (suc k) orig s m (x ∷ xs) maps stores sites held rest fuel =
      let (l, popped, stores', _) = list_pop-dequeue s.start_byte_list (x ∷ xs) stores in
      let s₁ : Analyzer Ud = record s {
        start_byte_list = l;
        memory = poke s.memory x (value_or_zero (m x));
      } in
      let swapped = swap_runs (record s { start_byte_list = l }) m x maps sites.0.1 sites.0.2 in
      let (s', run, same) =
        shutdown_loop-restores k orig s₁ m xs maps stores' sites.1 (λ a e. held a (ground arith))
          (λ a out. restored orig s.memory m x a xs (held x (ground arith)) (rest a) out)
          (omega arith) in
      (s', shutdown_round k s s₁ l x popped sites.0.0 swapped ∙ run, same)

  held_original :
      (orig : ℕ → ℕ) (s : Analyzer Ud) (m : ℕ → Option ℕ) (xs : List ℕ)
      → Armed orig s m xs
      → (a : ℕ) → contains a xs ≡ true
      → m a ≡ some (orig a)
  held_original orig s m xs h a e = elim (Option-cases (m a)) [
    | inl unknown ↦ absurd (true≢false (sym e ∙ h.listed a ∙ ap is_some unknown))
    | inr (v, known) ↦ known ∙ ap some (h.originals a v known)
  ]

  -- From a recoverable state in which no armed address is 0, all are below 2 ^ 56 and all their pages can be
  -- made writable, `shutdown` ends, and afterwards the program in memory is the original one.
  pub shutdown-restores :
      (orig : ℕ → ℕ) (s : Analyzer Ud) (m : ℕ → Option ℕ) (xs : List ℕ)
      → Armed orig s m xs
      → All (IsSite sys) xs
      → (s' : Analyzer Ud) × (shutdown sys s ≡ ok (tt, s')) × ((a : ℕ) → s'.memory a ≡ orig a)
  unfolding shutdown
  shutdown-restores orig s m xs h sites =
      shutdown_loop-restores s.start_byte_list.heap.fresh orig s m xs h.maps h.stores sites
        (held_original orig s m xs h)
        (λ a out. unknown_original orig s.memory m a (h.bytes a) (sym (h.listed a) ∙ out))
        (Stores-fresh s.start_byte_list xs h.stores)
