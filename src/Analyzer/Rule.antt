-- ===== src/Analyzer/Rule.antt =====
-- What each visit of the walk of `printDis`, of elf/libaddr.cc, keeps is kept by the whole walk.
use counter_rop.Common.{
  ℕ, zero, suc, ◌+◌, ◌≤◌, ◌≡◌, Bool, true, List, [], ◌∷◌, ◌++◌, arith, All, length, Bool-cases, inl,
  inr, length-append,
}
use counter_rop.LinkedList.Chain.{contains}
use counter_rop.LinkedList.Queue.{enqueue, contains-enqueue}
use counter_rop.Analyzer.Armed.{IsSite}
use counter_rop.Analyzer.Effect.{
  Discovered, arms, arms_at, calls_to, jumps_to, offset_after, going_after,
}
use counter_rop.Analyzer.Survey.{survey, stops, found_at, memory_after}
use counter_rop.Analyzer.Trap.{System}
use counter_rop.Analyzer.Udis.{Disassembler, Mnemonic, icall, iret, other_mnemonic}
use counter_rop.Analyzer.Visit.{direct_effect, next_of, target_of}

module _ (d : Disassembler) (P : ℕ → Discovered → Type 0)
    (skip : (k : ℕ) (a : Discovered) → P (suc k) a → P k a)
    (arm : (k byte : ℕ) (u : d.Ud) (a : Discovered)
      → P (suc k) a
      → P k (arms (d.insn_ptr u) byte a))
    (call : (k next target : ℕ) (a : Discovered) → P (suc k) a → P k (calls_to next target a))
    (jump : (k target : ℕ) (a : Discovered) → P (suc k) a → P k (jumps_to target a)) where
  direct_rule :
      (i : Mnemonic) (k held : ℕ) (u : d.Ud) (a : Discovered)
      → P (suc k) a
      → P k (direct_effect d i held u a)
  direct_rule icall k held u a h = call k (next_of d u) (target_of d held u) a h
  direct_rule iret k held u a h = skip k a h
  direct_rule other_mnemonic k held u a h = skip k a h
  direct_rule _ k held u a h = jump k (target_of d held u) a h

  visit_rule :
      (i : Mnemonic) (memory : ℕ → ℕ) (k held : ℕ) (u : d.Ud) (a : Discovered)
      → P (suc k) a
      → P k (found_at d i memory held u a)
  visit_rule i memory k held u a h = elim (Bool-cases (arms_at i (d.insn_opr u).kind)) [
    | inl site ↦ rw site (arm k (memory (d.insn_ptr u)) u a h)
    | inr direct ↦ rw direct (direct_rule i k held u a h)
  ]

  skip_all : (k : ℕ) (a : Discovered) → P k a → P 0 a
  skip_all zero a h = h
  skip_all (suc k) a h = skip_all k a (skip k a h)

  pub survey_rule :
      (k bound : ℕ) (memory : ℕ → ℕ) (u : d.Ud) (held : ℕ) (going : Bool) (base : ℕ)
      (a : Discovered)
      → P k a
      → P 0 (survey d k bound memory u held going base a).found
  unfolding survey
  survey_rule zero bound memory u held going base a h = h
  survey_rule (suc k) bound memory u held going base a h =
      let u' = (d.disassemble memory u).1 in
      let i = d.insn_mnemonic u' in
      elim (Bool-cases going) [
        | inr off ↦ rw off (skip_all (suc k) a h)
        | inl on ↦ elim (Bool-cases (stops d (d.disassemble memory u).0 bound u')) [
          | inl stopped ↦ rw (on, stopped) (skip_all (suc k) a h)
          | inr further ↦
              rw (on, further)
                (survey_rule k bound (memory_after d i memory u') u'
                  (offset_after i held (d.insn_opr u')) (going_after i true) (d.insn_ptr u')
                  (found_at d i memory held u' a) (visit_rule i memory k held u' a h))
        ]
      ]

All-snoc : (Q : ℕ → Type 0) (xs : List ℕ) (x : ℕ) → All Q xs → Q x → All Q (xs ++ x ∷ [])
All-snoc Q [] x h q = (q, tt)
All-snoc Q (y ∷ xs) x h q = (h.0, All-snoc Q xs x h.1 q)

pub All-enqueue : (Q : ℕ → Type 0) (xs : List ℕ) (x : ℕ) → All Q xs → Q x → All Q (enqueue x xs)
All-enqueue Q xs x h q = elim (Bool-cases (contains x xs)) [
  | inl stored ↦ rw stored h
  | inr absent ↦ rw absent (All-snoc Q xs x h q)
]

pub length-enqueue : (x : ℕ) (xs : List ℕ) → length (enqueue x xs) ≤ suc (length xs)
length-enqueue x xs = elim (Bool-cases (contains x xs)) [
  | inl stored ↦ rw stored (omega arith)
  | inr absent ↦ rw absent (omega (arith, length-append xs (x ∷ [])))
]

pub contains-enqueue_self : (x : ℕ) (xs : List ℕ) → contains x (enqueue x xs) ≡ true
contains-enqueue_self x xs = ground (arith, contains-enqueue x x xs)

pub contains-enqueue_mono :
    (t x : ℕ) (xs : List ℕ) → contains t xs ≡ true → contains t (enqueue x xs) ≡ true
contains-enqueue_mono t x xs h = ground (arith, contains-enqueue t x xs)

module _ (d : Disassembler) (k bound : ℕ) (memory : ℕ → ℕ) (u : d.Ud) (held : ℕ) (going : Bool)
    (base : ℕ) (a : Discovered) where
  -- Each site that a walk adds is one that `shutdown` can restore.
  pub survey-IsSite :
      (sys : System)
      → ((u : d.Ud) → IsSite sys (d.insn_ptr u))
      → All (IsSite sys) a.sites
      → All (IsSite sys) (survey d k bound memory u held going base a).found.sites
  survey-IsSite sys sites h =
      survey_rule d (λ _ a. All (IsSite sys) a.sites) (λ _ _ p. p)
        (λ _ _ u a p. All-enqueue (IsSite sys) a.sites (d.insn_ptr u) p (sites u)) (λ _ _ _ _ p. p)
        (λ _ _ _ p. p) k bound memory u held going base a h

  -- A walk adds at most one address to the queue a round.
  pub survey-length :
      length (survey d k bound memory u held going base a).found.queue ≤ k + length a.queue
  survey-length =
      let p =
        survey_rule d (λ j b. j + length b.queue ≤ k + length a.queue) (λ _ _ p. omega arith)
          (λ _ _ _ _ p. omega arith) (λ _ _ t b p. omega (arith, length-enqueue t b.queue))
          (λ _ t b p. omega (arith, length-enqueue t b.queue)) k bound memory u held going base a
          (omega arith) in
      omega (arith, p)

  -- No address leaves the queue in a walk.
  pub survey-contains :
      (t : ℕ)
      → contains t a.queue ≡ true
      → contains t (survey d k bound memory u held going base a).found.queue ≡ true
  survey-contains t h =
      survey_rule d (λ _ b. contains t b.queue ≡ true) (λ _ _ p. p) (λ _ _ _ _ p. p)
        (λ _ _ x b p. contains-enqueue_mono t x b.queue p)
        (λ _ x b p. contains-enqueue_mono t x b.queue p) k bound memory u held going base a h

  -- No address leaves the list of sites in a walk, or the list of valid addresses.
  pub survey-contains_site :
      (t : ℕ)
      → contains t a.sites ≡ true
      → contains t (survey d k bound memory u held going base a).found.sites ≡ true
  survey-contains_site t h =
      survey_rule d (λ _ b. contains t b.sites ≡ true) (λ _ _ p. p)
        (λ _ _ v b p. contains-enqueue_mono t (d.insn_ptr v) b.sites p) (λ _ _ _ _ p. p)
        (λ _ _ _ p. p) k bound memory u held going base a h

  pub survey-contains_valid :
      (t : ℕ)
      → contains t a.valid ≡ true
      → contains t (survey d k bound memory u held going base a).found.valid ≡ true
  survey-contains_valid t h =
      survey_rule d (λ _ b. contains t b.valid ≡ true) (λ _ _ p. p) (λ _ _ _ _ p. p)
        (λ _ x _ b p. contains-enqueue_mono t x b.valid p) (λ _ _ _ p. p) k bound memory u held
        going base a h
