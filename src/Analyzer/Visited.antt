-- ===== src/Analyzer/Visited.antt =====
-- The instructions that the walk of `printDis`, of elf/libaddr.cc, looks at, and what becomes of them.
use counter_rop.Common.{
  ℕ, zero, suc, ◌≡◌, refl, Bool, true, false, inl, inr, List, ◌==◌, Bool-cases, sym, subst,
  true≢false, arith,
}
use counter_rop.LinkedList.Chain.{contains}
use counter_rop.LinkedList.Queue.{enqueue, contains-enqueue}
use counter_rop.Analyzer.{poke}
use counter_rop.Analyzer.Effect.{Discovered, arms_at, offset_after, going_after}
use counter_rop.Analyzer.Rule.{
  contains-enqueue_self, survey-contains, survey-contains_site, survey-contains_valid,
}
use counter_rop.Analyzer.Survey.{survey, stops, found_at, memory_after}
use counter_rop.Analyzer.Trap.{trap_byte}
use counter_rop.Analyzer.Udis.{Disassembler, Mnemonic, icall, iret, other_mnemonic}
use counter_rop.Analyzer.Visit.{direct_effect, next_of, target_of}

-- A call or a jump that is no site, and a call of this kind.
abbrev pub is_branch : Mnemonic → Bool
is_branch iret = false
is_branch other_mnemonic = false
is_branch _ = true

abbrev pub is_call : Mnemonic → Bool
is_call icall = true
is_call _ = false

-- Each listed site has a trap byte in memory, but for those in `out`.
abbrev pub AllTrapped : List ℕ → (ℕ → ℕ) → List ℕ → Type 0
AllTrapped out memory xs =
    (x : ℕ) → contains x out ≡ false → contains x xs ≡ true → memory x ≡ trap_byte

module _ (d : Disassembler) where
  -- The walk looks at the instruction `v`, where the variable `offset` is `h`.
  pub data IsVisited (v : d.Ud) (h : ℕ) : ℕ → ℕ → (ℕ → ℕ) → d.Ud → ℕ → Bool → Type 0 where
    first :
        {k bound : ℕ} {memory : ℕ → ℕ} {u : d.Ud} {held : ℕ}
        → stops d (d.disassemble memory u).0 bound (d.disassemble memory u).1 ≡ false
        → v ≡ (d.disassemble memory u).1
        → h ≡ held
        → IsVisited v h (suc k) bound memory u held true
    later :
        {k bound : ℕ} {memory : ℕ → ℕ} {u : d.Ud} {held : ℕ}
        → stops d (d.disassemble memory u).0 bound (d.disassemble memory u).1 ≡ false
        → IsVisited v h k bound
            (memory_after d
              (d.insn_mnemonic (d.disassemble memory u).1)
              memory
              (d.disassemble memory u).1)
            (d.disassemble memory u).1
            (offset_after
              (d.insn_mnemonic (d.disassemble memory u).1)
              held
              (d.insn_opr (d.disassemble memory u).1))
            (going_after (d.insn_mnemonic (d.disassemble memory u).1) true)
        → IsVisited v h (suc k) bound memory u held true

  -- What the instruction leaves, as one record.
  pub record Handled (v : d.Ud) (h : ℕ) (a : Discovered) : Type 0 where
    pub site :
        arms_at (d.insn_mnemonic v) (d.insn_opr v).kind ≡ true
        → contains (d.insn_ptr v) a.sites ≡ true
    pub target :
        arms_at (d.insn_mnemonic v) (d.insn_opr v).kind ≡ false
        → is_branch (d.insn_mnemonic v) ≡ true
        → contains (target_of d h v) a.queue ≡ true
    pub next :
        arms_at (d.insn_mnemonic v) (d.insn_opr v).kind ≡ false
        → is_call (d.insn_mnemonic v) ≡ true
        → contains (next_of d v) a.valid ≡ true

  Handled-first :
      (memory : ℕ → ℕ) (v : d.Ud) (h : ℕ) (a : Discovered)
      → Handled v h (found_at d (d.insn_mnemonic v) memory h v a)
  Handled-first memory v h a = record {
    site = λ e. rw e (contains-enqueue_self (d.insn_ptr v) a.sites);
    target = λ e b. rw e (direct_target (d.insn_mnemonic v) v h a b);
    next = λ e c. rw e (direct_next (d.insn_mnemonic v) v h a c);
  }
    where
      direct_target :
          (i : Mnemonic) (v : d.Ud) (h : ℕ) (a : Discovered)
          → is_branch i ≡ true
          → contains (target_of d h v) (direct_effect d i h v a).queue ≡ true
      direct_target iret v h a b = absurd (true≢false (sym b))
      direct_target other_mnemonic v h a b = absurd (true≢false (sym b))
      direct_target _ v h a b = contains-enqueue_self (target_of d h v) a.queue

      direct_next :
          (i : Mnemonic) (v : d.Ud) (h : ℕ) (a : Discovered)
          → is_call i ≡ true
          → contains (next_of d v) (direct_effect d i h v a).valid ≡ true
      direct_next icall v h a c = contains-enqueue_self (next_of d v) a.valid
      direct_next _ v h a c = absurd (true≢false (sym c))

  -- What a walk handled stays handled in the rest of it.
  pub survey-keeps :
      (v : d.Ud) (h k bound : ℕ) (memory : ℕ → ℕ) (u : d.Ud) (held : ℕ) (going : Bool) (base : ℕ)
      (a : Discovered)
      → Handled v h a
      → Handled v h (survey d k bound memory u held going base a).found
  survey-keeps v h k bound memory u held going base a p = record {
    site = λ e. survey-contains_site d k bound memory u held going base a (d.insn_ptr v) (p.site e);
    target = λ e b.
        survey-contains d k bound memory u held going base a (target_of d h v) (p.target e b);
    next = λ e c.
        survey-contains_valid d k bound memory u held going base a (next_of d v) (p.next e c);
  }

  pub survey_further :
      (k bound : ℕ) (memory : ℕ → ℕ) (u : d.Ud) (held base : ℕ) (a : Discovered)
      → stops d (d.disassemble memory u).0 bound (d.disassemble memory u).1 ≡ false
      → (let u' = (d.disassemble memory u).1 in
          let i = d.insn_mnemonic u' in
          survey d (suc k) bound memory u held true base a
          ≡ survey d k bound
              (memory_after d i memory u')
              u'
              (offset_after i held (d.insn_opr u'))
              (going_after i true)
              (d.insn_ptr u')
              (found_at d i memory held u' a))
  unfolding survey
  survey_further k bound memory u held base a further = rw further refl

  pub survey-Handled :
      (v : d.Ud) (h k bound : ℕ) (memory : ℕ → ℕ) (u : d.Ud) (held : ℕ) (going : Bool) (base : ℕ)
      (a : Discovered)
      → IsVisited v h k bound memory u held going
      → Handled v h (survey d k bound memory u held going base a).found
  survey-Handled v h zero bound memory u held going base a x = elim x [ ]
  survey-Handled v h (suc k) bound memory u held false base a x = elim x [ ]
  survey-Handled v h (suc k) bound memory u held true base a (first further same at) =
      let u' = (d.disassemble memory u).1 in
      let i = d.insn_mnemonic u' in
      rw (survey_further k bound memory u held base a further) (
        survey-keeps v h k bound (memory_after d i memory u') u'
          (offset_after i held (d.insn_opr u')) (going_after i true) (d.insn_ptr u')
          (found_at d i memory held u' a)
          (subst (λ (w, g). Handled w g (found_at d i memory held u' a))
            (λ j. (sym same j, sym at j)) (Handled-first memory u' held a)))
  survey-Handled v h (suc k) bound memory u held true base a (later further rest) =
      let u' = (d.disassemble memory u).1 in
      let i = d.insn_mnemonic u' in
      rw (survey_further k bound memory u held base a further) (
        survey-Handled v h k bound (memory_after d i memory u') u'
          (offset_after i held (d.insn_opr u')) (going_after i true) (d.insn_ptr u')
          (found_at d i memory held u' a) rest)

  pub direct_sites :
      (i : Mnemonic) (held : ℕ) (u : d.Ud) (a : Discovered)
      → (direct_effect d i held u a).sites ≡ a.sites
  direct_sites icall held u a = refl
  direct_sites iret held u a = refl
  direct_sites other_mnemonic held u a = refl
  direct_sites _ held u a = refl

  visit-AllTrapped :
      (out : List ℕ) (i : Mnemonic) (memory : ℕ → ℕ) (held : ℕ) (u : d.Ud) (a : Discovered)
      → AllTrapped out memory a.sites
      → AllTrapped out (memory_after d i memory u) (found_at d i memory held u a).sites
  visit-AllTrapped out i memory held u a h = elim (Bool-cases (arms_at i (d.insn_opr u).kind)) [
    | inl site ↦ rw site armed
    | inr direct ↦ rw direct (subst (AllTrapped out memory) (sym (direct_sites i held u a)) h)
  ]
    where
      armed :
          (x : ℕ)
          → contains x out ≡ false
          → contains x (enqueue (d.insn_ptr u) a.sites) ≡ true
          → poke memory (d.insn_ptr u) trap_byte x ≡ trap_byte
      armed x inside listed = elim (Bool-cases (x == d.insn_ptr u)) [
        | inl here ↦ rw here refl
        | inr other ↦
            rw other (h x inside (ground (arith, contains-enqueue x (d.insn_ptr u) a.sites)))
      ]

  -- A walk leaves a trap byte at each site.
  pub survey-AllTrapped :
      (out : List ℕ) (k bound : ℕ) (memory : ℕ → ℕ) (u : d.Ud) (held : ℕ) (going : Bool) (base : ℕ)
      (a : Discovered)
      → AllTrapped out memory a.sites
      → AllTrapped out
          (survey d k bound memory u held going base a).memory
          (survey d k bound memory u held going base a).found.sites
  unfolding survey
  survey-AllTrapped out zero bound memory u held going base a h = h
  survey-AllTrapped out (suc k) bound memory u held going base a h =
      let u' = (d.disassemble memory u).1 in
      let i = d.insn_mnemonic u' in
      elim (Bool-cases going) [
        | inr off ↦ rw off h
        | inl on ↦ elim (Bool-cases (stops d (d.disassemble memory u).0 bound u')) [
          | inl stopped ↦ rw (on, stopped) h
          | inr further ↦
              rw (on, further)
                (survey-AllTrapped out k bound (memory_after d i memory u') u'
                  (offset_after i held (d.insn_opr u')) (going_after i true) (d.insn_ptr u')
                  (found_at d i memory held u' a) (visit-AllTrapped out i memory held u' a h))
        ]
      ]
