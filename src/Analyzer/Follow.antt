-- ===== src/Analyzer/Follow.antt =====
-- The loop of `printDis`, of elf/libaddr.cc, follows the survey of the same instructions.
use counter_rop.Common.{
  ℕ, zero, suc, ◌+◌, ◌*◌, ◌<◌, ◌≡◌, ◌≢◌, refl, Bool, true, false, arith, ◌==◌, ==→ne, if◌then◌else◌,
  Bool-cases, inl, inr, subst, sym, ◌∙◌, true≢false,
}
use counter_rop.Common.Word.{slt}
use counter_rop.Common.Outcome.{ok, ◌>>=◌, Returns, returns, Returns-bind}
use counter_rop.Analyzer.{Analyzer}
use counter_rop.Analyzer.Armed.{IsSite}
use counter_rop.Analyzer.Effect.{
  Discovered, Holds, Holds-weaken, Holds-ud, offset_after, going_after,
}
use counter_rop.Analyzer.Visit.{IsClear, visit-Leaves}
use counter_rop.Analyzer.PrintDis.{Locals, is_ret, visit, dis_loop}
use counter_rop.Analyzer.Trap.{System}
use counter_rop.Analyzer.Udis.{Disassembler}
use counter_rop.Analyzer.Survey.{
  Surveyed, surveyed, survey, stops, found_at, memory_after, stopped_at,
}

all_false :
    (a b c : Bool)
    → (if a then true else if b then true else c) ≡ false
    → (a ≡ false) × ((b ≡ false) × (c ≡ false))
all_false true b c h = absurd (true≢false h)
all_false false true c h = absurd (true≢false h)
all_false false false c h = (refl, (refl, h))

module _ (d : Disassembler) (sys : System) (orig : ℕ → ℕ)
    (sites : (u : d.Ud) → IsSite sys (d.insn_ptr u)) where
  open d use {Ud, disassemble, insn_ptr, insn_mnemonic, insn_opr, remaining}

  -- The state behind the loop is the one that the survey tells of.
  pub record Follows (n : ℕ) (r : Surveyed d) (v : Locals) (s : Analyzer Ud) : Type 0 where
    pub holds : Holds orig r.found n s
    pub memory_is : s.memory ≡ r.memory
    pub ud_is : s.ud_obj ≡ r.ud
    pub base_is : v.base ≡ r.last

  -- The survey of a state.
  abbrev pub survey_of : ℕ → Locals → Discovered → Analyzer Ud → Surveyed d
  survey_of k v a s = survey d k s.bound_val s.memory s.ud_obj v.offset v.break_flag v.base a

  -- The rest of the walk, where the parts that it goes by are known.
  survey-same :
      (k : ℕ) (v : Locals) (a : Discovered) (s : Analyzer Ud) (bound : ℕ) (memory : ℕ → ℕ) (u : Ud)
      (held : ℕ) (going : Bool) (base : ℕ)
      → s.bound_val ≡ bound
      → s.memory ≡ memory
      → s.ud_obj ≡ u
      → v.offset ≡ held
      → v.break_flag ≡ going
      → v.base ≡ base
      → survey_of k v a s ≡ survey d k bound memory u held going base a
  survey-same k v a s bound memory u held going base e₁ e₂ e₃ e₄ e₅ e₆ =
      λ i. survey d k (e₁ i) (e₂ i) (e₃ i) (e₄ i) (e₅ i) (e₆ i) a

  fuel_left :
      (k : ℕ) (s : Analyzer Ud) (u : Ud)
      → (disassemble s.memory s.ud_obj).0 ≢ 0
      → remaining s.ud_obj < suc k
      → u ≡ (disassemble s.memory s.ud_obj).1
      → remaining u < k
  fuel_left k s u more fuel same =
      rw same (omega (arith, d.remaining-disassemble s.memory s.ud_obj more))

  -- What the rest of the walk finds.
  abbrev rest_of : ℕ → Locals → Discovered → Analyzer Ud → Surveyed d
  rest_of k v a s =
      let u = (disassemble s.memory s.ud_obj).1 in
      let i = insn_mnemonic u in
      survey d k s.bound_val (memory_after d i s.memory u) u (offset_after i v.offset (insn_opr u))
        (going_after i v.break_flag) (insn_ptr u) (found_at d i s.memory v.offset u a)

  abbrev moved : Analyzer Ud → Analyzer Ud
  moved s = record s { ud_obj = (disassemble s.memory s.ud_obj).1 }

  abbrev next_locals : Locals → Ud → Locals
  next_locals v u = record v { prev_base = v.base; base = insn_ptr u }

  abbrev stops_at : Analyzer Ud → Bool
  stops_at s =
      stops d (disassemble s.memory s.ud_obj).0 s.bound_val (disassemble s.memory s.ud_obj).1

  -- A round that goes on, and one that does not.
  survey_on :
      (k : ℕ) (v : Locals) (a : Discovered) (s : Analyzer Ud)
      → v.break_flag ≡ true
      → stops_at s ≡ false
      → survey_of (suc k) v a s ≡ rest_of k v a s
  unfolding survey
  survey_on k v a s on further = rw (on, further) refl

  survey-stops :
      (k : ℕ) (v : Locals) (a : Discovered) (s : Analyzer Ud)
      → v.break_flag ≡ true
      → stops_at s ≡ true
      → survey_of (suc k) v a s
        ≡ surveyed d a s.memory
            (moved s).ud_obj
            (stopped_at d (disassemble s.memory s.ud_obj).0 (moved s).ud_obj v.base)
  unfolding survey
  survey-stops k v a s on stopped = rw (on, stopped) refl

  survey_left :
      (k : ℕ) (v : Locals) (a : Discovered) (s : Analyzer Ud)
      → v.break_flag ≡ false
      → survey_of (suc k) v a s ≡ surveyed d a s.memory s.ud_obj v.base
  unfolding survey
  survey_left k v a s off = rw off refl

  round_on :
      (k : ℕ) (v : Locals) (s : Analyzer Ud)
      → v.break_flag ≡ true
      → stops_at s ≡ false
      → dis_loop d sys (suc k) v s
        ≡ (visit d sys (insn_mnemonic (moved s).ud_obj) (next_locals v (moved s).ud_obj) >>= λ v'.
              dis_loop d sys k v')
            (moved s)
  unfolding dis_loop
  round_on k v s going further =
      let (some_size, (within, on)) =
        all_false ((disassemble s.memory s.ud_obj).0 == 0)
          (slt s.bound_val (insn_ptr (moved s).ud_obj)) _ further in
      rw (going, some_size, within, on) refl

  -- Where the walk stops, the state is the same but for the disassembler.
  round_stops :
      (k : ℕ) (v : Locals) (s : Analyzer Ud) (P : Locals × Analyzer Ud → Type 0)
      → v.break_flag ≡ true
      → stops_at s ≡ true
      → ((v' : Locals)
          → v'.base ≡ stopped_at d (disassemble s.memory s.ud_obj).0 (moved s).ud_obj v.base
          → P (v', moved s))
      → Returns P (dis_loop d sys (suc k) v s)
  unfolding dis_loop
  round_stops k v s P going stopped leave =
      let size = (disassemble s.memory s.ud_obj).0 in
      let u = (moved s).ud_obj in
      elim (Bool-cases (size == 0)) [
        | inl last ↦ rw (going, last) (returns (leave _ (rw last refl)))
        | inr more ↦ elim (Bool-cases (slt s.bound_val (insn_ptr u))) [
          | inl out ↦ rw (going, more, out) (returns (leave _ (rw more refl)))
          | inr within ↦
              let ret : is_ret (insn_mnemonic u) ≡ true = sym (rw (more, within) refl) ∙ stopped in
              rw (going, more, within, ret) (returns (leave _ (rw more refl)))
        ]
      ]

  round_left :
      (k : ℕ) (v : Locals) (s : Analyzer Ud)
      → v.break_flag ≡ false
      → dis_loop d sys (suc k) v s ≡ ok (v, s)
  unfolding dis_loop
  round_left k v s off = rw off refl

  -- From a state that holds what was found so far, with memory for two insertions a round, the loop of
  -- `printDis` ends: if each instruction that the disassembler names stands at an address below
  -- 2 ^ 56, not 0, in a page that can be made writable, and the rounds are more than the bytes that
  -- are left in the input buffer, then the queue, the list of valid addresses, the list of sites and the
  -- table of their bytes hold afterwards what the survey of the same instructions finds, and memory, the
  -- disassembler and the variable `base` are what it says.
  pub dis_loop-survey :
      (k n : ℕ) (v : Locals) (a : Discovered) (s : Analyzer Ud)
      → IsClear v
      → remaining s.ud_obj < k
      → Holds orig a (n + 2 * k) s
      → Returns (λ (v', s'). Follows n (survey_of k v a s) v' s') (dis_loop d sys k v s)
  dis_loop-survey zero n v a s clear fuel h = absurd (omega arith)
  dis_loop-survey (suc k) n v a s clear fuel h =
      let u = (disassemble s.memory s.ud_obj).1 in
      let size = (disassemble s.memory s.ud_obj).0 in
      let i = insn_mnemonic u in
      let m = n + 2 * suc k in
      let h₀ = Holds-weaken orig n m a s (omega arith) h in
      let h₁ =
        Holds-ud orig (suc (suc (n + 2 * k))) a s u
          (Holds-weaken orig (suc (suc (n + 2 * k))) m a s (omega arith) h) in
      elim (Bool-cases v.break_flag) [
        | inr off ↦ rw (survey_left k v a s off) (
            subst (Returns _) (sym (round_left k v s off))
              (returns (record { holds = h₀; memory_is = refl; ud_is = refl; base_is = refl })))
        | inl going ↦ elim (Bool-cases (stops_at s)) [
          | inl stopped ↦ rw (survey-stops k v a s going stopped) (
              round_stops k v s _ going stopped (λ v' e. record {
                holds = Holds-ud orig n a s u h₀;
                memory_is = refl;
                ud_is = refl;
                base_is = e;
              }))
          | inr further ↦
              let more : size ≢ 0 =
                ==→ne size 0
                  (all_false (size == 0) (slt s.bound_val (insn_ptr u)) (is_ret i) further).0 in
              subst (λ z. Returns (λ (v', s'). Follows n z v' s') (dis_loop d sys (suc k) v s))
                (sym (survey_on k v a s going further))
                (subst (Returns (λ (v', s'). Follows n (rest_of k v a s) v' s'))
                  (sym (round_on k v s going further))
                  (Returns-bind
                    (visit-Leaves d sys orig sites i (n + 2 * k) (next_locals v u) a (moved s) clear
                      refl h₁)
                    (λ v₁ s₁ (holds, clear', kept, off, go, at).
                      let a₁ = found_at d i s.memory v.offset u a in
                      subst (λ z. Returns (λ (v', s'). Follows n z v' s') (dis_loop d sys k v₁ s₁))
                        (survey-same k v₁ a₁ s₁ s.bound_val (memory_after d i s.memory u) u
                          (offset_after i v.offset (insn_opr u)) (going_after i v.break_flag)
                          (insn_ptr u) kept.bound_is kept.memory_is kept.ud_is off go at)
                        (dis_loop-survey k n v₁ a₁ s₁ clear'
                          (fuel_left k s s₁.ud_obj more fuel kept.ud_is) holds))))
        ]
      ]
