-- ===== src/Analyzer/Sound.antt =====
-- Where the sites that the walk of `printDis`, of elf/libaddr.cc, lists come from.
use counter_rop.Common.{
  ℕ, zero, suc, ◌≡◌, refl, Bool, true, false, ◌⊎◌, inl, inr, ◌==◌, Bool-cases, ==→eq, sym, ap, ◌∙◌,
  arith,
}
use counter_rop.LinkedList.Chain.{contains}
use counter_rop.LinkedList.Queue.{contains-enqueue}
use counter_rop.BoundTree.Measure.{within, accepts-graft-within}
use counter_rop.BoundTree.Refine.{accepts}
use counter_rop.Analyzer.Effect.{Discovered, arms_at, offset_after, going_after}
use counter_rop.Analyzer.Survey.{Surveyed, survey, found_at, memory_after}
use counter_rop.Analyzer.Complete.{IsWalked}
use counter_rop.Analyzer.Survey
use counter_rop.Analyzer.Udis.{Disassembler}
use counter_rop.Analyzer.Visited.{IsVisited, first, later, survey_further, direct_sites}
use counter_rop.Analyzer.Worklist.{
  World, Explores, stops, passes, walks, bound_at, next_address, popped, walk,
}

module _ (d : Disassembler) where
  -- A call through memory, or a jump through memory or a register.
  abbrev pub IsArmed : d.Ud → Type 0
  IsArmed v = arms_at (d.insn_mnemonic v) (d.insn_opr v).kind ≡ true

  visit_site :
      (memory : ℕ → ℕ) (held : ℕ) (u : d.Ud) (a : Discovered) (x : ℕ)
      → contains x (found_at d (d.insn_mnemonic u) memory held u a).sites ≡ true
      → (contains x a.sites ≡ true) ⊎ (IsArmed u × (x ≡ d.insn_ptr u))
  visit_site memory held u a x h =
      elim (Bool-cases (arms_at (d.insn_mnemonic u) (d.insn_opr u).kind)) [
        | inl site ↦ elim (Bool-cases (d.insn_ptr u == x)) [
          | inl here ↦ inr (site, sym (==→eq (d.insn_ptr u) x here))
          | inr other ↦ inl (ground (arith, site, contains-enqueue x (d.insn_ptr u) a.sites))
        ]
        | inr direct ↦
            inl
              (sym (ap (contains x) (rw direct (direct_sites d (d.insn_mnemonic u) held u a))) ∙ h)
      ]

  -- Each site behind a walk was one before, or stands at a call through memory or a jump through memory
  -- or a register that the walk looked at.
  pub survey_site :
      (k bound : ℕ) (memory : ℕ → ℕ) (u : d.Ud) (held : ℕ) (going : Bool) (base : ℕ)
      (a : Discovered) (x : ℕ)
      → contains x (survey d k bound memory u held going base a).found.sites ≡ true
      → (contains x a.sites ≡ true)
        ⊎ ((v : d.Ud) × (h : ℕ) × IsVisited d v h k bound memory u held going
            × IsArmed v
            × (x ≡ d.insn_ptr v))
  unfolding survey
  survey_site zero bound memory u held going base a x h = inl h
  survey_site (suc k) bound memory u held false base a x h = inl h
  survey_site (suc k) bound memory u held true base a x h =
      let u' = (d.disassemble memory u).1 in
      let i = d.insn_mnemonic u' in
      elim (Bool-cases (Survey.stops d (d.disassemble memory u).0 bound u')) [
        | inl stopped ↦ inl (rw stopped at h)
        | inr further ↦
            elim (survey_site k bound (memory_after d i memory u') u'
              (offset_after i held (d.insn_opr u')) (going_after i true) (d.insn_ptr u')
              (found_at d i memory held u' a) x
              (sym (
                  ap (λ r. contains x r.found.sites)
                    (survey_further d k bound memory u held base a further))
                ∙ h)) [
                  | inl old ↦ elim (visit_site memory held u' a x old) [
                    | inl before ↦ inl before
                    | inr (armed, here) ↦ inr (u', held, first further refl refl, armed, here)
                  ]
                  | inr (v, g, visited, armed, here) ↦
                      inr (v, g, later further visited, armed, here)
                ]
      ]

module _ (d : Disassembler) (garbage : ℕ) where
  -- A site of one of the walks of a run.
  abbrev pub IsFoundSite : ℕ → {a b : World d} → Explores d garbage a b → Type 0
  IsFoundSite x e =
      (v : d.Ud) × (h : ℕ) × IsWalked d garbage v h e × IsArmed d v × (x ≡ d.insn_ptr v)

  -- An address between the beginning of a walk of the run and the last instruction that it looked at.
  abbrev pub IsPassed : ℕ → {a b : World d} → Explores d garbage a b → Type 0
  IsPassed y (stops e) = ⊥
  IsPassed y (passes ne held e) = IsPassed y e
  IsPassed y (walks {a} at ne free full e) =
      (within (next_address d garbage a) (walk d garbage a).last y ≡ true) ⊎ IsPassed y e

  -- The ranges of a run are those of its walks.
  pub Explores_range :
      {a b : World d} (y : ℕ) (e : Explores d garbage a b)
      → accepts b.shape y ≡ false
      → (accepts a.shape y ≡ false) ⊎ IsPassed y e
  Explores_range y (stops last) h = inl h
  Explores_range y (passes ne held e) h = Explores_range y e h
  Explores_range y (walks {a} at ne free full e) h = elim (Explores_range y e h) [
    | inr passed ↦ inr (inr passed)
    | inl now ↦
        elim (accepts-graft-within a.shape at (next_address d garbage a) (walk d garbage a).last y
          now) [ inl old ↦ inl old | inr inside ↦ inr (inl inside) ]
  ]

  -- Each site of a run was one before, or stands at a call or jump that one of its walks looked at.
  pub Explores_site :
      {a b : World d} (x : ℕ) (e : Explores d garbage a b)
      → contains x b.found.sites ≡ true
      → (contains x a.found.sites ≡ true) ⊎ IsFoundSite x e
  Explores_site x (stops last) m = inl m
  Explores_site x (passes ne held e) m = Explores_site x e m
  Explores_site x (walks {a} at ne free full e) m = elim (Explores_site x e m) [
    | inr (v, h, walked, armed, here) ↦ inr (v, h, inr walked, armed, here)
    | inl found ↦
        let y = next_address d garbage a in
        elim (survey_site d 101 (bound_at a.shape y) a.memory (d.set_input_buffer y 100 a.ud)
          garbage true y (popped d garbage a).found x found) [
            | inl old ↦ inl old
            | inr (v, h, visited, armed, here) ↦ inr (v, h, inl visited, armed, here)
          ]
  ]
