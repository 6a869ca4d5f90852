-- ===== src/Analyzer/Refuse.antt =====
-- Where `trap_handler` of data/trap/trap.c ends the process.
use counter_rop.Common.{
  ℕ, suc, ◌+◌, ◌*◌, ◌≡◌, refl, true, false, Bool-cases, ◌⊎◌, inl, inr, true≢false, sym, ◌∙◌,
}
use counter_rop.Common.Outcome.{exits, IsSafe}
use counter_rop.LinkedList.Chain.{contains}
use counter_rop.Analyzer.{Analyzer}
use counter_rop.Analyzer.Armed.{IsSite}
use counter_rop.Analyzer.Effect.{is_mem_or_reg}
use counter_rop.Analyzer.Found.{
  is_zero, IsIndirect, looked_at, go_on, handler_runs, trap_handler-Ready,
}
use counter_rop.Analyzer.Handler.{trap_handler, first_trap}
use counter_rop.Analyzer.Ready.{Ready}
use counter_rop.Analyzer.Recover.{trap_address}
use counter_rop.Analyzer.Trap.{System, get_address, address_of}
use counter_rop.Analyzer.Udis.{Disassembler, Operand, OperandType, op_mem, op_reg}

module _ (d : Disassembler) (sys : System) (garbage : ℕ) (orig : ℕ → ℕ) where
  address_exits :
      (k : OperandType) (opr : Operand) (s : Analyzer d.Ud)
      → is_mem_or_reg k ≡ false
      → address_of d garbage k opr s ≡ exits 2
  unfolding address_of
  address_exits op_mem opr s e = absurd (true≢false e)
  address_exits op_reg opr s e = absurd (true≢false e)
  address_exits _ opr s e = refl

  is_indirect : (k : OperandType) → is_mem_or_reg k ≡ true → (k ≡ op_mem) ⊎ (k ≡ op_reg)
  is_indirect op_mem e = inl refl
  is_indirect op_reg e = inr refl
  is_indirect _ e = absurd (true≢false (sym e))

  not-IsIndirect : (opr : Operand) → is_mem_or_reg opr.kind ≡ false → ¬ IsIndirect opr
  not-IsIndirect opr e (inl mem) = cc
  not-IsIndirect opr e (inr reg) = cc

  go_on-exits :
      (rounds : ℕ) (s : Analyzer d.Ud)
      → is_mem_or_reg (d.insn_opr s.ud_obj).kind ≡ false
      → go_on d sys garbage orig rounds s ≡ exits 2
  unfolding get_address
  go_on-exits rounds s e =
      rw (address_exits (d.insn_opr s.ud_obj).kind (d.insn_opr s.ud_obj) s e) refl

module _ (d : Disassembler) (sys : System) (garbage : ℕ) (orig : ℕ → ℕ)
    (sites : (u : d.Ud) → IsSite sys (d.insn_ptr u)) where
  -- From a well-formed state in which the program is recoverable and no trap is being handled: let each
  -- instruction that the disassembler names stand at an address below 2 ^ 56, not 0, in a page that can
  -- be made writable, let a trap come from a site, and let each structure have memory for one insertion
  -- and 203 more a round. Look at the instruction that stands at the site when its original byte is put
  -- back. If its operand is in memory or in a register, `trap_handler` ends or is still emptying the
  -- queue after the rounds it was given, no read or write goes wrong and the process does not exit, and
  -- the state is well formed when it ends; otherwise it ends the process with status 2. At another
  -- signal than SIGTRAP it always ends the process with status 2.
  pub trap_handler-decides :
      (n rounds : ℕ) (s : Analyzer d.Ud) (h : Ready sys orig (suc (n + 203 * rounds)) s)
      → s.trap_flag ≡ 0
      → contains (trap_address s) h.1.program.sites ≡ true
      → (IsIndirect (d.insn_opr (looked_at d sys garbage orig s).ud_obj)
            × IsSafe (λ (_, s'). Ready sys orig n s') (trap_handler d sys garbage rounds true s)
          ⊎ ¬ IsIndirect (d.insn_opr (looked_at d sys garbage orig s).ud_obj)
            × (trap_handler d sys garbage rounds true s ≡ exits 2))
        × (trap_handler d sys garbage rounds false s ≡ exits 2)
  unfolding trap_handler first_trap
  trap_handler-decides n rounds s (w, h) idle member =
      let opr = d.insn_opr (looked_at d sys garbage orig s).ud_obj in
      (
        elim (Bool-cases (is_mem_or_reg opr.kind)) [
          | inl indirect ↦
              let i = is_indirect d sys garbage orig opr.kind indirect in
              inl (i, trap_handler-Ready d sys garbage orig sites n rounds s (w, h) idle member i)
          | inr direct ↦ inr (
            not-IsIndirect d sys garbage orig opr direct,
            handler_runs d sys garbage orig sites w (suc (n + 203 * rounds)) rounds s h idle member
                ∙ go_on-exits d sys garbage orig rounds (looked_at d sys garbage orig s) direct,
          )
        ],
        rw (is_zero s.trap_flag idle) refl,
      )
