-- ===== src/Analyzer/Target.antt =====
-- `trap_handler` of data/trap/trap.c when the queue is empty: where the call or jump leads is analysed.
use counter_rop.Common.{
  ℕ, suc, ◌+◌, ◌-◌, ◌*◌, ◌<◌, ◌≤◌, ◌≡◌, ◌≢◌, refl, true, false, some, [], sym, subst, inl, inr,
  arith,
}
use counter_rop.Common.Outcome.{Returns, returns, Returns-bind}
use counter_rop.LinkedList.{LinkedList, list_insert}
use counter_rop.LinkedList.Chain.{Stores, contains}
use counter_rop.BoundTree.Measure.{uncovered}
use counter_rop.Analyzer.{Analyzer, on_address_list}
use counter_rop.Analyzer.Armed.{IsSite}
use counter_rop.Analyzer.Ends.{Drained, drain-Drained, only, queue_first-Ready}
use counter_rop.Analyzer.Found.{
  IsIndirect, Ready-restored, Drained-flag, looked_at, target_queued, handler_runs,
}
use counter_rop.Analyzer.Handler.{trap_handler, load_bytes, resolve}
use counter_rop.Analyzer.Ready.{View, ReadyAs}
use counter_rop.Analyzer.Recover.{trap_address}
use counter_rop.Analyzer.Trap.{
  System, get_address, address_of, get_register, memory_address, operand_offset,
}
use counter_rop.Analyzer.Udis.{Disassembler, OperandType, op_mem}

module _ (d : Disassembler) (sys : System) (garbage : ℕ) (orig : ℕ → ℕ) where
  -- Where a call or jump through memory or a register leads: to the eight bytes at the operand's address,
  -- or to what the register holds.
  abbrev pub leads_to : OperandType → Analyzer d.Ud → ℕ
  leads_to op_mem s =
      load_bytes 8 s.memory
        (memory_address garbage (d.insn_len s.ud_obj) (d.insn_opr s.ud_obj) s.registers)
  leads_to _ s = get_register (d.insn_opr s.ud_obj).base s.registers

  abbrev pub target : Analyzer d.Ud → ℕ
  target s = leads_to (d.insn_opr s.ud_obj).kind s

  pub target_runs :
      (s : Analyzer d.Ud)
      → IsIndirect (d.insn_opr s.ud_obj)
      → s.reg_flag ≡ false
      → target_queued d sys garbage orig s ≡ on_address_list (list_insert (target s)) s
  unfolding get_address address_of resolve memory_address operand_offset
  target_runs s (inl e) free = rw (e, free) refl
  target_runs s (inr e) free = rw (e, free) refl

module _ (d : Disassembler) (sys : System) (garbage : ℕ) (orig : ℕ → ℕ)
    (sites : (u : d.Ud) → IsSite sys (d.insn_ptr u)) where
  -- From a well-formed state with an empty queue in which the program is recoverable and no trap is being
  -- handled: if each instruction that the disassembler names stands at an address below 2 ^ 56, not 0,
  -- in a page that can be made writable, if a SIGTRAP comes from a trap byte that the analyser set, at
  -- an instruction with an operand in memory or in a register that leads to an address other than 0,
  -- and there is memory for one insertion and for 203 more for each address that no range holds, and
  -- more rounds than 203 for each such address and one, then `trap_handler` ends: no read or write goes
  -- wrong and the process does not exit. Afterwards a range holds the address to which the call or jump
  -- leads, and each address that a range held before; the program is recoverable, and the lists and the
  -- tree are well formed.
  pub trap_handler-covers :
      (n u rounds : ℕ) (w : View) (q : LinkedList) (s : Analyzer d.Ud)
      → (h : ReadyAs sys orig w (suc (n + 203 * u)) s) → s.address_list ≡ some q
      → Stores q []
      → n + 203 * u < q.heap.room
      → uncovered w.shape ≤ u
      → 203 * u + 1 < rounds
      → s.trap_flag ≡ 0
      → s.reg_flag ≡ false
      → contains (trap_address s) h.program.sites ≡ true
      → IsIndirect (d.insn_opr (looked_at d sys garbage orig s).ud_obj)
      → target d sys garbage orig (looked_at d sys garbage orig s) ≢ 0
      → Returns
          (λ (_, s').
            Drained sys orig
              (only
                (n + 203 * u)
                (target d sys garbage orig (looked_at d sys garbage orig s))
                w.shape)
              n
              s')
          (trap_handler d sys garbage rounds true s)
  trap_handler-covers n u rounds w q s h there empty room enough fuel idle free member indirect ne =
      let m = n + 203 * u in
      let s' = looked_at d sys garbage orig s in
      let a = target d sys garbage orig s' in
      let v = only m a w.shape in
      let ready = Ready-restored sys orig w (suc m) s (trap_address s) h in
      let queued : Returns (λ (_, s'). ReadyAs sys orig v m s')
          (target_queued d sys garbage orig s') =
        subst (Returns (λ (_, s'). ReadyAs sys orig v m s'))
          (sym (target_runs d sys garbage orig s' indirect free))
          (queue_first-Ready sys orig w m a q s' ready there empty room) in
      subst (Returns (λ (_, s'). Drained sys orig v n s'))
        (sym (handler_runs d sys garbage orig sites w (suc m) rounds s h idle member))
        (Returns-bind queued (λ _ s₁ h₁.
          Returns-bind
            (drain-Drained d sys orig sites rounds n u garbage v s₁ h₁ enough (omega arith)
              (ne, tt))
            (λ _ s₂ r. returns (Drained-flag sys orig v n s₂ (s₂.trap_flag - 1) r))))
