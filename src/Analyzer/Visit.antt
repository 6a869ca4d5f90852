-- ===== src/Analyzer/Visit.antt =====
-- One round of the `switch` of `printDis`, of elf/libaddr.cc: what it adds to what was found.
use counter_rop.Common.{
  ℕ, suc, ◌≡◌, refl, Bool, true, false, ◌∙◌, sym, subst, arith, if◌then◌else◌, ◌||◌, Bool-cases,
  inl, inr, true≢false,
}
use counter_rop.Common.Word.{add64}
use counter_rop.Common.Outcome.{Returns, returns, Returns-bind, pure, ◌>>◌}
use counter_rop.Analyzer.{poke, Analyzer}
use counter_rop.Analyzer.Armed.{IsSite}
use counter_rop.Analyzer.PrintDis.{Locals, arm, call_kind, jump_kind, visit_call, visit_jump, visit}
use counter_rop.Analyzer.Trap.{System, trap_byte, operand_offset}
use counter_rop.Analyzer.Udis.{
  Disassembler, Mnemonic, icall, ijmp, iret, other_mnemonic, OperandType, op_mem, op_reg,
}
use counter_rop.Analyzer.Effect.{
  Discovered, Holds, Holds-weaken, Kept, Kept-trans, arm-Holds, arms, arms_at, calls_to,
  going_after, is_mem, is_mem_or_reg, jumps_to, offset_after, queue-Holds, same, valid-Holds,
}

-- No operand was seen before this instruction.
abbrev pub IsClear : Locals → Type 0
IsClear v = (v.mem_flag ≡ false) × (v.reg_flag ≡ false)

call_mem : (k : OperandType) (v : Locals) → IsClear v → (call_kind k v).mem_flag ≡ is_mem k
call_mem op_mem v h = refl
call_mem _ v h = h.0

call_reg : (k : OperandType) (v : Locals) → IsClear v → (call_kind k v).reg_flag ≡ false
call_reg op_mem v h = h.1
call_reg _ v h = h.1

jump_flags :
    (k : OperandType) (v : Locals)
    → IsClear v
    → ((jump_kind k v).mem_flag || (jump_kind k v).reg_flag) ≡ is_mem_or_reg k
jump_flags op_mem v h = refl
jump_flags op_reg v h = rw h.0 refl
jump_flags _ v h = rw (h.0, h.1) refl

call_offset : (k : OperandType) (v : Locals) → (call_kind k v).offset ≡ v.offset
call_offset op_mem v = refl
call_offset _ v = refl

jump_offset : (k : OperandType) (v : Locals) → (jump_kind k v).offset ≡ v.offset
jump_offset op_mem v = refl
jump_offset op_reg v = refl
jump_offset _ v = refl

call_going : (k : OperandType) (v : Locals) → (call_kind k v).break_flag ≡ v.break_flag
call_going op_mem v = refl
call_going _ v = refl

jump_going : (k : OperandType) (v : Locals) → (jump_kind k v).break_flag ≡ v.break_flag
jump_going op_mem v = refl
jump_going op_reg v = refl
jump_going _ v = refl

jump_passed :
    (k : OperandType) (v : Locals) → IsClear v → is_mem_or_reg k ≡ false → IsClear (jump_kind k v)
jump_passed op_mem v h e = absurd (true≢false e)
jump_passed op_reg v h e = absurd (true≢false e)
jump_passed _ v h e = h

module _ (d : Disassembler) where
  open d use {Ud, insn_ptr, insn_len, insn_opr}

  -- The address behind the instruction, and the one that a direct call or jump leads to.
  abbrev pub next_of : Ud → ℕ
  next_of u = add64 (insn_ptr u) (insn_len u)

  abbrev pub target_of : ℕ → Ud → ℕ
  target_of held u = add64 (next_of u) (operand_offset held (insn_opr u))

  -- What the instruction adds where it is no site.
  abbrev pub direct_effect : Mnemonic → ℕ → Ud → Discovered → Discovered
  direct_effect icall held u = calls_to (next_of u) (target_of held u)
  direct_effect iret held u = λ a. a
  direct_effect other_mnemonic held u = λ a. a
  direct_effect _ held u = jumps_to (target_of held u)

module _ (d : Disassembler) (sys : System) (orig : ℕ → ℕ)
    (sites : (u : d.Ud) → IsSite sys (d.insn_ptr u)) where
  open d use {Ud, insn_ptr, insn_opr}

  -- What one round of the `switch` leaves, at a site or not; `direct` is what the instruction adds where it
  -- is no site.
  abbrev pub Leaves :
      Bool
      → (Discovered → Discovered)
      → ℕ
      → Bool
      → Discovered
      → ℕ
      → Analyzer Ud
      → Locals × Analyzer Ud
      → Type 0
  Leaves armed direct offset going a n s (v', s') =
      Holds orig
        (if armed then arms (insn_ptr s.ud_obj) (s.memory (insn_ptr s.ud_obj)) a else direct a) n s'
      × IsClear v'
      × Kept (if armed then poke s.memory (insn_ptr s.ud_obj) trap_byte else s.memory) s s'
      × (v'.offset ≡ offset)
      × (v'.break_flag ≡ going)
      × (v'.base ≡ insn_ptr s.ud_obj)

  arms-Leaves :
      (n offset : ℕ) (going : Bool) (direct : Discovered → Discovered) (v' : Locals)
      (a : Discovered) (s : Analyzer Ud)
      → IsClear v'
      → v'.offset ≡ offset
      → v'.break_flag ≡ going
      → v'.base ≡ insn_ptr s.ud_obj
      → Holds orig a (suc (suc n)) s
      → Returns (Leaves true direct offset going a n s) ((arm sys (insn_ptr s.ud_obj) >> pure v') s)
  arms-Leaves n offset going direct v' a s clear same_offset same_going here h =
      Returns-bind (arm-Holds sys orig (suc n) (insn_ptr s.ud_obj) a s (sites s.ud_obj) h)
        (λ _ s' p. returns (
          Holds-weaken orig n (suc n) _ s' (omega arith) p.0,
          clear,
          p.1,
          same_offset,
          same_going,
          here,
        ))

  visit_call-Leaves :
      (n : ℕ) (v : Locals) (a : Discovered) (s : Analyzer Ud)
      → IsClear v
      → Holds orig a (suc (suc n)) s
      → Returns
          (Leaves
            (is_mem (insn_opr s.ud_obj).kind)
            (calls_to (next_of d s.ud_obj) (target_of d v.offset s.ud_obj))
            (operand_offset v.offset (insn_opr s.ud_obj))
            v.break_flag
            a
            n
            s)
          (visit_call d sys v s)
  unfolding visit_call
  visit_call-Leaves n v a s clear h =
      let k = (insn_opr s.ud_obj).kind in
      let offset = operand_offset v.offset (insn_opr s.ud_obj) in
      let direct = calls_to (next_of d s.ud_obj) (target_of d v.offset s.ud_obj) in
      let P : Bool → Locals × Analyzer Ud → Type 0 =
        λ armed. Leaves armed direct offset v.break_flag a n s in
      elim (Bool-cases (is_mem k)) [
        | inl mem ↦
            subst (λ b. Returns (P b) (visit_call d sys v s)) (sym mem)
              (rw (call_mem k v clear ∙ mem, call_offset k v)
                (arms-Leaves n offset v.break_flag direct
                  (record (call_kind k v) {
                    base = insn_ptr s.ud_obj;
                    offset = offset;
                    mem_flag = false;
                  })
                  a s (refl, call_reg k v clear) refl (call_going k v) refl h))
        | inr other ↦
            subst (λ b. Returns (P b) (visit_call d sys v s)) (sym other)
              (rw (call_mem k v clear ∙ other, call_offset k v)
                (Returns-bind (queue-Holds sys orig (suc n) (target_of d v.offset s.ud_obj) a s h)
                  (λ _ s₁ p₁.
                    Returns-bind
                      (valid-Holds sys orig n (next_of d s.ud_obj)
                        (jumps_to (target_of d v.offset s.ud_obj) a) s₁ p₁.0)
                      (λ _ s₂ p₂. returns (
                        p₂.0,
                        (refl, call_reg k v clear),
                        Kept-trans p₁.1 p₂.1,
                        refl,
                        call_going k v,
                        refl,
                      )))))
      ]

  visit_jump-Leaves :
      (n : ℕ) (v : Locals) (a : Discovered) (s : Analyzer Ud)
      → IsClear v
      → Holds orig a (suc (suc n)) s
      → Returns
          (Leaves
            (is_mem_or_reg (insn_opr s.ud_obj).kind)
            (jumps_to (target_of d v.offset s.ud_obj))
            (operand_offset v.offset (insn_opr s.ud_obj))
            v.break_flag
            a
            n
            s)
          (visit_jump d sys v s)
  unfolding visit_jump
  visit_jump-Leaves n v a s clear h =
      let k = (insn_opr s.ud_obj).kind in
      let offset = operand_offset v.offset (insn_opr s.ud_obj) in
      let direct = jumps_to (target_of d v.offset s.ud_obj) in
      let P : Bool → Locals × Analyzer Ud → Type 0 =
        λ armed. Leaves armed direct offset v.break_flag a n s in
      elim (Bool-cases (is_mem_or_reg k)) [
        | inl indirect ↦
            subst (λ b. Returns (P b) (visit_jump d sys v s)) (sym indirect)
              (rw (jump_flags k v clear ∙ indirect, jump_offset k v)
                (arms-Leaves n offset v.break_flag direct
                  (record (jump_kind k v) {
                    base = insn_ptr s.ud_obj;
                    offset = offset;
                    mem_flag = false;
                    reg_flag = false;
                  })
                  a s (refl, refl) refl (jump_going k v) refl h))
        | inr other ↦
            subst (λ b. Returns (P b) (visit_jump d sys v s)) (sym other)
              (rw (jump_flags k v clear ∙ other, jump_offset k v)
                (Returns-bind (queue-Holds sys orig (suc n) (target_of d v.offset s.ud_obj) a s h)
                  (λ _ s' p. returns (
                    Holds-weaken orig n (suc n) _ s' (omega arith) p.0,
                    jump_passed k v clear other,
                    p.1,
                    refl,
                    jump_going k v,
                    refl,
                  ))))
      ]

  pub visit-Leaves :
      (i : Mnemonic) (n : ℕ) (v : Locals) (a : Discovered) (s : Analyzer Ud)
      → IsClear v
      → v.base ≡ insn_ptr s.ud_obj
      → Holds orig a (suc (suc n)) s
      → Returns
          (Leaves
            (arms_at i (insn_opr s.ud_obj).kind)
            (direct_effect d i v.offset s.ud_obj)
            (offset_after i v.offset (insn_opr s.ud_obj))
            (going_after i v.break_flag)
            a
            n
            s)
          (visit d sys i v s)
  unfolding visit
  visit-Leaves icall n v a s clear at h = visit_call-Leaves n v a s clear h
  visit-Leaves ijmp n v a s clear at h =
      visit_jump-Leaves n (record v { break_flag = false }) a s clear h
  visit-Leaves iret n v a s clear at h = returns (
    Holds-weaken orig n (suc (suc n)) a s (omega arith) h,
    clear,
    same refl refl refl,
    refl,
    refl,
    at,
  )
  visit-Leaves other_mnemonic n v a s clear at h = returns (
    Holds-weaken orig n (suc (suc n)) a s (omega arith) h,
    clear,
    same refl refl refl,
    refl,
    refl,
    at,
  )
  visit-Leaves _ n v a s clear at h = visit_jump-Leaves n v a s clear h
