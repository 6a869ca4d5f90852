-- ===== src/Analyzer/Walk.antt =====
-- `printDis` of elf/libaddr.cc on a well-formed state of the analyser: each instruction, the loop, and
-- the range that is recorded at the end.
use counter_rop.Common.{
  ℕ, zero, suc, ◌+◌, ◌*◌, ◌<◌, ◌≤◌, ◌≡◌, ◌≢◌, ◌∙◌, ap, subst, refl, Bool, true, false, arith,
  if◌then◌else◌, ◌==◌, ==→ne, ◌||◌,
}
use counter_rop.Common.Word.{add64, slt}
use counter_rop.Common.Outcome.{
  Cmd, Returns, returns, Returns-bind, Returns-mono, pure, ◌>>=◌, ◌>>◌,
}
use counter_rop.LinkedList.{list_insert}
use counter_rop.Analyzer.{Analyzer, on_address_list, on_valid_address_list}
use counter_rop.Analyzer.Armed.{IsSite}
use counter_rop.Analyzer.PrintDis.{
  Locals, is_ret, arm, call_kind, jump_kind, visit_call, visit_jump, visit, dis_loop,
}
use counter_rop.Analyzer.Ready.{View, parts, ReadyAs, Ready-weaken, Keeps, Keeps-trans}
use counter_rop.Analyzer.Steps.{unchanged, queue-Ready, valid-Ready}
use counter_rop.Analyzer.Trap.{System, operand_offset}
use counter_rop.Analyzer.Udis.{Disassembler, Mnemonic, icall, ijmp, iret, other_mnemonic}
use counter_rop.Analyzer.Stays.{Gives, Gives-bind, Gives-pure, Gives-if, arm_and}

module _ (d : Disassembler) (sys : System) (orig : ℕ → ℕ) (w : View)
    (sites : (u : d.Ud) → IsSite sys (d.insn_ptr u)) where
  open d use {
    Ud, set_input_buffer, disassemble, insn_ptr, insn_len, insn_mnemonic, insn_opr, remaining,
    buffer, buffer-set, buffer-disassemble, insn_ptr-buffer,
  }

  -- A round that returns `base` as the address of the instruction.
  abbrev At : ℕ → Locals → Type 0
  At base v = v.base ≡ base

  visit_call-Ready :
      (n : ℕ) (v : Locals) (s : Analyzer Ud)
      → ReadyAs sys orig w (suc (suc n)) s
      → Returns (Gives sys orig w (At (insn_ptr s.ud_obj)) n s) (visit_call d sys v s)
  unfolding visit_call
  visit_call-Ready n v s =
      let opr = insn_opr s.ud_obj in
      let base = insn_ptr s.ud_obj in
      let next = add64 base (insn_len s.ud_obj) in
      let v' = call_kind opr.kind v in
      let offset = operand_offset v'.offset opr in
      let armed : Locals = record v' { base = base; offset = offset; mem_flag = false } in
      let passed : Locals = record v' { base = base; offset = offset } in
      Gives-if sys orig w (At base) n (suc (suc n)) v'.mem_flag (arm sys base >> pure armed)
        (on_address_list (list_insert (add64 next offset)) >>= λ _.
          on_valid_address_list (list_insert next) >>= λ _. pure passed)
        (arm_and sys orig w (At base) n base armed (sites s.ud_obj) refl)
        (Gives-bind sys orig w (At base) (suc (suc n)) (suc n) n
          (on_address_list (list_insert (add64 next offset)))
          (λ _. on_valid_address_list (list_insert next) >>= λ _. pure passed)
          (queue-Ready sys orig w (suc n) (add64 next offset))
          (λ _.
            Gives-bind sys orig w (At base) (suc n) n n (on_valid_address_list (list_insert next))
              (λ _. pure passed) (valid-Ready sys orig w n next)
              (λ _. Gives-pure sys orig w (At base) n n passed (omega arith) refl)))
        s

  visit_jump-Ready :
      (n : ℕ) (v : Locals) (s : Analyzer Ud)
      → ReadyAs sys orig w (suc (suc n)) s
      → Returns (Gives sys orig w (At (insn_ptr s.ud_obj)) n s) (visit_jump d sys v s)
  unfolding visit_jump
  visit_jump-Ready n v s =
      let opr = insn_opr s.ud_obj in
      let v' = jump_kind opr.kind v in
      let base = insn_ptr s.ud_obj in
      let offset = operand_offset v'.offset opr in
      let target = add64 (add64 base (insn_len s.ud_obj)) offset in
      let armed : Locals = record v' {
        base = base;
        offset = offset;
        mem_flag = false;
        reg_flag = false;
      } in
      let passed : Locals = record v' { base = base; offset = offset } in
      Gives-if sys orig w (At base) n (suc (suc n)) (v'.mem_flag || v'.reg_flag)
        (arm sys base >> pure armed) (on_address_list (list_insert target) >>= λ _. pure passed)
        (arm_and sys orig w (At base) n base armed (sites s.ud_obj) refl)
        (Gives-bind sys orig w (At base) (suc (suc n)) (suc n) n
          (on_address_list (list_insert target)) (λ _. pure passed)
          (queue-Ready sys orig w (suc n) target)
          (λ _. Gives-pure sys orig w (At base) n (suc n) passed (omega arith) refl))
        s

  visit-Ready :
      (i : Mnemonic) (n : ℕ) (v : Locals) (s : Analyzer Ud)
      → v.base ≡ insn_ptr s.ud_obj
      → ReadyAs sys orig w (suc (suc n)) s
      → Returns (Gives sys orig w (At (insn_ptr s.ud_obj)) n s) (visit d sys i v s)
  unfolding visit
  visit-Ready icall n v s at h = visit_call-Ready n v s h
  visit-Ready ijmp n v s at h = visit_jump-Ready n (record v { break_flag = false }) s h
  visit-Ready iret n v s at h =
      Gives-pure sys orig w (At (insn_ptr s.ud_obj)) n (suc (suc n)) v (omega arith) at s h
  visit-Ready other_mnemonic n v s at h =
      Gives-pure sys orig w (At (insn_ptr s.ud_obj)) n (suc (suc n)) v (omega arith) at s h
  visit-Ready _ n v s at h = visit_jump-Ready n v s h

  -- What the loop leaves: a state ready for `n` more insertions, with the same tree, and a `base` that
  -- does not lie below the start of the buffer.
  abbrev pub Loops : ℕ → ℕ → Analyzer Ud → Locals × Analyzer Ud → Type 0
  Loops n start s (v, s') = ReadyAs sys orig w n s' × Keeps s s' × (slt v.base start ≡ false)

  abbrev moved : Analyzer Ud → Analyzer Ud
  moved s = record s { ud_obj = (disassemble s.memory s.ud_obj).1 }

  Loops-if :
      (n start : ℕ) (s : Analyzer Ud) (b : Bool) (x y : Cmd (Analyzer Ud) Locals)
      → (b ≡ true → Returns (Loops n start s) (x s))
      → (b ≡ false → Returns (Loops n start s) (y s))
      → Returns (Loops n start s) ((if b then x else y) s)
  Loops-if n start s true x y then_run else_run = then_run refl
  Loops-if n start s false x y then_run else_run = else_run refl

  Loops-pure :
      (n m start : ℕ) (v : Locals) (s : Analyzer Ud)
      → n ≤ m
      → ReadyAs sys orig w m s
      → slt v.base start ≡ false
      → Returns (Loops n start s) (pure v s)
  Loops-pure n m start v s less h above =
      returns (Ready-weaken sys orig w n m (parts s) less h, unchanged refl refl refl, above)

  -- The rest of the loop, from a state with the same tree.
  abbrev Rest : ℕ → ℕ → ℕ → Ud → Type 0
  Rest k n start u =
      (v : Locals) (s : Analyzer Ud)
      → ReadyAs sys orig w (n + 2 * k) s
      → s.ud_obj ≡ u
      → slt v.base start ≡ false
      → Returns (Loops n start s) (dis_loop d sys k v s)

  after_visit :
      (k n start : ℕ) (v : Locals) (s : Analyzer Ud)
      → Rest k n start s.ud_obj
      → v.base ≡ insn_ptr s.ud_obj
      → slt (insn_ptr s.ud_obj) start ≡ false
      → (i : Mnemonic) → ReadyAs sys orig w (suc (suc (n + 2 * k))) s
      → Returns (Loops n start s) ((visit d sys i v >>= λ v'. dis_loop d sys k v') s)
  after_visit k n start v s rest at above i h =
      Returns-bind (visit-Ready i (n + 2 * k) v s at h) (λ v' s' p.
        Returns-mono (rest v' s' p.0 p.2 (ap (λ b. slt b start) p.3 ∙ above))
          (λ q r. (r.0, Keeps-trans p.1 r.1, r.2)))

  -- A round of the loop, at the instruction that was just disassembled.
  round_runs :
      (k n start : ℕ) (v₀ v : Locals) (s : Analyzer Ud) (size : ℕ)
      → (size ≢ 0 → Rest k n start s.ud_obj)
      → slt v₀.base start ≡ false
      → v.base ≡ insn_ptr s.ud_obj
      → (size ≢ 0 → slt (insn_ptr s.ud_obj) start ≡ false)
      → ReadyAs sys orig w (suc (suc (n + 2 * k))) s
      → Returns (Loops n start s) (
          (if size == 0
              then pure v₀
              else if slt s.bound_val v.base
              then pure v
              else if is_ret (insn_mnemonic s.ud_obj)
              then pure v
              else (do v' ← visit d sys (insn_mnemonic s.ud_obj) v; dis_loop d sys k v'))
            s)
  round_runs k n start v₀ v s size rest before at above h =
      let leave : (v' : Locals)
          → slt v'.base start ≡ false
          → Returns (Loops n start s) (pure v' s) =
        λ v'. Loops-pure n (suc (suc (n + 2 * k))) start v' s (omega arith) h in
      Loops-if n start s (size == 0) (pure v₀) _ (λ _. leave v₀ before)
        (λ more.
          let here = above (==→ne size 0 more) in
          let there = ap (λ b. slt b start) at ∙ here in
          Loops-if n start s (slt s.bound_val v.base) (pure v) _ (λ _. leave v there)
            (λ _.
              Loops-if n start s (is_ret (insn_mnemonic s.ud_obj)) (pure v) _ (λ _. leave v there)
                (λ _.
                  after_visit k n start v s (rest (==→ne size 0 more)) at here
                    (insn_mnemonic s.ud_obj) h)))

  fuel_left :
      (k : ℕ) (s : Analyzer Ud) (u : Ud)
      → (disassemble s.memory s.ud_obj).0 ≢ 0
      → remaining s.ud_obj < suc k
      → u ≡ (disassemble s.memory s.ud_obj).1
      → remaining u < k
  fuel_left k s u more fuel same =
      rw same (omega (arith, d.remaining-disassemble s.memory s.ud_obj more))

  pub dis_loop-Ready :
      (k n : ℕ) (v : Locals) (s : Analyzer Ud)
      → ReadyAs sys orig w (n + 2 * k) s
      → remaining s.ud_obj < k
      → slt v.base (buffer s.ud_obj) ≡ false
      → Returns (Loops n (buffer s.ud_obj) s) (dis_loop d sys k v s)
  unfolding dis_loop
  dis_loop-Ready zero n v s h fuel above = absurd (omega arith)
  dis_loop-Ready (suc k) n v₀ s h fuel above =
      let u = (disassemble s.memory s.ud_obj).1 in
      let size = (disassemble s.memory s.ud_obj).0 in
      let start = buffer s.ud_obj in
      let v : Locals = record v₀ { prev_base = v₀.base; base = insn_ptr u } in
      let same_buffer : buffer u ≡ start = buffer-disassemble s.memory s.ud_obj in
      let h₁ : ReadyAs sys orig w (suc (suc (n + 2 * k))) (moved s) =
        Ready-weaken sys orig w (suc (suc (n + 2 * k))) (n + 2 * suc k) (parts s) (omega arith) h in
      let rest : size ≢ 0 → Rest k n start u = λ more v' s' ready same before.
        let start' : buffer s'.ud_obj ≡ start = ap buffer same ∙ same_buffer in
        subst (λ b. Returns (Loops n b s') (dis_loop d sys k v' s')) start'
          (dis_loop-Ready k n v' s' ready (fuel_left k s s'.ud_obj more fuel same)
            (ap (slt v'.base) start' ∙ before)) in
      Loops-if n start s v₀.break_flag _ _
        (λ _.
          Returns-mono
            (round_runs k n start v₀ v (moved s) size rest above refl
              (insn_ptr-buffer s.memory s.ud_obj) h₁)
            (λ q r. (r.0, Keeps-trans (unchanged refl refl refl) r.1, r.2)))
        (λ _. Loops-pure n (n + 2 * suc k) start v₀ s (omega arith) h above)
