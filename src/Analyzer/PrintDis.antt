-- ===== src/Analyzer/PrintDis.antt =====
-- `printDis` of elf/libaddr.cc: the walk along the instructions from an address, and what it does at a
-- call, a jump and a return.
use counter_rop.Common.{
  ℕ, zero, suc, Option, none, some, ◌==◌, if◌then◌else◌, Bool, true, false, ◌||◌,
}
use counter_rop.Common.Word.{slt, add64}
use counter_rop.Common.Outcome.{fault, out_of_fuel, Cmd, pure, ◌>>=◌, ◌>>◌, get, modify}
use counter_rop.LinkedList.{list_insert}
use counter_rop.HashTable.{hashtable_insert}
use counter_rop.BoundTree.{BoundTreeData, direct_bound_tree_insert}
use counter_rop.Analyzer.{
  Analyzer, on_bytes, on_start_byte_list, on_address_list, on_valid_address_list, on_tree,
}
use counter_rop.Analyzer.Trap.{System, trap_setup, operand_offset}
use counter_rop.Analyzer.Udis.{
  Mnemonic, OperandType, Disassembler, op_mem, op_reg, iret, icall, ijmp, other_mnemonic,
}

-- The local variables that the rounds of the loop share.
pub record Locals : Type 0 where
  pub base : ℕ
  pub prev_base : ℕ
  pub offset : ℕ
  pub break_flag : Bool
  pub mem_flag : Bool
  pub reg_flag : Bool

-- `switch (opr->type)` at a call and at a jump.
abbrev pub call_kind : OperandType → Locals → Locals
call_kind op_mem v = record v { mem_flag = true }
call_kind _ v = v

abbrev pub jump_kind : OperandType → Locals → Locals
jump_kind op_mem v = record v { mem_flag = true }
jump_kind op_reg v = record v { reg_flag = true }
jump_kind _ v = v

abbrev pub is_ret : Mnemonic → Bool
is_ret iret = true
is_ret _ = false

module _ {Ud : Type 0} (sys : System) where
  -- `list_insert`, `trapSetup`, `hashtable_insert`.
  unfoldable pub arm : ℕ → Cmd (Analyzer Ud) (Unit {0})
  arm base = do
    _ ← on_start_byte_list (list_insert base)
    start_byte ← trap_setup sys base
    _ ← on_bytes (hashtable_insert base (sys.beyond base) start_byte)
    pure tt

module _ (d : Disassembler) (sys : System) where
  open d use {
    Ud, set_input_buffer, disassemble, insn_ptr, insn_len, insn_mnemonic, insn_opr, remaining,
  }

  unfoldable pub visit_call : Locals → Cmd (Analyzer Ud) Locals
  visit_call v₀ = do
    s ← get
    let opr = insn_opr s.ud_obj
    let v = call_kind opr.kind v₀
    let base = insn_ptr s.ud_obj
    let next = add64 base (insn_len s.ud_obj)
    let offset = operand_offset v.offset opr
    if v.mem_flag
        then (do arm sys base; pure (record v { base = base; offset = offset; mem_flag = false }))
        else (do
          _ ← on_address_list (list_insert (add64 next offset))
          _ ← on_valid_address_list (list_insert next)
          pure (record v { base = base; offset = offset }))

  unfoldable pub visit_jump : Locals → Cmd (Analyzer Ud) Locals
  visit_jump v₀ = do
    s ← get
    let opr = insn_opr s.ud_obj
    let v = jump_kind opr.kind v₀
    let base = insn_ptr s.ud_obj
    let next = add64 base (insn_len s.ud_obj)
    let offset = operand_offset v.offset opr
    if v.mem_flag || v.reg_flag
        then (do
          arm sys base
          pure (record v { base = base; offset = offset; mem_flag = false; reg_flag = false }))
        else (do
          _ ← on_address_list (list_insert (add64 next offset))
          pure (record v { base = base; offset = offset }))

  -- `switch (ud_insn_mnemonic(&ud_obj))`; the case of `jmp` runs on into that of the other jumps.
  unfoldable pub visit : Mnemonic → Locals → Cmd (Analyzer Ud) Locals
  visit icall v = visit_call v
  visit ijmp v = visit_jump (record v { break_flag = false })
  visit iret v = pure v
  visit other_mnemonic v = pure v
  visit _ v = visit_jump v

  -- The `while` loop, whose test calls `ud_disassemble` only while `breakFlag` is set.
  unfoldable pub dis_loop : ℕ → Locals → Cmd (Analyzer Ud) Locals
  dis_loop zero v₀ = λ _. out_of_fuel
  dis_loop (suc k) v₀ =
      if v₀.break_flag
      then (do
        s ← get
        let (size, u) = disassemble s.memory s.ud_obj
        modify (λ s. record s { ud_obj = u })
        let v = record v₀ { prev_base = v₀.base; base = insn_ptr u }
        if size == 0
            then pure v₀
            else if slt s.bound_val v.base
            then pure v
            else if is_ret (insn_mnemonic u)
            then pure v
            else (do v' ← visit (insn_mnemonic u) v; dis_loop k v'))
      else pure v₀

  -- `direct_boundTree_insert(data, …)`, which frees `data`.
  unfoldable pub insert_data : Option BoundTreeData → ℕ → ℕ → Cmd (Analyzer Ud) (Unit {0})
  insert_data none lower upper = λ _. fault
  insert_data (some m) lower upper = do
    on_tree (direct_bound_tree_insert m lower upper)
    modify (λ s. record s { tree_data = none })

  -- `garbage` is what the uninitialised `offset` holds. The input buffer has 100 bytes.
  unfoldable pub print_dis : ℕ → ℕ → Cmd (Analyzer Ud) (Unit {0})
  print_dis garbage buffer = do
    modify (λ s. record s { ud_obj = set_input_buffer buffer 100 s.ud_obj })
    v ← dis_loop 101 (record {
      base = buffer;
      prev_base = 0;
      offset = garbage;
      break_flag = true;
      mem_flag = false;
      reg_flag = false;
    })
    modify (λ s. record s { upper_val = v.base })
    s ← get
    insert_data s.tree_data s.lower_val s.upper_val
