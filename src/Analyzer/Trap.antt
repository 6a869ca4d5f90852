-- ===== src/Analyzer/Trap.antt =====
-- data/trap/trap.c: setting a trap byte, taking it away, reading registers and operands.
use counter_rop.Common.{ℕ, zero, suc, ◌-◌, ◌^◌, ◌==◌, if◌then◌else◌, Bool, true, false, List}
use counter_rop.Common.Word.{word_mod, add64, mul64, sign_extend, page_start}
use counter_rop.Common.Outcome.{
  ok, exits, out_of_fuel, Cmd, pure, ◌>>=◌, ◌>>◌, get, modify, exit_with,
}
use counter_rop.LinkedList.{list_pop}
use counter_rop.HashTable.{hashtable_find}
use counter_rop.Analyzer.{Registers, Analyzer, poke, on_bytes, on_start_byte_list}
use counter_rop.Analyzer.Udis.{
  Register, Operand, OperandType, op_mem, op_reg, reg_rip, reg_rax, reg_eax, reg_ax, reg_al, reg_ah,
  reg_rcx, reg_rdx, reg_edx, reg_dx, reg_dl, reg_dh, reg_rbx, reg_rsp, reg_rbp, reg_rsi, reg_rdi,
  reg_r8, reg_r9, reg_r10, reg_r11, reg_r12, reg_r13, reg_r14, reg_r15, no_register, other_register,
  Disassembler,
}

-- What the functions ask of the system: whether `mprotect` of a page succeeds, and the bytes that
-- stand in memory behind a variable that holds an address.
pub record System : Type 0 where
  pub mprotect : ℕ → Bool
  pub beyond : ℕ → List ℕ

abbrev pub trap_byte : ℕ
trap_byte = 0xCC

module _ {Ud : Type 0} (sys : System) where
  -- `mprotect` of the page, and `exit(2)` if it fails.
  abbrev pub unprotect : ℕ → Cmd (Analyzer Ud) (Unit {0})
  unprotect address = if sys.mprotect (page_start address) then pure tt else exit_with 2

  unfoldable pub trap_setup : ℕ → Cmd (Analyzer Ud) ℕ
  trap_setup address = do
    unprotect address
    s ← get
    modify (λ s. record s { memory = poke s.memory address trap_byte })
    pure (s.memory address)

  unfoldable pub swap_start_byte : ℕ → Cmd (Analyzer Ud) (Unit {0})
  swap_start_byte address = do
    unprotect address
    byte ← on_bytes (hashtable_find address (sys.beyond address))
    modify (λ s. record s { memory = poke s.memory address byte })

  -- The loop of `shutdown`.
  unfoldable pub shutdown_loop : ℕ → Cmd (Analyzer Ud) (Unit {0})
  shutdown_loop zero = λ _. out_of_fuel
  shutdown_loop (suc k) = do
    address ← on_start_byte_list list_pop
    if address == 0 then pure tt else (do swap_start_byte address; shutdown_loop k)

  -- As many rounds as the list has handed out addresses.
  unfoldable pub shutdown : Cmd (Analyzer Ud) (Unit {0})
  shutdown = do s ← get; shutdown_loop s.start_byte_list.heap.fresh

unfoldable pub get_register : Register → Registers → ℕ
get_register reg_rip r = r.rip
get_register reg_rax r = r.rax
get_register reg_eax r = r.rax
get_register reg_ax r = r.rax
get_register reg_al r = r.rax
get_register reg_ah r = r.rax
get_register reg_rcx r = r.rcx
get_register reg_rdx r = r.rdx
get_register reg_edx r = r.rdx
get_register reg_dx r = r.rdx
get_register reg_dl r = r.rdx
get_register reg_dh r = r.rdx
get_register reg_rbx r = r.rbx
get_register reg_rsp r = r.rsp
get_register reg_rbp r = r.rbp
get_register reg_rsi r = r.rsi
get_register reg_rdi r = r.rdi
get_register reg_r8 r = r.r8
get_register reg_r9 r = r.r9
get_register reg_r10 r = r.r10
get_register reg_r11 r = r.r11
get_register reg_r12 r = r.r12
get_register reg_r13 r = r.r13
get_register reg_r14 r = r.r14
get_register reg_r15 r = r.r15
get_register no_register r = 0
get_register other_register r = word_mod - 1

-- The `switch (opr->size)`: the signed member of the union that the size names. At any other size the
-- variable keeps what it held.
unfoldable pub operand_offset : ℕ → Operand → ℕ
operand_offset held opr =
    if opr.size == 8
    then sign_extend (2 ^ 8) opr.lval
    else if opr.size == 16
    then sign_extend (2 ^ 16) opr.lval
    else if opr.size == 32
    then sign_extend (2 ^ 32) opr.lval
    else if opr.size == 64
    then opr.lval
    else held

abbrev pub is_rip : Register → Bool
is_rip reg_rip = true
is_rip _ = false

abbrev pub is_no_register : Register → Bool
is_no_register no_register = true
is_no_register _ = false

-- `scale` of the address: the operand's, 1 if that is 0, and 0 if there is no index.
abbrev pub scale_of : Operand → ℕ
scale_of opr = if is_no_register opr.index then 0 else if opr.scale == 0 then 1 else opr.scale

-- The address that a memory operand names, at an instruction of `len` bytes.
unfoldable pub memory_address : ℕ → ℕ → Operand → Registers → ℕ
memory_address garbage len opr r =
    let base = get_register opr.base r in
    let base' = if is_rip opr.base then add64 base len else base in
    add64 (add64 base' (operand_offset garbage opr))
      (mul64 (scale_of opr) (get_register opr.index r))

-- `garbage` is what the uninitialised `offset` holds.
module _ (d : Disassembler) (garbage : ℕ) where
  open d use {Ud, insn_len}

  unfoldable pub address_of : OperandType → Operand → Cmd (Analyzer Ud) ℕ
  address_of op_mem opr s = ok (memory_address garbage (insn_len s.ud_obj) opr s.registers, s)
  address_of op_reg opr s = ok (get_register opr.base s.registers, record s { reg_flag = true })
  address_of _ opr s = exits 2

  unfoldable pub get_address : Operand → Cmd (Analyzer Ud) ℕ
  unfolding address_of
  get_address opr = address_of opr.kind opr
