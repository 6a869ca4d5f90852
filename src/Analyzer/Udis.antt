-- ===== src/Analyzer/Udis.antt =====
-- What elf/libaddr.cc and data/trap/trap.c use of the disassembler udis86, which is not part of the
-- repository: the kinds of instructions and operands that they tell apart, and the functions that they
-- call, as a record of operations.
use counter_rop.Common.{ℕ, false, ◌≡◌, ◌≢◌, ◌<◌}
use counter_rop.Common.Word.{slt}

-- `ud_mnemonic_code`.
pub data Mnemonic : Type 0 where
  iret icall ijmp ijb ijbe ijecxz ijle ijl ijae ija ijge ijno ijnp ijg ijns ijnz ijo ijp ijs ijz :
      Mnemonic
  other_mnemonic : Mnemonic

-- `type` of an operand.
pub data OperandType : Type 0 where
  op_mem op_jimm op_imm op_ptr op_const op_reg other_type : OperandType

-- `ud_type_t`, for the registers that `get_register` names.
pub data Register : Type 0 where
  reg_rip reg_rax reg_eax reg_ax reg_al reg_ah reg_rcx reg_rdx reg_edx reg_dx reg_dl reg_dh :
      Register
  reg_rbx reg_rsp reg_rbp reg_rsi reg_rdi : Register
  reg_r8 reg_r9 reg_r10 reg_r11 reg_r12 reg_r13 reg_r14 reg_r15 : Register
  no_register other_register : Register

-- `lval` is the bit pattern of the union: `sbyte`, `sword`, `sdword` and `sqword` are its lowest bits.
pub record Operand : Type 0 where
  pub kind : OperandType
  pub size : ℕ
  pub lval : ℕ
  pub base : Register
  pub index : Register
  pub scale : ℕ

-- `disassemble` is given the memory that the input buffer points into, and returns the number of bytes
-- of the instruction, 0 at the end of the buffer. The laws are what its manual says: a buffer is given
-- with its start and its length, each instruction uses up a part of it, and stands in it.
pub record Disassembler : Type 1 where
  pub Ud : Type 0
  pub set_input_buffer : ℕ → ℕ → Ud → Ud
  pub disassemble : (ℕ → ℕ) → Ud → ℕ × Ud
  pub insn_ptr : Ud → ℕ
  pub insn_len : Ud → ℕ
  pub insn_mnemonic : Ud → Mnemonic
  pub insn_opr : Ud → Operand
  pub remaining : Ud → ℕ
  pub remaining-set :
      (address size : ℕ) (u : Ud) → remaining (set_input_buffer address size u) ≡ size
  pub remaining-disassemble :
      (memory : ℕ → ℕ) (u : Ud)
      → (disassemble memory u).0 ≢ 0
      → remaining (disassemble memory u).1 < remaining u
  pub buffer : Ud → ℕ
  pub buffer-set : (address size : ℕ) (u : Ud) → buffer (set_input_buffer address size u) ≡ address
  pub buffer-disassemble : (memory : ℕ → ℕ) (u : Ud) → buffer (disassemble memory u).1 ≡ buffer u
  pub insn_ptr-buffer :
      (memory : ℕ → ℕ) (u : Ud)
      → (disassemble memory u).0 ≢ 0
      → slt (insn_ptr (disassemble memory u).1) (buffer u) ≡ false
