-- ===== src/Analyzer/Address.antt =====
-- `get_address` of data/trap/trap.c on each kind of operand.
use counter_rop.Common.{ℕ, ◌+◌, ◌*◌, ◌%◌, ◌≡◌, if◌then◌else◌, Bool-cases, inl, inr, arith}
use counter_rop.Common.Word.{word_mod}
use counter_rop.Analyzer.{Registers}
use counter_rop.Analyzer.Trap.{get_register, operand_offset, is_rip, scale_of, memory_address}
use counter_rop.Analyzer.Udis.{Operand}

-- The address of a memory operand as a sum: what the base register holds, behind the instruction if that is
-- the instruction pointer, the displacement, and the scaled index.
abbrev pub effective : ℕ → ℕ → Operand → Registers → ℕ
effective garbage len opr r =
    (get_register opr.base r
      + (if is_rip opr.base then len else 0)
      + operand_offset garbage opr
      + scale_of opr * get_register opr.index r)
    % word_mod

pub memory_address-effective :
    (garbage len : ℕ) (opr : Operand) (r : Registers)
    → memory_address garbage len opr r ≡ effective garbage len opr r
unfolding memory_address
memory_address-effective garbage len opr r = elim (Bool-cases (is_rip opr.base)) [
  | inl rip ↦ rw rip (omega arith)
  | inr other ↦ rw other (omega arith)
]
