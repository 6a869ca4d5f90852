-- ===== src/Analyzer/Survey.antt =====
-- The walk of `printDis`, of elf/libaddr.cc, without lists and tables in memory: what it finds.
use counter_rop.Common.{ℕ, zero, suc, Bool, true, ◌==◌, if◌then◌else◌}
use counter_rop.Common.Word.{slt}
use counter_rop.Analyzer.{poke}
use counter_rop.Analyzer.Effect.{Discovered, arms, arms_at, offset_after, going_after}
use counter_rop.Analyzer.Visit.{direct_effect}
use counter_rop.Analyzer.PrintDis.{is_ret}
use counter_rop.Analyzer.Trap.{trap_byte}
use counter_rop.Analyzer.Udis.{Disassembler, Mnemonic}

module _ (d : Disassembler) where
  open d use {Ud, disassemble, insn_ptr, insn_mnemonic, insn_opr}

  -- An instruction that becomes a site is remembered with its byte and overwritten; another one adds what
  -- `direct_effect` says.
  abbrev pub found_at : Mnemonic → (ℕ → ℕ) → ℕ → Ud → Discovered → Discovered
  found_at i memory held u a =
      if arms_at i (insn_opr u).kind
      then arms (insn_ptr u) (memory (insn_ptr u)) a
      else direct_effect d i held u a

  abbrev pub memory_after : Mnemonic → (ℕ → ℕ) → Ud → ℕ → ℕ
  memory_after i memory u =
      if arms_at i (insn_opr u).kind then poke memory (insn_ptr u) trap_byte else memory

  -- Whether the walk looks at the instruction.
  abbrev pub stops : ℕ → ℕ → Ud → Bool
  stops size bound u =
      if size == 0 then true else if slt bound (insn_ptr u) then true else is_ret (insn_mnemonic u)

  -- What a walk leaves: what was found, memory with its trap bytes, the disassembler, and the last
  -- instruction that it looked at.
  pub record Surveyed : Type 0 where
    pub found : Discovered
    pub memory : ℕ → ℕ
    pub ud : Ud
    pub last : ℕ

  abbrev pub surveyed : Discovered → (ℕ → ℕ) → Ud → ℕ → Surveyed
  surveyed a memory u last = record { found = a; memory = memory; ud = u; last = last }

  -- The end of a walk at an instruction that is not visited, where `base` is the one before it.
  abbrev pub stopped_at : ℕ → Ud → ℕ → ℕ
  stopped_at size u base = if size == 0 then base else insn_ptr u

  -- The walk from the instruction behind `u` on, below `bound`, where `base` is the last one.
  unfoldable pub survey : ℕ → ℕ → (ℕ → ℕ) → Ud → ℕ → Bool → ℕ → Discovered → Surveyed
  survey zero bound memory u held going base a = surveyed a memory u base
  survey (suc k) bound memory u held going base a =
      let size = (disassemble memory u).0 in
      let u' = (disassemble memory u).1 in
      let i = insn_mnemonic u' in
      let rest =
        survey k bound (memory_after i memory u') u' (offset_after i held (insn_opr u'))
          (going_after i going) (insn_ptr u') (found_at i memory held u' a) in
      if going
      then (if stops size bound u' then surveyed a memory u' (stopped_at size u' base) else rest)
      else surveyed a memory u base
