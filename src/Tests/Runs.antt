-- ===== src/Tests/Runs.antt =====
-- `printDis` of elf/libaddr.cc with a disassembler of one-byte instructions.
use counter_rop.Common.{false, ◌⊎◌, ◌≡◌, true, ℕ, refl, [], ◌∷◌, arith}
use counter_rop.Common.Outcome.{exits, IsSafe, ended, pure, ◌>>=◌, Returns, ok}
use counter_rop.BoundTree.{find_range}
use counter_rop.BoundTree.Shape.{leaf}
use counter_rop.Analyzer.{Analyzer}
use counter_rop.Analyzer.Armed.{Armed}
use counter_rop.Analyzer.Life.{wrapped_main-restores}
use counter_rop.Analyzer.PrintDis.{print_dis}
use counter_rop.Analyzer.Handler.{wrapped_main, trap_handler}
use counter_rop.Analyzer.Ready.{Ready, ReadyAs}
use counter_rop.Analyzer.Record.{Recorded, print_dis-Recorded}
use counter_rop.Analyzer.Recover.{stepped_back, nested_trap-restores}
use counter_rop.Analyzer.Start.{start, start-Ready}
use counter_rop.Analyzer.Refuse.{trap_handler-decides}
use counter_rop.Analyzer.Found.{IsIndirect, looked_at}
use counter_rop.Analyzer.Udis.{Disassembler, op_imm, no_register}
use counter_rop.Analyzer.Trap.{shutdown}
use counter_rop.Tests.Traps.{original, program, program-Armed, system}
use counter_rop.Tests.OneByte.{
  OneByte, one_byte, one_byte_sites, no_instruction, no_range, main_view, at_main, at_main-Ready,
  loaded, loaded-Ready, no_view,
}
use counter_rop.Tests.Tables.{one_map}

print_dis-Recorded_example :
    Returns
      (λ (_, s'). Recorded system original (main_view 204) 1 (at_main 204) s')
      (print_dis one_byte system 7 4096 (at_main 204))
unfolding find_range
print_dis-Recorded_example =
    print_dis-Recorded one_byte system original (main_view 204) one_byte_sites 7 1 (at_main 204)
      no_range (at_main-Ready 204) refl refl

abbrev handling : Analyzer OneByte
handling = record (program no_instruction 4) { trap_flag = 1 }

handling-Armed : Armed original handling one_map (64 ∷ [])
handling-Armed = program-Armed no_instruction 4

nested_trap-restores_example :
    (trap_handler one_byte system 7 2 true handling ≡ ok (tt, stepped_back original handling))
    × Armed original (stepped_back original handling) one_map (64 ∷ [])
nested_trap-restores_example =
    nested_trap-restores one_byte system 7 original handling one_map (64 ∷ []) handling-Armed
      (omega arith) (omega arith) refl 2 true

-- `main` is at 4096, and the program ends at once.
wrapped_main-restores_example :
    IsSafe
      (λ (_, s'). (a : ℕ) → s'.memory a ≡ original a)
      ((wrapped_main one_byte system 7 (λ u. u) (pure tt) 3 4096 >>= λ _. shutdown system)
        (at_main 610))
wrapped_main-restores_example =
    wrapped_main-restores one_byte system 7 original one_byte_sites (λ u. u) (pure tt) 0 3 4096
      (at_main 610) (λ s h. ended h) (main_view 610, at_main-Ready 610)

start-Ready_example :
    (s : Analyzer OneByte) × (start
        (λ _. true)
        77
        9
        (program no_instruction 4).registers
        original
        no_instruction
      ≡ ok s)
    × ReadyAs system original (record { cap = 9; ahead = []; shape = leaf }) 9 s
start-Ready_example =
    start-Ready system 77 9 (program no_instruction 4).registers original no_instruction

-- A disassembler that finds an instruction without an operand in memory at the trap.
abbrev immediate : Disassembler
immediate = record one_byte {
  insn_opr = λ u. record {
    kind = op_imm;
    size = 32;
    lval = 0;
    base = no_register;
    index = no_register;
    scale = 0;
  };
}

trap_handler-decides_example :
    (IsIndirect (immediate.insn_opr (looked_at immediate system 7 original (loaded 407)).ud_obj)
        × IsSafe
            (λ (_, s'). Ready system original 0 s')
            (trap_handler immediate system 7 2 true (loaded 407))
      ⊎ ¬ IsIndirect
          (immediate.insn_opr (looked_at immediate system 7 original (loaded 407)).ud_obj)
        × (trap_handler immediate system 7 2 true (loaded 407) ≡ exits 2))
    × (trap_handler immediate system 7 2 false (loaded 407) ≡ exits 2)
unfolding loaded-Ready
trap_handler-decides_example =
    trap_handler-decides immediate system 7 original one_byte_sites 0 2 (loaded 407)
      (no_view 407, loaded-Ready 407) refl refl
