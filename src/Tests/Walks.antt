-- ===== src/Tests/Walks.antt =====
-- The walk of `printDis` of elf/libaddr.cc from 4096: an instruction of another kind, a call through memory
-- at 4097, and a return.
use counter_rop.Common.{◌≡◌, refl, true, [], ◌∷◌, arith}
use counter_rop.Common.Word.{slt}
use counter_rop.Common.Outcome.{Returns}
use counter_rop.Analyzer.Effect.{Discovered, Holds}
use counter_rop.Analyzer.PrintDis.{print_dis}
use counter_rop.Analyzer.Survey.{survey}
use counter_rop.Analyzer.Finds.{Matches, print_dis-survey}
use counter_rop.BoundTree.{find_range}
use counter_rop.Tests.OneByte.{
  OneByte, one_byte, one_byte_sites, no_instruction, at_main, main_view, at_main-Ready, no_range,
  no_list-Stores,
}
use counter_rop.Tests.Tables.{one_map}
use counter_rop.Tests.Traps.{one_list, one_list-Stores, original, program-Armed, system}

abbrev before : Discovered
before = record { queue = 64 ∷ []; valid = []; sites = 64 ∷ []; originals = one_map }

at_main-Holds : Holds original before 204 (at_main 204)
at_main-Holds = record {
  list = one_list 204;
  there = refl;
  queue = one_list-Stores 204;
  valid = no_list-Stores 204;
  armed = program-Armed no_instruction 204;
  queue_room = omega arith;
  valid_room = omega arith;
  list_room = omega arith;
  table_room = omega arith;
}

abbrev at_buffer : OneByte
at_buffer = one_byte.set_input_buffer 4096 100 no_instruction

print_dis-survey_example :
    Returns
      (λ (_, s').
        Matches one_byte system original 1
          (survey one_byte 101 5095 (at_main 204).memory at_buffer 7 true 4096 before)
          s')
      (print_dis one_byte system 7 4096 (at_main 204))
unfolding find_range
print_dis-survey_example =
    print_dis-survey one_byte system original (main_view 204) one_byte_sites 7 1 before
      (at_main 204) no_range (at_main-Ready 204) refl refl at_main-Holds

finds_the_call :
    let r = survey one_byte 101 5095 (at_main 204).memory at_buffer 7 true 4096 before in
    (r.found.sites ≡ 64 ∷ 4097 ∷ []) × (r.last ≡ 4098)
unfolding survey slt
finds_the_call = (refl, refl)
