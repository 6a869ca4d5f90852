-- ===== src/Tests/Mains.antt =====
-- A program under the analyser of elf/libaddr.cc, from the state in which `wrapped_main` calls it, with a
-- disassembler of one-byte instructions: it stores a byte, and runs into the trap at 4097.
use counter_rop.Common.{ℕ, ◌+◌, ◌≡◌, subst, ap, refl, inl, List, [], ◌∷◌, true, arith}
use counter_rop.Common.Outcome.{Outcome, ok, fault, exits, out_of_fuel, Cmd, then_with}
use counter_rop.LinkedList.{list_new, list_insert, list_pop, list_find}
use counter_rop.BoundTree.{new_tree, bound_tree_new, new_node, find_range, direct_bound_tree_insert}
use counter_rop.HashTable.{hashtable_new, slot_index, slot, new_entry, hashtable_insert}
use counter_rop.Jhash.{jenkins_hash, bytes}
use counter_rop.Common.Word.{slt}
use counter_rop.Analyzer.Trap.{trap_setup, get_register, operand_offset, memory_address}
use counter_rop.Analyzer.PrintDis.{arm, visit_call, visit, dis_loop, insert_data, print_dis}
use counter_rop.Analyzer.Start.{start}
use counter_rop.Analyzer.Handler.{trap_handler, load_bytes, examine, drain}
use counter_rop.BoundTree.Shape.{leaf}
use counter_rop.BoundTree.Measure.{uncovered_words}
use counter_rop.Analyzer.{Analyzer, Registers, poke}
use counter_rop.Analyzer.Analysed.{Returns-run}
use counter_rop.Analyzer.Execution.{RunsTo, rests, stores, traps, stored, RunsTo-Running}
use counter_rop.Analyzer.Loaded.{to_main, start-Analysed}
use counter_rop.Analyzer.Session.{IsTrap, Running, Analysed-Running, trap_handler-Running}
use counter_rop.Analyzer.Trapped.{trap_target}
use counter_rop.Tests.OneByte.{
  OneByte, one_byte, one_byte_sites, no_instruction, at_main, plenty, registers,
}
use counter_rop.Tests.Traps.{original, system}

abbrev pub reach : Outcome (Unit {0} × Analyzer OneByte)
reach =
    then_with (start (λ _. true) 77 (2 + plenty) registers original no_instruction)
      (to_main one_byte system 7 original one_byte_sites (λ u. u) plenty 4096)

abbrev state_of : Outcome (Unit {0} × Analyzer OneByte) → Analyzer OneByte
state_of (ok (_, s)) = s
state_of fault = at_main 0
state_of (exits n) = at_main 0
state_of out_of_fuel = at_main 0

-- The program stores 7 at 9000, and calls through the instruction at 4097.
abbrev pub changed : ℕ → ℕ
changed = poke original 9000 7

abbrev store_byte : Analyzer OneByte → Analyzer OneByte
store_byte s = stored one_byte system 7 one_byte_sites 9000 7 s

abbrev registers_at : Registers
registers_at = record registers { rip = 4098 }

abbrev at_call : Analyzer OneByte → Analyzer OneByte
at_call s = record s { registers = registers_at }

abbrev pub calls_once : Cmd (Analyzer OneByte) (Unit {0})
calls_once s = trap_handler one_byte system 7 plenty true (at_call (store_byte s))

abbrev end_state : Analyzer OneByte
end_state = state_of reach

reach_byte : end_state.memory 4097 ≡ 0xCC
unfolding load_bytes examine drain list_new list_insert list_pop new_tree bound_tree_new new_node
    find_range direct_bound_tree_insert hashtable_new slot_index slot new_entry hashtable_insert
    jenkins_hash bytes slt trap_setup get_register operand_offset memory_address arm visit_call
    visit dis_loop insert_data print_dis start
reach_byte = refl

reach_free : list_find 9000 end_state.start_byte_list ≡ ok (0, end_state.start_byte_list)
unfolding load_bytes examine drain list_new list_insert list_pop new_tree bound_tree_new new_node
    find_range direct_bound_tree_insert hashtable_new slot_index slot new_entry hashtable_insert
    jenkins_hash bytes slt trap_setup get_register operand_offset memory_address arm visit_call
    visit dis_loop insert_data print_dis start
reach_free = refl

reach_target :
    trap_target one_byte system 7 changed one_byte_sites (at_call (store_byte end_state))
    ≡ 6148914691236517315
unfolding load_bytes examine drain list_new list_insert list_pop new_tree bound_tree_new new_node
    find_range direct_bound_tree_insert hashtable_new slot_index slot new_entry hashtable_insert
    jenkins_hash bytes slt trap_setup get_register operand_offset memory_address arm visit_call
    visit dis_loop insert_data print_dis start
reach_target = refl

calls_once-Running :
    (s₁ : Analyzer OneByte)
    → reach ≡ ok (tt, s₁)
    → Running one_byte system 7 original one_byte_sites [] plenty 1 s₁
calls_once-Running s₁ e =
    let (s, analysed, idle, at_main_is, _) =
      start-Analysed one_byte system 7 one_byte_sites (λ u. u) 77 (2 + plenty) registers original
        no_instruction 1 plenty 4096 (omega arith) (omega arith) (omega arith) in
    subst (Running one_byte system 7 original one_byte_sites [] plenty 1) (cc (at_main_is, e)) (
      Analysed-Running one_byte system 7 original one_byte_sites plenty 1 4096 _ s analysed idle
        (omega (arith, uncovered_words leaf)))

pub calls_once-RunsTo :
    (s₁ : Analyzer OneByte)
    → reach ≡ ok (tt, s₁)
    → (out : List ℕ) × (s₂ : Analyzer OneByte) × RunsTo one_byte system 7 one_byte_sites plenty 1 []
        original s₁ out changed s₂
      × (calls_once s₁ ≡ ok (tt, s₂))
calls_once-RunsTo s₁ e =
    let same : end_state ≡ s₁ = ap state_of e in
    let free =
      subst (λ s. list_find 9000 s.start_byte_list ≡ ok (0, s.start_byte_list)) same reach_free in
    let trap : IsTrap one_byte system 7 changed one_byte_sites (at_call (store_byte s₁)) =
      subst (λ s. IsTrap one_byte system 7 changed one_byte_sites (at_call (store_byte s))) same
        (record {
          byte = reach_byte;
          foreign = omega arith;
          indirect = inl refl;
          leads = λ z. absurd (omega (arith, reach_target, z));
        }) in
    let running =
      RunsTo-Running one_byte system 7 one_byte_sites {m = 0} 1 (stores 9000 7 free rests)
        (calls_once-Running s₁ e) in
    let (x, run, _) = Returns-run (
      trap_handler-Running one_byte system 7 changed one_byte_sites [] plenty 0 registers_at
        (store_byte s₁) running trap) in
    (4097 ∷ [], x.1, stores 9000 7 free (traps {m = 0} registers_at trap run rests), run)
