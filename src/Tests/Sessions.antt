-- ===== src/Tests/Sessions.antt =====
-- The analysis of elf/libaddr.cc and the traps of data/trap/trap.c, from the load of the library on, with a
-- disassembler of one-byte instructions.
use counter_rop.Common.{◌≡◌, ℕ, suc, ◌+◌, ◌*◌, refl, true, [], ◌∷◌, arith, inl, List}
use counter_rop.Common.Outcome.{Cmd, Returns, ok, then_with, ◌>>=◌}
use counter_rop.LinkedList.{list_find}
use counter_rop.LinkedList.Queue.{list_find-contains}
use counter_rop.BoundTree.Measure.{uncovered, uncovered_words}
use counter_rop.BoundTree.Shape.{leaf}
use counter_rop.Analyzer.{poke, Analyzer}
use counter_rop.Analyzer.Analysed.{Analysed, asked, blank, Returns-run}
use counter_rop.Analyzer.Loaded.{from_main, start-Analysed}
use counter_rop.BoundTree.Places.{leaves}
use counter_rop.Analyzer.Alike.{Agree, drain-Agree}
use counter_rop.Analyzer.Closed.{Reached, Explored-weaken, drain-Reached}
use counter_rop.Analyzer.Explore.{Explored}
use counter_rop.Analyzer.Frame.{Frame, IsIdle, Ensures, drain-Frames}
use counter_rop.Analyzer.Handler.{drain, trap_handler, wrapped_main, load_bytes}
use counter_rop.Analyzer.Finish.{session-restores}
use counter_rop.Analyzer.Session.{IsTrap, Running, trap_handler-Running}
use counter_rop.Analyzer.Execution.{stores, rests, traps, RunsTo-Running}
use counter_rop.Analyzer.Start.{start}
use counter_rop.Analyzer.Trap.{shutdown, memory_address, operand_offset, get_register}
use counter_rop.Analyzer.Trapped.{trap_handler-Analysed, trap_target, trap_world}
use counter_rop.Analyzer.Visited.{AllTrapped}
use counter_rop.Analyzer.Worklist.{World}
use counter_rop.Tests.OneByte.{
  OneByte, one_byte, one_byte_sites, no_instruction, at_main, loaded, no_list-Stores, bare-IsTree,
  plenty, registers,
}
use counter_rop.Tests.Mains.{reach, calls_once, calls_once-RunsTo}
use counter_rop.Tests.Mains
use counter_rop.Tests.Tables.{one_map}
use counter_rop.Tests.Traps.{
  no_list, one_list, one_list-Stores, original, program, program-Armed, system,
}

-- What is known in the state `loaded`: there is a trap byte at 64.
abbrev known : List ℕ → World one_byte
known queue = record {
  found = record { queue = queue; valid = []; sites = 64 ∷ []; originals = one_map };
  shape = leaf;
  memory = (program no_instruction 4).memory;
  ud = no_instruction;
}

abbrev room_left : ℕ → ℕ
room_left n = n + 203 * uncovered leaf

loaded-Explored : (room : ℕ) → Explored one_byte system original room (known []) (loaded room)
loaded-Explored room = record {
  holds = record {
    list = no_list room;
    there = refl;
    queue = no_list-Stores room;
    valid = no_list-Stores room;
    armed = program-Armed no_instruction room;
    queue_room = omega arith;
    valid_room = omega arith;
    list_room = omega arith;
    table_room = omega arith;
  };
  memory_is = refl;
  ud_is = refl;
  restorable = ((omega arith, omega arith, refl), tt);
  is_tree = bare-IsTree room;
  tree_room = omega arith;
}

at_main-Explored :
    (room : ℕ) → Explored one_byte system original room (known (64 ∷ [])) (at_main room)
at_main-Explored room = record {
  holds = record {
    list = one_list room;
    there = refl;
    queue = one_list-Stores room;
    valid = no_list-Stores room;
    armed = program-Armed no_instruction room;
    queue_room = omega arith;
    valid_room = omega arith;
    list_room = omega arith;
    table_room = omega arith;
  };
  memory_is = refl;
  ud_is = refl;
  restorable = ((omega arith, omega arith, refl), tt);
  is_tree = bare-IsTree room;
  tree_room = omega arith;
}

known-AllTrapped : (queue : List ℕ) → AllTrapped [] (known queue).memory (64 ∷ [])
known-AllTrapped queue x outside listed = ground arith

drain-Reached_example :
    Returns
      (λ (_, s'). Reached one_byte system original 7 one_byte_sites 1 (known (64 ∷ [])) s')
      (drain one_byte system 7 (2 + plenty) (at_main (1 + plenty)))
drain-Reached_example =
    drain-Reached one_byte system original 7 one_byte_sites (2 + plenty) 1 (known (64 ∷ []))
      (at_main (1 + plenty))
      (Explored-weaken one_byte system original (room_left 1) (1 + plenty) (known (64 ∷ []))
        (at_main (1 + plenty)) (omega (arith, uncovered_words leaf))
        (at_main-Explored (1 + plenty)))
      (omega (arith, uncovered_words leaf))

-- Two states with more and less memory, and more and fewer rounds.
drain-Agree_example :
    Returns
      (λ (_, t).
        Returns
          (λ (_, t'). Agree one_byte system original 7 one_byte_sites 1 t t')
          (drain one_byte system 7 (9 + plenty) (at_main (5 + plenty))))
      (drain one_byte system 7 (2 + plenty) (at_main (1 + plenty)))
drain-Agree_example =
    let queued = known (64 ∷ []) in
    drain-Agree one_byte system original 7 one_byte_sites (2 + plenty) (9 + plenty) 1 queued queued
      (at_main (1 + plenty)) (at_main (5 + plenty))
      (Explored-weaken one_byte system original (room_left 1) (1 + plenty) queued
        (at_main (1 + plenty)) (omega (arith, uncovered_words leaf))
        (at_main-Explored (1 + plenty)))
      (Explored-weaken one_byte system original (room_left 1) (5 + plenty) queued
        (at_main (5 + plenty)) (omega (arith, uncovered_words leaf))
        (at_main-Explored (5 + plenty)))
      (record { found = refl; memory = refl; ud = refl; shape = leaves })
      (omega (arith, uncovered_words leaf)) (omega (arith, uncovered_words leaf))

-- A state whose queue was deleted.
drain-Frames_example :
    Ensures
      (λ (_, s'). Frame (program no_instruction 4) s')
      (drain one_byte system 7 2 (program no_instruction 4))
drain-Frames_example = drain-Frames one_byte system 7 2 (program no_instruction 4)

-- `main` is at 4096.
start-Analysed_example :
    (s₁ : Analyzer OneByte) × Analysed one_byte system 7 original one_byte_sites [] 1 4096
      (asked one_byte 4096 no_instruction (blank one_byte original no_instruction))
      s₁
    × IsIdle s₁
    × (reach ≡ ok (tt, s₁))
    × ((og_main : Cmd (Analyzer OneByte) (Unit {0}))
        → then_with
            (start (λ _. true) 77 (2 + plenty) registers original no_instruction)
            (wrapped_main one_byte system 7 (λ u. u) og_main plenty 4096)
          ≡ from_main one_byte system 7 original one_byte_sites og_main s₁)
start-Analysed_example =
    start-Analysed one_byte system 7 one_byte_sites (λ u. u) 77 (2 + plenty) registers original
      no_instruction 1 plenty 4096 (omega arith) (omega arith) (omega arith)

-- The program stores 7 at 9000 and runs into the trap at 4097.
session-restores_example :
    Returns
      (λ (_, s'). (a : ℕ) → s'.memory a ≡ poke original 9000 7 a)
      (then_with
        (start (λ _. true) 77 (2 + plenty) registers original no_instruction)
        (wrapped_main one_byte system 7 (λ u. u) calls_once plenty 4096 >>= λ _. shutdown system))
session-restores_example =
    session-restores one_byte system 7 one_byte_sites (λ u. u) 77 (2 + plenty) registers original
      Mains.changed no_instruction 1 plenty 4096 calls_once (omega arith) (omega arith)
      (omega arith) calls_once-RunsTo

-- The program runs into the trap byte at 64, which stands over an instruction that leads to what the
-- bytes 0x55 at 65 and behind make.
trap_handler-Analysed_example :
    Returns
      (λ (_, s').
        Analysed one_byte system 7 original one_byte_sites
          (64 ∷ [])
          1
          (trap_target one_byte system 7 original one_byte_sites (loaded (2 + plenty)))
          (trap_world one_byte system 7 original one_byte_sites (known []) (loaded (2 + plenty)))
          s'
        × IsIdle s'
        × (s'.registers ≡ record (loaded (2 + plenty)).registers { rip = 64 }))
      (trap_handler one_byte system 7 plenty true (loaded (2 + plenty)))
unfolding load_bytes memory_address operand_offset get_register
trap_handler-Analysed_example =
    trap_handler-Analysed one_byte system 7 original one_byte_sites [] 1 plenty (known [])
      (loaded (2 + plenty))
      (Explored-weaken one_byte system original (suc (room_left 1)) (2 + plenty) (known [])
        (loaded (2 + plenty)) (omega (arith, uncovered_words leaf)) (loaded-Explored (2 + plenty)))
      (known-AllTrapped []) (record { no_trap = refl; no_register = refl }) refl (inl refl)
      (omega arith) (omega (arith, uncovered_words leaf))

can_run : Running one_byte system 7 original one_byte_sites [] plenty (1 + 1) (loaded (2 + plenty))
can_run = record {
  world = known [];
  explored =
      Explored-weaken one_byte system original (room_left 2) (2 + plenty) (known [])
        (loaded (2 + plenty)) (omega (arith, uncovered_words leaf)) (loaded-Explored (2 + plenty));
  trapped = known-AllTrapped [];
  idle = record { no_trap = refl; no_register = refl };
  fuel = omega (arith, uncovered_words leaf);
}

-- The program stores 7 at 5000, and runs into the trap byte at 64.
abbrev changed : ℕ → ℕ
changed = poke original 5000 7

abbrev after_store : Analyzer OneByte
after_store = record (loaded (2 + plenty)) { memory = poke (loaded 0).memory 5000 7 }

no_site :
    list_find 5000 (loaded (2 + plenty)).start_byte_list
    ≡ ok (0, (loaded (2 + plenty)).start_byte_list)
no_site = list_find-contains (one_list (2 + plenty)) 5000 (64 ∷ []) (one_list-Stores (2 + plenty))

can_run_on : Running one_byte system 7 changed one_byte_sites [] plenty 2 after_store
can_run_on =
    RunsTo-Running one_byte system 7 one_byte_sites {m = 0} 2 (stores 5000 7 no_site rests) can_run

after_store-IsTrap : IsTrap one_byte system 7 changed one_byte_sites after_store
unfolding load_bytes memory_address operand_offset get_register
after_store-IsTrap = record {
  byte = refl;
  foreign = omega arith;
  indirect = inl refl;
  leads = omega arith;
}

first_handled :
    (x : Unit {0} × Analyzer OneByte) × (trap_handler one_byte system 7 plenty true after_store
      ≡ ok x)
    × Running one_byte system 7 changed one_byte_sites (64 ∷ []) plenty 1 x.1
first_handled = Returns-run (
    trap_handler-Running one_byte system 7 changed one_byte_sites [] plenty 1 after_store.registers
      after_store can_run_on after_store-IsTrap)

RunsTo-Running_example :
    Running one_byte system 7 changed one_byte_sites (64 ∷ []) plenty 1 first_handled.0.1
RunsTo-Running_example =
    RunsTo-Running one_byte system 7 one_byte_sites 1
      (stores 5000 7 no_site
        (traps {m = 0} after_store.registers after_store-IsTrap first_handled.1 rests))
      can_run
