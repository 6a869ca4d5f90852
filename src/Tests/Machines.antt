-- ===== src/Tests/Machines.antt =====
-- data/boundTree/boundTreeTest.c at a program that jumps from 2 to 50, and returns at 53.
use counter_rop.Common.{ℕ, ◌==◌, ◌≡◌, refl, if◌then◌else◌, false, true, some, arith, Bool}
use counter_rop.Common.Word.{slt}
use counter_rop.Common.Outcome.{Outcome, ok, fault, exits, out_of_fuel}
use counter_rop.Common.Heap.{empty_heap, null}
use counter_rop.BoundTree.{
  BoundTreeData, find_range, find_loop, direct_bound_tree_insert, new_node, set_child, load, store,
  new_tree, bound_tree_new, bound_tree_delete, delete_node, free,
}
use counter_rop.BoundTree.Shape.{leaf}
use counter_rop.Simulation.{
  Machine, simulate, run_main, make_tree, begin, delete_tree, record_jump, unless_done,
  execute_instruction_at, simulation_main,
}
use counter_rop.Simulation.Main.{simulation_main-returns}
use counter_rop.Simulation.Safe.{IsRunning}

abbrev machine : ℕ → Machine
machine room = record {
  a = λ i. if i == 2 then 1 else if i == 53 then 9 else 5;
  b = λ _. 0;
  c = λ i. 50;
  jump_flag = false;
  bound_val = 999;
  lower_val = 0;
  upper_val = 0;
  this_bound_tree = record { root = 0; is_initialized = false; heap = empty_heap room };
}

abbrev no_range : BoundTreeData
no_range = record { is_left_child = false; bound = 999; node = 0 }

machine-IsRunning : (room : ℕ) → IsRunning room (some no_range) (machine room)
unfolding find_range
machine-IsRunning room = record {
  shape = leaf;
  is_tree = record {
    initialized = refl;
    rooted = λ e. refl;
    repr = tt;
    distinct = tt;
    below = tt;
    sized = omega arith;
    exact = λ p out. refl;
  };
  room = omega arith;
  found_is = refl;
}

-- Whether the instruction was executed in a run.
abbrev was_executed : Outcome (Unit {0} × Machine) → ℕ → Bool
was_executed (ok (_, s)) i = s.b i == 1
was_executed fault i = false
was_executed (exits n) i = false
was_executed out_of_fuel i = false

run_returns : was_executed (run_main true 9 77 9 (machine 9)) 53 ≡ true
unfolding run_main make_tree begin delete_tree record_jump unless_done execute_instruction_at
    simulate find_range find_loop direct_bound_tree_insert new_node set_child load store new_tree
    bound_tree_new bound_tree_delete delete_node free slt
run_returns = refl

run_skips : was_executed (run_main true 9 77 9 (machine 9)) 30 ≡ false
unfolding run_main make_tree begin delete_tree record_jump unless_done execute_instruction_at
    simulate find_range find_loop direct_bound_tree_insert new_node set_child load store new_tree
    bound_tree_new bound_tree_delete delete_node free slt
run_skips = refl

simulation_main-returns_example :
    (s' : Machine) × (simulation_main (λ n. n) true 10301 null 100 (machine 0) ≡ ok (tt, s'))
simulation_main-returns_example =
    simulation_main-returns (λ n. n) 10301 100 (machine 0) (omega arith) (omega arith) refl
