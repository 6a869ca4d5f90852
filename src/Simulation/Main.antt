-- ===== src/Simulation/Main.antt =====
-- `main` of data/boundTree/boundTreeTest.c returns.
use counter_rop.Common.{
  true, ℕ, zero, suc, ◌+◌, ◌<◌, ◌≤◌, ◌≡◌, refl, false, some, arith, ◌==◌, Bool-cases, inl, inr, sym,
  subst, ap, ◌∙◌,
}
use counter_rop.Common.Heap.{Heap, null}
use counter_rop.Common.Outcome.{Outcome, ok, Returns, returns, Returns-bind}
use counter_rop.BoundTree.{
  BoundTreeData, TreeNode, new_tree, bound_tree_new, bound_tree_delete, find_range,
}
use counter_rop.BoundTree.Shape.{leaf, is_node, new_tree-IsTree, new_tree_room, new_tree_root}
use counter_rop.BoundTree.Delete.{bound_tree_delete_all, bound_tree_delete-null}
use counter_rop.BoundTree.Measure.{uncovered_below-le}
use counter_rop.BoundTree.Refine.{find_range-search}
use counter_rop.Simulation.{
  make_tree, Machine, slots, begin, delete_tree, run_main, fill_loop, simulation_main,
}
use counter_rop.Simulation.Ends.{IsBounded, Finished, execute-Next, simulate_ends}

-- What the filling of the arrays leaves alone.
fill_loop-jump_flag :
    (n : ℕ) (rand : ℕ → ℕ) (i : ℕ) (s : Machine) → (fill_loop n rand i s).jump_flag ≡ s.jump_flag
unfolding fill_loop
fill_loop-jump_flag zero rand i s = refl
fill_loop-jump_flag (suc n) rand i s = fill_loop-jump_flag n rand (i + 1) _

fill_loop-jumps :
    (n : ℕ) (rand : ℕ → ℕ) (i j : ℕ) (s : Machine)
    → j < i + n
    → (j < i → s.c j < slots)
    → (fill_loop n rand i s).c j < slots
unfolding fill_loop
fill_loop-jumps zero rand i j s below filled = filled (omega arith)
fill_loop-jumps (suc n) rand i j s below filled =
    fill_loop-jumps n rand (i + 1) j _ (omega arith) (λ less. elim (Bool-cases (j == i)) [
      | inl same ↦ rw same (omega arith)
      | inr other ↦ rw other (filled (ground arith))
    ])

delete_tree_runs :
    (s : Machine) (h : Heap TreeNode)
    → bound_tree_delete s.this_bound_tree ≡ ok h
    → delete_tree s ≡ ok (tt, s)
unfolding delete_tree
delete_tree_runs s h run = rw (run, delete_tree) refl

deletes : (s : Machine) → Finished s → delete_tree s ≡ ok (tt, s)
deletes s h = elim (Bool-cases (is_node h.shape)) [
  | inl inner ↦
      let (heap, run, _) = bound_tree_delete_all s.this_bound_tree h.shape h.is_tree inner in
      delete_tree_runs s heap run
  | inr empty ↦
      delete_tree_runs s s.this_bound_tree.heap
        (bound_tree_delete-null s.this_bound_tree h.shape h.is_tree (h.unrooted empty))
]

-- The state in which the loop begins.
begin-IsBounded :
    (room : ℕ) (s : Machine) (m : BoundTreeData)
    → slots ≤ room
    → ((i : ℕ) → i < slots → s.c i < slots)
    → s.this_bound_tree ≡ new_tree null room
    → find_range 0 s.this_bound_tree ≡ ok (some m, s.this_bound_tree)
    → IsBounded slots (some m) (record s { bound_val = m.bound; lower_val = 0 })
begin-IsBounded room s m enough jumps fresh found = record {
  shape = leaf;
  is_tree = rw fresh (new_tree-IsTree null room);
  unrooted = λ e. rw fresh (new_tree_root room);
  room = omega (arith, ap (λ b. b.heap.room) fresh, new_tree_room null room);
  left = uncovered_below-le slots leaf;
  found_is = found;
  lower = omega arith;
  jumps = jumps;
}

begin-Returns :
    (rounds room : ℕ) (s : Machine) (m : BoundTreeData)
    → slots ≤ room
    → 10300 < rounds
    → s.jump_flag ≡ false
    → ((i : ℕ) → i < slots → s.c i < slots)
    → s.this_bound_tree ≡ new_tree null room
    → find_range 0 s.this_bound_tree ≡ ok (some m, s.this_bound_tree)
    → Returns (λ (_, s'). Unit {0}) (begin rounds (some m) s)
unfolding begin
begin-Returns rounds room s m enough fuel idle jumps fresh found =
    let s₁ : Machine = record s { bound_val = m.bound; lower_val = 0 } in
    Returns-bind
      (execute-Next slots rounds 0 (some m) s₁ (begin-IsBounded room s m enough jumps fresh found)
        idle (omega arith) (omega arith) (omega arith))
      (λ at s₂ p.
        Returns-bind (simulate_ends rounds slots (some m) at s₂ p.0 p.1)
          (λ _ s₃ h. rw (deletes s₃ h) (returns tt)))

returned :
    {S : Type 0} {P : Unit {0} × S → Type 0} {r : Outcome (Unit {0} × S)}
    → Returns P r
    → (s : S) × (r ≡ ok (tt, s))
returned (returns {a} p) = (a.1, refl)

found_new : (room : ℕ) → BoundTreeData
found_new room = record { is_left_child = false; bound = 999; node = null }

find_range_new :
    (room : ℕ) → find_range 0 (new_tree null room) ≡ ok (some (found_new room), new_tree null room)
unfolding found_new new_tree
find_range_new room = find_range-search (new_tree null room) leaf 0 (new_tree-IsTree null room)

run_main_runs :
    (rounds room : ℕ) (s : Machine)
    → run_main true rounds null room s
      ≡ begin rounds (some (found_new room)) (record s { this_bound_tree = new_tree null room })
unfolding run_main make_tree bound_tree_new
run_main_runs rounds room s = rw (find_range_new room)

-- Whatever numbers `rand` returns, `main` of the simulation returns, if `malloc` makes the tree, leaves a
-- null pointer in its root and has memory for 100 ranges: 10,301 rounds of the loop are enough, and no
-- read or write goes wrong.
pub simulation_main-returns :
    (rand : ℕ → ℕ) (rounds room : ℕ) (s : Machine)
    → slots ≤ room
    → 10300 < rounds
    → s.jump_flag ≡ false
    → (s' : Machine) × (simulation_main rand true rounds null room s ≡ ok (tt, s'))
unfolding simulation_main
simulation_main-returns rand rounds room s enough fuel idle =
    let f = fill_loop slots rand 0 s in
    returned {P = λ _. Unit {0}} (
      subst (Returns (λ _. Unit {0})) (sym (run_main_runs rounds room f)) (
        begin-Returns rounds room (record f { this_bound_tree = new_tree null room })
          (found_new room) enough fuel (fill_loop-jump_flag slots rand 0 s ∙ idle)
          (λ i small. fill_loop-jumps slots rand 0 i s small (λ none. absurd (omega arith))) refl
          (find_range_new room)))
