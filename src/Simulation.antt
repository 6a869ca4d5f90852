-- ===== src/Simulation.antt =====
-- data/boundTree/boundTreeTest.c: a machine of 100 instructions whose jumps drive the tree of ranges the
-- way the analyser does. An `int` that is -1 as a return value is `none`.
pub mod Ends
pub mod Main
pub mod Safe
use counter_rop.Common.{
  ℕ, zero, suc, ◌+◌, ◌-◌, ◌*◌, ◌%◌, ◌==◌, ltb, if◌then◌else◌, Bool, true, false, ◌||◌, Option, none,
  some,
}
use counter_rop.Common.Word.{word_mod}
use counter_rop.Common.Heap.{Ptr, Heap}
use counter_rop.Common.Outcome.{
  Outcome, ok, fault, exits, out_of_fuel, Cmd, pure, get, modify, zoom, ◌>>=◌, ◌>>◌, then_with,
}
use counter_rop.BoundTree.{
  BoundTree, BoundTreeData, TreeNode, bound_tree_new, bound_tree_delete, find_range,
  direct_bound_tree_insert,
}

abbrev pub slots : ℕ
slots = 100

pub record Machine : Type 0 where
  pub a : ℕ → ℕ
  pub b : ℕ → ℕ
  pub c : ℕ → ℕ
  pub jump_flag : Bool
  pub bound_val : ℕ
  pub lower_val : ℕ
  pub upper_val : ℕ
  pub this_bound_tree : BoundTree

abbrev pub on_tree : {A : Type 0} → Cmd BoundTree A → Cmd Machine A
on_tree = zoom (λ s. s.this_bound_tree) (λ t s. record s { this_bound_tree = t })

-- `b[i] = v`.
abbrev pub assign : (ℕ → ℕ) → ℕ → ℕ → ℕ → ℕ
assign b i v j = if j == i then v else b j

unfoldable pub execute_instruction_at : ℕ → Cmd Machine (Option ℕ)
execute_instruction_at i = do
  s ← get
  if ltb s.bound_val i || ltb (slots - 1) i then pure none else (do
    modify (λ s. record s { b = assign s.b i (if s.b i == 0 then 1 else 999) })
    if ltb (s.a i) 3
        then (do modify (λ s. record s { jump_flag = true; upper_val = i }); pure (some (s.c i)))
        else if s.a i == 9
        then (do modify (λ s. record s { upper_val = word_mod - 1 }); pure none)
        else pure (some (i + 1)))

-- The body of `if (jumpFlag == 1)`; `data` is what the last `boundFind` returned.
unfoldable pub record_jump : BoundTreeData → ℕ → Cmd Machine (Option BoundTreeData)
record_jump found target = do
  s ← get
  modify (λ s. record s { jump_flag = false })
  on_tree (direct_bound_tree_insert found s.lower_val s.upper_val)
  modify (λ s. record s { lower_val = target })
  on_tree (find_range target)

-- The next instruction, if the loop does not end by `break`.
unfoldable pub unless_done : Option BoundTreeData → ℕ → Cmd Machine (Option ℕ)
unless_done none i = pure none
unless_done (some found) i = execute_instruction_at i

-- The loop; `none` is the end of it by `break` or by its test.
unfoldable pub simulate : ℕ → Option BoundTreeData → Option ℕ → Cmd Machine (Unit {0})
simulate zero found at = λ _. out_of_fuel
simulate (suc k) none at = pure tt
simulate (suc k) (some found) none = pure tt
simulate (suc k) (some found) (some i) = do
  s ← get
  found' ← if s.jump_flag then record_jump found i else pure (some found)
  at ← unless_done found' i
  simulate k found' at

-- `boundTree_delete(thisboundTree)`.
unfoldable pub delete_tree : Cmd Machine (Unit {0})
delete_tree s = elim (bound_tree_delete s.this_bound_tree) [
  | ok h ↦ ok (tt, s)
  | fault ↦ fault
  | exits n ↦ exits n
  | out_of_fuel ↦ out_of_fuel
]

-- `data->bound` is read before `data` is tested.
unfoldable pub begin : ℕ → Option BoundTreeData → Cmd Machine (Unit {0})
begin rounds none = λ _. fault
begin rounds (some found) = do
  modify (λ s. record s { bound_val = found.bound; lower_val = 0 })
  at ← execute_instruction_at 0
  simulate rounds (some found) at
  delete_tree

-- `made` says whether the `malloc` of the tree succeeds.
unfoldable pub make_tree : (made : Bool) (garbage : Ptr) (room : ℕ) → Cmd Machine (Unit {0})
make_tree made garbage room s =
    then_with (bound_tree_new made garbage room)
      (λ tree. ok (tt, record s { this_bound_tree = tree }))

-- `main`, where the arrays are filled.
unfoldable pub run_main :
    (made : Bool) (rounds : ℕ) (garbage : Ptr) (room : ℕ) → Cmd Machine (Unit {0})
run_main made rounds garbage room = do
  make_tree made garbage room
  found ← on_tree (find_range 0)
  begin rounds found

-- The loop that fills the arrays; `rand n` is what the call of `rand` number `n` returns.
unfoldable pub fill_loop : ℕ → (rand : ℕ → ℕ) → ℕ → Machine → Machine
fill_loop zero rand i s = s
fill_loop (suc n) rand i s = fill_loop n rand (i + 1) (record s {
  a = assign s.a i (rand (2 * i) % 10);
  b = assign s.b i 0;
  c = assign s.c i (rand (2 * i + 1) % slots);
})

-- `main` from its beginning.
unfoldable pub simulation_main :
    (rand : ℕ → ℕ) (made : Bool) (rounds : ℕ) (garbage : Ptr) (room : ℕ) → Cmd Machine (Unit {0})
simulation_main rand made rounds garbage room s =
    run_main made rounds garbage room (fill_loop slots rand 0 s)
