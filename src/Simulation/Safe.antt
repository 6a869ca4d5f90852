-- ===== src/Simulation/Safe.antt =====
-- The loop of data/boundTree/boundTreeTest.c makes no wrong use of the tree.
use counter_rop.Common.{
  ℕ, zero, suc, ◌+◌, ◌-◌, ◌≤◌, ◌≡◌, Bool, true, Option, none, some, arith, ltb, ◌||◌, if◌then◌else◌,
  ◌==◌,
}
use counter_rop.Common.Word.{word_mod}
use counter_rop.Common.Outcome.{
  IsSafe, ended, going, Outcome, ok, Cmd, Returns, returns, Returns-if, pure, and_then,
}
use counter_rop.BoundTree.{BoundTreeData, find_range}
use counter_rop.BoundTree.Shape.{Shape, IsTree}
use counter_rop.BoundTree.Refine.{find_range-search}
use counter_rop.BoundTree.Direct.{direct_inserts}
use counter_rop.Simulation.{
  Machine, assign, execute_instruction_at, record_jump, simulate, unless_done, slots,
}

-- The tree is well formed, with memory for `n` more ranges, and `data` is what `boundFind` returns for
-- `lowerVal`.
pub record IsRunning (n : ℕ) (found : Option BoundTreeData) (s : Machine) : Type 0 where
  pub shape : Shape
  pub is_tree : IsTree s.this_bound_tree shape
  pub room : n ≤ s.this_bound_tree.heap.room
  pub found_is : find_range s.lower_val s.this_bound_tree ≡ ok (found, s.this_bound_tree)

IsRunning-marks :
    (n : ℕ) (found : Option BoundTreeData) (s : Machine) (b : ℕ → ℕ) (jump : Bool) (upper : ℕ)
    → IsRunning n found s
    → IsRunning n found (record s { b = b; jump_flag = jump; upper_val = upper })
IsRunning-marks n found s b jump upper h = record {
  shape = h.shape;
  is_tree = h.is_tree;
  room = h.room;
  found_is = h.found_is;
}

-- An instruction does not touch the tree.
execute-IsRunning :
    (n i : ℕ) (found : Option BoundTreeData) (s : Machine)
    → IsRunning n found s
    → Returns (λ (_, s'). IsRunning n found s') (execute_instruction_at i s)
unfolding execute_instruction_at
execute-IsRunning n i found s h =
    let b = assign s.b i (if s.b i == 0 then 1 else 999) in
    let s₁ : Machine = record s { b = b } in
    Returns-if (ltb s.bound_val i || ltb (slots - 1) i) _ _ s (returns h) (
      Returns-if (ltb (s.a i) 3) _ _ s₁ (returns (IsRunning-marks n found s b true i h)) (
        Returns-if (s.a i == 9) _ _ s₁
          (returns (IsRunning-marks n found s b s.jump_flag (word_mod - 1) h))
          (returns (IsRunning-marks n found s b s.jump_flag s.upper_val h))))

record_jump-IsRunning :
    (n target : ℕ) (m : BoundTreeData) (s : Machine)
    → IsRunning (suc n) (some m) s
    → Returns (λ (found, s'). IsRunning n found s') (record_jump m target s)
unfolding record_jump
record_jump-IsRunning n target m s h =
    let (b, run, same, is, left, free) =
      direct_inserts s.this_bound_tree h.shape m s.lower_val s.upper_val h.is_tree
        (omega (arith, h.room)) h.found_is in
    let search = find_range-search b _ target is in
    rw (run, search)
      (returns
        (record { shape = _; is_tree = is; room = omega (arith, h.room); found_is = search }))

IsRunning-weaken :
    (n m : ℕ) (found : Option BoundTreeData) (s : Machine)
    → n ≤ m
    → IsRunning m found s
    → IsRunning n found s
IsRunning-weaken n m found s less h = record {
  shape = h.shape;
  is_tree = h.is_tree;
  room = omega (arith, h.room);
  found_is = h.found_is;
}

and_then-IsSafe :
    {A B : Type 0} {r : Outcome (A × Machine)} {k : A → Cmd Machine B} (P : A × Machine → Type 0)
    (Q : Machine → Type 0)
    → Returns P r
    → ((a : A) (s : Machine) → P (a, s) → IsSafe (λ (_, s). Q s) (k a s))
    → IsSafe (λ (_, s). Q s) (and_then r k)
and_then-IsSafe P Q (returns {a} p) next = next a.0 a.1 p

-- The part of a round up to the next instruction.
next_instruction :
    (n i : ℕ) (found : Option BoundTreeData) (s : Machine)
    → IsRunning n found s
    → Returns (λ (_, s'). IsRunning n found s') (unless_done found i s)
unfolding unless_done
next_instruction n i none s h = returns h
next_instruction n i (some m) s h = execute-IsRunning n i (some m) s h

-- If the memory allows one new range a round, and `data` is what `boundFind` returned for `lowerVal` on a
-- well-formed tree, then the loop of the simulation, on any program, either ends or is still going
-- after the rounds it was given: no read or write goes wrong, and the tree stays well formed.
pub simulate-IsRunning :
    (k n : ℕ) (found : Option BoundTreeData) (at : Option ℕ) (s : Machine)
    → IsRunning (n + k) found s
    → IsSafe (λ (_, s'). (t : Shape) × IsTree s'.this_bound_tree t) (simulate k found at s)
unfolding simulate
simulate-IsRunning zero n found at s h = going
simulate-IsRunning (suc k) n none at s h = ended (h.shape, h.is_tree)
simulate-IsRunning (suc k) n (some m) none s h = ended (h.shape, h.is_tree)
simulate-IsRunning (suc k) n (some m) (some i) s h =
    let Q : Machine → Type 0 = λ s'. (t : Shape) × IsTree s'.this_bound_tree t in
    let jumped : Returns (λ (found, s'). IsRunning (n + k) found s')
        ((if s.jump_flag then record_jump m i else pure (some m)) s) =
      Returns-if s.jump_flag (record_jump m i) (pure (some m)) s
        (record_jump-IsRunning (n + k) i m s
          (IsRunning-weaken (suc (n + k)) (n + suc k) (some m) s (omega arith) h))
        (returns (IsRunning-weaken (n + k) (n + suc k) (some m) s (omega arith) h)) in
    and_then-IsSafe (λ (found, s'). IsRunning (n + k) found s') Q jumped
      (λ found s₁ h₁.
        and_then-IsSafe (λ (_, s'). IsRunning (n + k) found s') Q
          (next_instruction (n + k) i found s₁ h₁)
          (λ at s₂ h₂. simulate-IsRunning k n found at s₂ h₂))
