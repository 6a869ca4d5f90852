-- ===== src/Simulation/Ends.antt =====
-- The loop of data/boundTree/boundTreeTest.c ends: each jump adds a range that holds an instruction that no
-- range held, and between two jumps the instructions go up.
use counter_rop.Common.{
  ℕ, zero, suc, ◌+◌, ◌-◌, ◌*◌, ◌<◌, ◌≤◌, ◌≡◌, refl, Bool, true, false, Option, none, some, arith,
  ltb, ◌||◌, if◌then◌else◌, ◌==◌, Bool-cases, inl, inr, sym, subst, ap, ◌∙◌, is_some, true≢false,
}
use counter_rop.Common.Word.{word_mod, le→slt}
use counter_rop.Common.Heap.{null}
use counter_rop.Common.Outcome.{Outcome, ok, Returns, returns, Returns-bind, and_then}
use counter_rop.BoundTree.{BoundTreeData, find_range}
use counter_rop.BoundTree.Shape.{node, leaf, Shape, IsTree, is_node, graft}
use counter_rop.BoundTree.Measure.{uncovered_below, uncovered_below-graft}
use counter_rop.BoundTree.Refine.{find_range-search, accepts}
use counter_rop.BoundTree.Bounds.{found_in-accepts}
use counter_rop.BoundTree.Direct.{direct_inserts}
use counter_rop.Simulation.{
  Machine, assign, execute_instruction_at, record_jump, simulate, unless_done, slots,
}

-- The tree is well formed, and no more than `u` instructions stand in no range, with memory for as many
-- ranges; `data` is what `boundFind` returns for `lowerVal`, and each jump leads to an instruction.
pub record IsBounded (u : ℕ) (found : Option BoundTreeData) (s : Machine) : Type 0 where
  pub shape : Shape
  pub is_tree : IsTree s.this_bound_tree shape
  pub unrooted : is_node shape ≡ false → s.this_bound_tree.root ≡ null
  pub room : u ≤ s.this_bound_tree.heap.room
  pub left : uncovered_below slots shape ≤ u
  pub found_is : find_range s.lower_val s.this_bound_tree ≡ ok (found, s.this_bound_tree)
  pub lower : s.lower_val < slots
  pub jumps : (i : ℕ) → i < slots → s.c i < slots

-- Where the machine stands, and that `k` rounds are enough from there.
pub data At (u : ℕ) (s : Machine) (k : ℕ) : Option ℕ → Type 0 where
  stopped : 0 < k → At u s k none
  jumped :
      {i : ℕ}
      → s.jump_flag ≡ true
      → i < slots
      → s.upper_val < slots
      → s.lower_val ≤ s.upper_val
      → 102 * u < k
      → At u s k (some i)
  walked :
      {i : ℕ}
      → s.jump_flag ≡ false
      → i ≤ slots
      → s.lower_val ≤ i
      → 102 * u + 102 ≤ k + i
      → At u s k (some i)

IsBounded-marks :
    (u : ℕ) (found : Option BoundTreeData) (s : Machine) (b : ℕ → ℕ) (jump : Bool) (upper : ℕ)
    → IsBounded u found s
    → IsBounded u found (record s { b = b; jump_flag = jump; upper_val = upper })
IsBounded-marks u found s b jump upper h = record {
  shape = h.shape;
  is_tree = h.is_tree;
  unrooted = h.unrooted;
  room = h.room;
  left = h.left;
  found_is = h.found_is;
  lower = h.lower;
  jumps = h.jumps;
}

-- One instruction, with `k` rounds left after it.
abbrev pub Next : ℕ → Option BoundTreeData → ℕ → Option ℕ × Machine → Type 0
Next u found k (at, s') = IsBounded u found s' × At u s' k at

pub execute-Next :
    (u k i : ℕ) (found : Option BoundTreeData) (s : Machine)
    → IsBounded u found s
    → s.jump_flag ≡ false
    → i ≤ slots
    → s.lower_val ≤ i
    → 102 * u + 102 ≤ suc k + i
    → Returns (Next u found k) (execute_instruction_at i s)
unfolding execute_instruction_at
execute-Next u k i found s h idle small above fuel =
    elim (Bool-cases (ltb s.bound_val i || ltb (slots - 1) i)) [
      | inl out ↦ rw out (returns (h, stopped (omega arith)))
      | inr within ↦
          let b = assign s.b i (if s.b i == 0 then 1 else 999) in
          let in_range : i < slots = ground arith in
          rw within (elim (Bool-cases (ltb (s.a i) 3)) [
            | inl jumps ↦ rw jumps (
                returns (
                  IsBounded-marks u found s b true i h,
                  jumped refl (h.jumps i in_range) in_range above (omega arith),
                ))
            | inr other ↦ rw other (elim (Bool-cases (s.a i == 9)) [
              | inl returned ↦ rw returned (
                  returns (
                    IsBounded-marks u found s b s.jump_flag (word_mod - 1) h,
                    stopped (omega arith),
                  ))
              | inr plain ↦ rw plain (
                  returns (
                    IsBounded-marks u found s b s.jump_flag s.upper_val h,
                    walked idle (omega arith) (omega arith) (omega arith),
                  ))
            ])
          ])
    ]

graft_node : (t : Shape) (n lo hi : ℕ) → is_node (graft t n lo hi) ≡ true
graft_node leaf n lo hi = refl
graft_node (node p a b l r) n lo hi = ground arith

abbrev is_found : {S : Type 0} → Outcome (Option BoundTreeData × S) → Bool
is_found (ok (found, _)) = is_some found
is_found _ = false

-- No range holds `lowerVal`.
lower_free :
    (u : ℕ) (m : BoundTreeData) (s : Machine) (h : IsBounded u (some m) s)
    → accepts h.shape s.lower_val ≡ true
lower_free u m s h =
    sym (found_in-accepts s.this_bound_tree h.shape s.lower_val)
    ∙ ap is_found
        (sym (find_range-search s.this_bound_tree h.shape s.lower_val h.is_tree) ∙ h.found_is)

-- What a jump leaves, before the next instruction.
record Jumped (u target : ℕ) (found : Option BoundTreeData) (s : Machine) : Type 0 where
  u' : ℕ
  fewer : u' < u
  bounded : IsBounded u' found s
  idle : s.jump_flag ≡ false
  at_target : s.lower_val ≡ target

jump_next :
    (u target : ℕ) (m : BoundTreeData) (s : Machine)
    → IsBounded u (some m) s
    → target < slots
    → s.upper_val < slots
    → s.lower_val ≤ s.upper_val
    → Returns (λ (found, s'). Jumped u target found s') (record_jump m target s)
unfolding record_jump
jump_next u target m s h small upper full =
    let fresh = s.this_bound_tree.heap.fresh in
    let fewer =
      uncovered_below-graft slots h.shape fresh s.lower_val s.upper_val h.lower (lower_free u m s h)
        (le→slt s.upper_val s.lower_val (omega arith)) in
    let (b, run, same, is, left, free) =
      direct_inserts s.this_bound_tree h.shape m s.lower_val s.upper_val h.is_tree
        (omega (arith, h.room, h.left, fewer)) h.found_is in
    let search = find_range-search b _ target is in
    rw (run, search)
      (returns (record {
        u' = u - 1;
        fewer = omega (arith, h.left, fewer);
        bounded = record {
          shape = _;
          is_tree = is;
          unrooted =
              λ e. absurd (true≢false (sym (graft_node h.shape fresh s.lower_val s.upper_val) ∙ e));
          room = omega (arith, h.room);
          left = omega (arith, h.left, fewer);
          found_is = search;
          lower = small;
          jumps = h.jumps;
        };
        idle = refl;
        at_target = refl;
      }))

-- What the loop leaves for `boundTree_delete`.
pub record Finished (s : Machine) : Type 0 where
  pub shape : Shape
  pub is_tree : IsTree s.this_bound_tree shape
  pub unrooted : is_node shape ≡ false → s.this_bound_tree.root ≡ null

finished : (u : ℕ) (found : Option BoundTreeData) (s : Machine) → IsBounded u found s → Finished s
finished u found s h = record { shape = h.shape; is_tree = h.is_tree; unrooted = h.unrooted }

-- The instruction after the part of the round that records a jump.
continue_round :
    (u k i : ℕ) (found : Option BoundTreeData) (s : Machine)
    → IsBounded u found s
    → s.jump_flag ≡ false
    → i ≤ slots
    → s.lower_val ≤ i
    → 102 * u + 102 ≤ suc k + i
    → Returns (Next u found k) (unless_done found i s)
unfolding unless_done
continue_round u k i none s h idle small above fuel = returns (h, stopped (omega arith))
continue_round u k i (some m) s h idle small above fuel =
    execute-Next u k i (some m) s h idle small above fuel

round_walks :
    (k i : ℕ) (m : BoundTreeData) (s : Machine)
    → s.jump_flag ≡ false
    → simulate (suc k) (some m) (some i) s
      ≡ and_then (unless_done (some m) i s) (λ at. simulate k (some m) at)
unfolding simulate
round_walks k i m s idle = rw idle refl

round_jumps :
    (k i : ℕ) (m : BoundTreeData) (s : Machine)
    → s.jump_flag ≡ true
    → simulate (suc k) (some m) (some i) s
      ≡ and_then
          (record_jump m i s)
          (λ found s₁. and_then (unless_done found i s₁) (λ at. simulate k found at))
unfolding simulate
round_jumps k i m s jumps = rw jumps refl

-- The loop of the simulation ends from any state in which no more than `u` instructions stand in no range,
-- with memory for as many ranges, in 102 rounds for each of them and one for each instruction above.
pub simulate_ends :
    (k u : ℕ) (found : Option BoundTreeData) (at : Option ℕ) (s : Machine)
    → IsBounded u found s
    → At u s k at
    → Returns (λ (_, s'). Finished s') (simulate k found at s)
unfolding simulate
simulate_ends zero u found at s h (stopped fuel) = absurd (omega arith)
simulate_ends zero u found at s h (jumped jumps small upper full fuel) = absurd (omega arith)
simulate_ends zero u found at s h (walked idle small above fuel) = absurd (omega arith)
simulate_ends (suc k) u none at s h p = returns (finished u none s h)
simulate_ends (suc k) u (some m) none s h p = returns (finished u (some m) s h)
simulate_ends (suc k) u (some m) (some i) s h (walked idle small above fuel) =
    subst (Returns (λ (_, s'). Finished s')) (sym (round_walks k i m s idle)) (
      Returns-bind (continue_round u k i (some m) s h idle small above fuel)
        (λ at s₁ p. simulate_ends k u (some m) at s₁ p.0 p.1))
simulate_ends (suc k) u (some m) (some i) s h (jumped jumps small upper full fuel) =
    subst (Returns (λ (_, s'). Finished s')) (sym (round_jumps k i m s jumps)) (
      Returns-bind (jump_next u i m s h small upper full) (λ found s₁ j.
        Returns-bind
          (continue_round j.u' k i found s₁ j.bounded j.idle (omega arith)
            (omega (arith, j.at_target)) (omega (arith, j.fewer)))
          (λ at s₂ p. simulate_ends k j.u' found at s₂ p.0 p.1)))
