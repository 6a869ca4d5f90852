-- ===== src/Analyzer/Closed.antt =====
-- The loop that empties the queue, in `wrapped_main` of elf/libaddr.cc and `trap_handler` of
-- data/trap/trap.c: it ends, and has found what a run without structures in memory finds.
use counter_rop.Common.{
  ℕ, zero, suc, ◌+◌, ◌-◌, ◌*◌, ◌<◌, ◌≤◌, ◌≡◌, ◌≢◌, refl, true, false, Option, none, some, List, [],
  ◌∷◌, arith, sym, subst, ap, ◌∙◌, length, is_some, Bool-cases, inl, inr, ◌==◌, ==→ne, ==→eq,
}
use counter_rop.Common.Outcome.{ok, and_then, Returns, returns, Returns-bind, Returns-mono}
use counter_rop.Common.Word.{slt_self}
use counter_rop.LinkedList.Queue.{front, dequeue, list_pop-dequeue}
use counter_rop.BoundTree.{BoundTreeData, find_range}
use counter_rop.BoundTree.Bounds.{found_in-accepts}
use counter_rop.BoundTree.Measure.{uncovered, uncovered-graft}
use counter_rop.BoundTree.Refine.{find_range-search, found_in, accepts}
use counter_rop.Analyzer.{Analyzer}
use counter_rop.Analyzer.Armed.{IsSite}
use counter_rop.Analyzer.Drain.{drain_round}
use counter_rop.Analyzer.Effect.{Holds-weaken}
use counter_rop.Analyzer.Explore.{
  Explored, Explored-Ready, Explored-popped, view_of, walk-same, Walks, Walks-from,
  found_in-bound_at,
}
use counter_rop.Analyzer.Finds.{Matches, Returns-both, print_dis-survey}
use counter_rop.Analyzer.Handler.{examine, drain}
use counter_rop.Analyzer.Record.{print_dis-Recorded}
use counter_rop.Analyzer.Rule.{survey-length}
use counter_rop.Analyzer.Trap.{System}
use counter_rop.Analyzer.Udis.{Disassembler}
use counter_rop.Analyzer.Worklist.{
  World, bound_at, next_address, popped, walk, walked, Explores, stops, passes, walks,
}

pub Explored-weaken :
    (d : Disassembler) (sys : System) (orig : ℕ → ℕ) (n m : ℕ) (a : World d) (s : Analyzer d.Ud)
    → n ≤ m
    → Explored d sys orig m a s
    → Explored d sys orig n a s
Explored-weaken d sys orig n m a s less h = record {
  holds = Holds-weaken orig n m a.found s less h.holds;
  memory_is = h.memory_is;
  ud_is = h.ud_is;
  restorable = h.restorable;
  is_tree = h.is_tree;
  tree_room = omega (arith, h.tree_room);
}

length-dequeue : (xs : List ℕ) → front xs ≢ 0 → suc (length (dequeue xs)) ≡ length xs
length-dequeue [] ne = absurd (ne refl)
length-dequeue (x ∷ xs) ne = refl

length-shrinks : (xs : List ℕ) → length (dequeue xs) ≤ length xs
length-shrinks [] = omega arith
length-shrinks (x ∷ xs) = omega arith

module _ (d : Disassembler) (sys : System) (orig : ℕ → ℕ) (garbage : ℕ)
    (sites : (u : d.Ud) → IsSite sys (d.insn_ptr u)) where
  examine-Walks :
      (n : ℕ) (a : World d) (s : Analyzer d.Ud) (m : BoundTreeData)
      → Explored d sys orig (n + 203) (popped d garbage a) (record s {
        tree_data = some m;
        lower_val = next_address d garbage a;
        bound_val = m.bound;
      })
      → found_in s.this_bound_tree a.shape (next_address d garbage a) ≡ some m
      → Returns
          (λ (_, s'). Walks d sys orig garbage sites n a s')
          (examine d sys garbage
            (some m)
            (next_address d garbage a)
            (record s { tree_data = some m }))
  unfolding examine
  examine-Walks n a s m h search =
      let x = next_address d garbage a in
      let s₂ : Analyzer d.Ud = record s {
        tree_data = some m;
        lower_val = x;
        bound_val = m.bound;
      } in
      let w = view_of d sys orig (n + 203) (popped d garbage a) in
      let ready = Explored-Ready d sys orig (n + 203) (popped d garbage a) s₂ h in
      let found : find_range x s.this_bound_tree ≡ ok (some m, s.this_bound_tree) =
        subst (λ o. find_range x s.this_bound_tree ≡ ok (o, s.this_bound_tree)) search
          (find_range-search s.this_bound_tree a.shape x h.is_tree) in
      Returns-mono
        (Returns-both (print_dis-Recorded d sys orig w sites garbage n s₂ m ready refl found) (
          print_dis-survey d sys orig w sites garbage n (popped d garbage a).found s₂ m ready refl
            found h.holds))
        (λ (_, s') (r, p).
          Walks-from d sys orig garbage sites n a s₂ s' w refl refl h.restorable r (
            subst (λ z. Matches d sys orig n z s')
              (walk-same d sys orig garbage sites a s m h.memory_is h.ud_is
                (found_in-bound_at s.this_bound_tree a.shape x m search))
              p))

  -- How long the loop can still go on: an address of the queue takes a round, and so does each of the
  -- at most 101 addresses that a walk adds, of which there is one for each address that no range holds.
  abbrev pub work : World d → ℕ
  work a = length a.found.queue + 101 * uncovered a.shape

  -- A state that the loop can reach from the first one.
  pub record Reached (n : ℕ) (a : World d) (s : Analyzer d.Ud) : Type 0 where
    pub world : World d
    pub run : Explores d garbage a world
    pub explored : Explored d sys orig (n + 203 * uncovered world.shape) world s
    pub less : work world ≤ work a

  uncovered_some : (a : World d) (x : ℕ) → accepts a.shape x ≡ true → 0 < uncovered a.shape
  uncovered_some a x free = omega (arith, uncovered-graft a.shape 0 x x free (slt_self x))

  walk-length :
      (a : World d) → length (walk d garbage a).found.queue ≤ 101 + length (dequeue a.found.queue)
  walk-length a =
      let x = next_address d garbage a in
      survey-length d 101 (bound_at a.shape x) a.memory (d.set_input_buffer x 100 a.ud) garbage true
        x (popped d garbage a).found

  -- What the rounds that are left do.
  abbrev Rest : ℕ → ℕ → Type 0
  Rest k n =
      (a : World d) (s : Analyzer d.Ud)
      → Explored d sys orig (n + 203 * uncovered a.shape) a s
      → work a < k
      → Returns (λ (_, s'). Reached n a s') (drain d sys garbage k s)

  -- A round at an address that is not 0.
  round-Reached :
      (k n : ℕ) (a : World d) (s : Analyzer d.Ud) (found : Option BoundTreeData)
      → ((t : Option BoundTreeData) (lower bound : ℕ)
          → Explored d sys orig
              (n + 203 * uncovered a.shape)
              (popped d garbage a)
              (record s { tree_data = t; lower_val = lower; bound_val = bound }))
      → found_in s.this_bound_tree a.shape (next_address d garbage a) ≡ found
      → next_address d garbage a ≢ 0
      → work a ≤ k
      → Rest k n
      → Returns
          (λ (_, s'). Reached n a s')
          (and_then
            (examine d sys garbage found
              (next_address d garbage a)
              (record s { tree_data = found }))
            (λ _. drain d sys garbage k))
  unfolding examine
  round-Reached k n a s none left e more fuel rest =
      let held : accepts a.shape (next_address d garbage a) ≡ false =
        sym (found_in-accepts s.this_bound_tree a.shape (next_address d garbage a))
        ∙ ap is_some e in
      let shorter = length-dequeue a.found.queue more in
      Returns-mono
        (rest (popped d garbage a) _ (left none s.lower_val s.bound_val) (omega (arith, shorter)))
        (λ _ r. record {
          world = r.world;
          run = passes more held r.run;
          explored = r.explored;
          less = omega (arith, r.less, shorter);
        })
  round-Reached k n a s (some m) left e more fuel rest =
      let x = next_address d garbage a in
      let free : accepts a.shape x ≡ true =
        sym (found_in-accepts s.this_bound_tree a.shape x) ∙ ap is_some e in
      let u = uncovered a.shape in
      let some_left = uncovered_some a x free in
      let shorter = length-dequeue a.found.queue more in
      let longer = walk-length a in
      Returns-bind
        (examine-Walks (n + 203 * (u - 1)) a s m
          (Explored-weaken d sys orig (n + 203 * (u - 1) + 203) (n + 203 * u) (popped d garbage a) _
            (omega arith) (left (some m) x m.bound))
          e)
        (λ _ s' w.
          let b = walked d garbage w.at a in
          let explored =
            Explored-weaken d sys orig (n + 203 * uncovered b.shape) (n + 203 * (u - 1)) b s'
              (omega (arith, w.fewer)) w.explored in
          Returns-mono (rest b s' explored (omega (arith, longer, shorter, w.fewer))) (λ _ r.
            record {
              world = r.world;
              run = walks w.at more free w.full r.run;
              explored = r.explored;
              less = omega (arith, r.less, longer, shorter, w.fewer);
            }))

  -- In a state that holds what the loop has found so far: let each instruction that the disassembler names
  -- stand at an address below 2 ^ 56, not 0, in a page that can be made writable, let each structure
  -- have memory for 203 insertions for each address that no range holds, and let there be more rounds
  -- than addresses in the queue and 101 for each address that no range holds. Then the loop that empties
  -- the queue ends: no read or write goes wrong and the process does not exit. Its run is one of the loop
  -- without structures in memory, and the lists, the table, the tree, memory and the disassembler hold
  -- what that run found, with memory for all that can still be found; the addresses in the queue, with
  -- 101 for each address that no range holds, did not become more.
  pub drain-Reached :
      (k n : ℕ) (a : World d) (s : Analyzer d.Ud)
      → Explored d sys orig (n + 203 * uncovered a.shape) a s
      → work a < k
      → Returns (λ (_, s'). Reached n a s') (drain d sys garbage k s)
  drain-Reached zero n a s h fuel = absurd (omega arith)
  drain-Reached (suc k) n a s h fuel =
      let m = n + 203 * uncovered a.shape in
      let x = next_address d garbage a in
      let (l, popping, stores, same) = list_pop-dequeue h.holds.list a.found.queue h.holds.queue in
      let room : m ≤ l.heap.room = omega (arith, h.holds.queue_room) in
      let found = found_in s.this_bound_tree a.shape x in
      let s₁ : Analyzer d.Ud = record s { address_list = some l } in
      let left = λ (t : Option BoundTreeData) (lower bound : ℕ).
        Explored-popped d sys orig garbage sites m a s l t lower bound h stores room in
      subst (Returns (λ (_, s'). Reached n a s'))
        (sym (
          drain_round d sys garbage k x s h.holds.list l found h.holds.there popping
            (find_range-search s.this_bound_tree a.shape x h.is_tree)))
        (elim (Bool-cases (x == 0)) [
          | inl last ↦ rw last (
              returns (record {
                world = popped d garbage a;
                run = stops (==→eq x 0 last);
                explored = left s.tree_data s.lower_val s.bound_val;
                less = omega (arith, length-shrinks a.found.queue);
              }))
          | inr more ↦ rw more (
              round-Reached k n a s₁ found left refl (==→ne x 0 more) (omega arith)
                (drain-Reached k n))
        ])
