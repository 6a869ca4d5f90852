-- ===== src/Analyzer/Alike.antt =====
-- What the loop that empties the queue, in `wrapped_main` of elf/libaddr.cc and `trap_handler` of
-- data/trap/trap.c, finds does not depend on where `malloc` puts things.
use counter_rop.Common.{ℕ, ◌+◌, ◌*◌, ◌<◌, ◌≡◌, refl, true, ap, sym, subst, ◌∙◌, true≢false, arith}
use counter_rop.Common.Heap.{Ptr}
use counter_rop.Common.Outcome.{Returns, Returns-mono}
use counter_rop.Common.Word.{add64, sub64}
use counter_rop.LinkedList.Queue.{front, dequeue}
use counter_rop.BoundTree.{no_bound}
use counter_rop.BoundTree.Measure.{uncovered}
use counter_rop.BoundTree.Places.{IsAlike, leaves, nodes, accepts-IsAlike, graft-IsAlike}
use counter_rop.BoundTree.Refine.{accepts}
use counter_rop.BoundTree.Shape.{Shape, graft}
use counter_rop.Analyzer.{Analyzer}
use counter_rop.Analyzer.Armed.{IsSite}
use counter_rop.Analyzer.Closed.{Explored-weaken, work, drain-Reached}
use counter_rop.Analyzer.Effect.{Discovered}
use counter_rop.Analyzer.Explore.{Explored}
use counter_rop.Analyzer.Handler.{drain}
use counter_rop.Analyzer.Survey.{survey}
use counter_rop.Analyzer.Trap.{System}
use counter_rop.Analyzer.Udis.{Disassembler}
use counter_rop.Analyzer.Worklist.{
  World, bound_on, bound_at, next_address, popped, walk, walked, Explores, stops, passes, walks,
}

bound_on-IsAlike :
    {t t' : Shape} (bound x : ℕ) → IsAlike t t' → bound_on t bound x ≡ bound_on t' bound x
bound_on-IsAlike bound x leaves = refl
bound_on-IsAlike bound x (nodes {lo = lo} l r) =
    ground (arith, bound_on-IsAlike (sub64 lo 1) x l, bound_on-IsAlike (add64 x no_bound) x r)

bound_at-IsAlike : {t t' : Shape} (x : ℕ) → IsAlike t t' → bound_at t x ≡ bound_at t' x
bound_at-IsAlike x leaves = refl
bound_at-IsAlike x (nodes {p} {q} l r) = bound_on-IsAlike 0 x (nodes {p = p} {q = q} l r)

-- The same is known, but the nodes of the tree may stand elsewhere.
pub record IsSame (d : Disassembler) (a b : World d) : Type 0 where
  pub found : a.found ≡ b.found
  pub memory : a.memory ≡ b.memory
  pub ud : a.ud ≡ b.ud
  pub shape : IsAlike a.shape b.shape

module _ (d : Disassembler) (garbage : ℕ) where
  next-IsSame : {a b : World d} → IsSame d a b → next_address d garbage a ≡ next_address d garbage b
  next-IsSame h = ap (λ f. front f.queue) h.found

  popped-IsSame :
      {a b : World d} → IsSame d a b → IsSame d (popped d garbage a) (popped d garbage b)
  popped-IsSame h = record {
    found = ap (λ (f : Discovered). record f { queue = dequeue f.queue }) h.found;
    memory = h.memory;
    ud = h.ud;
    shape = h.shape;
  }

  walk-IsSame : {a b : World d} → IsSame d a b → walk d garbage a ≡ walk d garbage b
  walk-IsSame {a} {b} h =
      let e = next-IsSame h in
      let bounds : bound_at a.shape (next_address d garbage a)
          ≡ bound_at b.shape (next_address d garbage b) =
        bound_at-IsAlike (next_address d garbage a) h.shape ∙ ap (bound_at b.shape) e in
      λ i.
        survey d 101 (bounds i) (h.memory i) (d.set_input_buffer (e i) 100 (h.ud i)) garbage true
          (e i) ((popped-IsSame h).found i)

  walked-IsSame :
      {a b : World d} (p q : Ptr)
      → IsSame d a b
      → IsSame d (walked d garbage p a) (walked d garbage q b)
  walked-IsSame {a} {b} p q h =
      let w = walk-IsSame h in
      let x = next_address d garbage a in
      let last = (walk d garbage a).last in
      record {
        found = ap (λ r. r.found) w;
        memory = ap (λ r. r.memory) w;
        ud = ap (λ r. r.ud) w;
        shape =
            subst (λ (y, z). IsAlike (graft a.shape p x last) (graft b.shape q y z))
              (λ i. (next-IsSame h i, (w i).last)) (graft-IsAlike p q x last h.shape);
      }

  accepts-IsSame :
      {a b : World d}
      → IsSame d a b
      → accepts a.shape (next_address d garbage a) ≡ accepts b.shape (next_address d garbage b)
  accepts-IsSame {a} {b} h =
      accepts-IsAlike (next_address d garbage a) h.shape ∙ ap (accepts b.shape) (next-IsSame h)

  -- Two runs of the loop from the same knowledge find the same, wherever they put the nodes.
  pub Explores-IsSame :
      {a a' b b' : World d}
      → IsSame d a a'
      → Explores d garbage a b
      → Explores d garbage a' b'
      → IsSame d b b'
  Explores-IsSame h (stops e) (stops e') = popped-IsSame h
  Explores-IsSame h (stops e) (passes ne held r) = absurd (ne (sym (next-IsSame h) ∙ e))
  Explores-IsSame h (stops e) (walks at ne free full r) = absurd (ne (sym (next-IsSame h) ∙ e))
  Explores-IsSame h (passes ne held r) (stops e') = absurd (ne (next-IsSame h ∙ e'))
  Explores-IsSame h (passes ne held r) (passes ne' held' r') =
      Explores-IsSame (popped-IsSame h) r r'
  Explores-IsSame h (passes ne held r) (walks at ne' free full r') =
      absurd (true≢false (sym free ∙ sym (accepts-IsSame h) ∙ held))
  Explores-IsSame h (walks at ne free full r) (stops e') = absurd (ne (next-IsSame h ∙ e'))
  Explores-IsSame h (walks at ne free full r) (passes ne' held r') =
      absurd (true≢false (sym free ∙ accepts-IsSame h ∙ held))
  Explores-IsSame h (walks at ne free full r) (walks at' ne' free' full' r') =
      Explores-IsSame (walked-IsSame at at' h) r r'

module _ (d : Disassembler) (sys : System) (orig : ℕ → ℕ) (garbage : ℕ)
    (sites : (u : d.Ud) → IsSite sys (d.insn_ptr u)) where
  -- Two states of the code that hold the same, but for the places of things in memory.
  pub record Agree (n : ℕ) (s s' : Analyzer d.Ud) : Type 0 where
    pub world : World d
    pub world' : World d
    pub explored : Explored d sys orig n world s
    pub explored' : Explored d sys orig n world' s'
    pub same : IsSame d world world'

  -- Let two states of the code hold the same findings, wherever the nodes of their lists, tables and trees
  -- stand and whatever else is in them; let each instruction that the disassembler names stand at an
  -- address below 2 ^ 56, not 0, in a page that can be made writable, and let each state have memory for
  -- 203 insertions for each address that no range holds, and more rounds than addresses in the queue and
  -- 101 for each address that no range holds. Then the loop that empties the queue ends on both, and the
  -- two states hold the same findings again: the same queue, valid addresses, sites and original bytes,
  -- the same bytes of memory, and trees with the same ranges in the same order.
  pub drain-Agree :
      (k k' n : ℕ) (a a' : World d) (s s' : Analyzer d.Ud)
      → Explored d sys orig (n + 203 * uncovered a.shape) a s
      → Explored d sys orig (n + 203 * uncovered a'.shape) a' s'
      → IsSame d a a'
      → work d sys orig garbage sites a < k
      → work d sys orig garbage sites a' < k'
      → Returns
          (λ (_, t). Returns (λ (_, t'). Agree n t t') (drain d sys garbage k' s'))
          (drain d sys garbage k s)
  drain-Agree k k' n a a' s s' h h' same fuel fuel' =
      Returns-mono (drain-Reached d sys orig garbage sites k n a s h fuel) (λ (_, t) r.
        Returns-mono (drain-Reached d sys orig garbage sites k' n a' s' h' fuel') (λ (_, t') r'.
          record {
            world = r.world;
            world' = r'.world;
            explored =
                Explored-weaken d sys orig n (n + 203 * uncovered r.world.shape) r.world t
                  (omega arith) r.explored;
            explored' =
                Explored-weaken d sys orig n (n + 203 * uncovered r'.world.shape) r'.world t'
                  (omega arith) r'.explored;
            same = Explores-IsSame d garbage same r.run r'.run;
          }))
