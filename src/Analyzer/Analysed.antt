-- ===== src/Analyzer/Analysed.antt =====
-- What the analysis of elf/libaddr.cc and data/trap/trap.c knows of a program when the queue is empty.
use counter_rop.Common.{
  ◌⊎◌, false, ℕ, suc, ◌+◌, ◌*◌, ◌<◌, ◌≤◌, ◌≡◌, ◌≢◌, refl, true, List, none, [], arith, sym, subst,
}
use counter_rop.Common.Outcome.{Outcome, ok, Returns, returns, Returns-mono}
use counter_rop.LinkedList.{list_insert}
use counter_rop.LinkedList.Chain.{contains}
use counter_rop.LinkedList.Queue.{list_insert-enqueue}
use counter_rop.BoundTree.Measure.{uncovered}
use counter_rop.BoundTree.Refine.{accepts}
use counter_rop.BoundTree.Shape.{leaf}
use counter_rop.Analyzer.{Analyzer, on_address_list}
use counter_rop.Analyzer.Armed.{IsSite}
use counter_rop.Analyzer.Closed.{work, drain-Reached}
use counter_rop.Analyzer.Complete.{IsWalked, Followed, Explores-Followed, Explores-AllTrapped}
use counter_rop.Analyzer.Effect.{jumps_to}
use counter_rop.Analyzer.Explore.{Explored}
use counter_rop.Analyzer.Handler.{drain}
use counter_rop.Analyzer.Sound.{IsFoundSite, IsPassed, Explores_site, Explores_range}
use counter_rop.Analyzer.Trap.{System}
use counter_rop.Analyzer.Udis.{Disassembler}
use counter_rop.Analyzer.Visited.{AllTrapped}
use counter_rop.Analyzer.Worklist.{World, Explores, IsSettled, IsQueued-now, Explores-settles}

-- The value of a run that ends well.
pub Returns-run :
    {R : Type 0} {P : R → Type 0} {r : Outcome R} → Returns P r → (x : R) × (r ≡ ok x) × P x
Returns-run (returns {a} p) = (a, refl, p)

-- Nothing is known of a program with the bytes `memory`.
abbrev pub blank : (d : Disassembler) → (ℕ → ℕ) → d.Ud → World d
blank d memory u = record {
  found = record { queue = []; valid = []; sites = []; originals = λ _. none };
  shape = leaf;
  memory = memory;
  ud = u;
}

-- One more address is to be looked at, by the disassembler `u`.
abbrev pub asked : (d : Disassembler) → ℕ → d.Ud → World d → World d
asked d x u a = record a { found = jumps_to x a.found; ud = u }

module _ (d : Disassembler) (sys : System) (orig : ℕ → ℕ) where
  pub insert-Explored :
      (n x : ℕ) (a : World d) (s : Analyzer d.Ud)
      → Explored d sys orig (suc n) a s
      → Returns
          (λ (_, s').
            (s'.ud_obj ≡ s.ud_obj)
            × ((u : d.Ud) → Explored d sys orig n (asked d x u a) (record s' { ud_obj = u })))
          (on_address_list (list_insert x) s)
  insert-Explored n x a s h =
      let (l, run, stores, left) =
        list_insert-enqueue h.holds.list x a.found.queue h.holds.queue
          (omega (arith, h.holds.queue_room)) in
      rw (h.holds.there, run)
        (returns (
          refl,
          λ u. record {
            holds = record {
              list = l;
              there = refl;
              queue = stores;
              valid = h.holds.valid;
              armed = h.holds.armed;
              queue_room = omega (arith, h.holds.queue_room);
              valid_room = omega (arith, h.holds.valid_room);
              list_room = omega (arith, h.holds.list_room);
              table_room = omega (arith, h.holds.table_room);
            };
            memory_is = h.memory_is;
            ud_is = refl;
            restorable = h.restorable;
            is_tree = h.is_tree;
            tree_room = omega (arith, h.tree_room);
          },
        ))

module _ (d : Disassembler) (sys : System) (garbage : ℕ) (orig : ℕ → ℕ)
    (sites : (u : d.Ud) → IsSite sys (d.insn_ptr u)) where
  -- What the analysis knows of the program when it was asked to look at `x`: it has run as the loop
  -- does without structures in memory; each call through memory and each jump through memory or a
  -- register that it met is a site, and has a trap byte unless it is in `out`, and there are no sites
  -- but these and those of `a`; what it took for the target of each other call or jump that it met was
  -- followed if it is not 0, or stands behind a 0 in the queue; the ranges hold no addresses but those
  -- that a walk passed and those of `a`; and a range holds `x`, if it does not stand behind a 0 in the
  -- queue. There is memory for `n` insertions, and for all that can still be found.
  pub record Analysed (out : List ℕ) (n x : ℕ) (a : World d) (s : Analyzer d.Ud) : Type 0 where
    pub world : World d
    pub run : Explores d garbage a world
    pub explored : Explored d sys orig (n + 203 * uncovered world.shape) world s
    pub less : work d sys orig garbage sites world ≤ work d sys orig garbage sites a
    pub followed : (v : d.Ud) (h : ℕ) → IsWalked d garbage v h run → Followed d garbage v h world
    pub trapped : AllTrapped out s.memory world.found.sites
    pub only :
        (y : ℕ)
        → contains y world.found.sites ≡ true
        → (contains y a.found.sites ≡ true) ⊎ IsFoundSite d garbage y run
    pub ranged :
        (y : ℕ)
        → accepts world.shape y ≡ false
        → (accepts a.shape y ≡ false) ⊎ IsPassed d garbage y run
    pub examined : IsSettled d garbage x world

  pub drain-Analysed :
      (out : List ℕ) (k n x : ℕ) (a : World d) (s : Analyzer d.Ud)
      → Explored d sys orig (n + 203 * uncovered a.shape) a s
      → AllTrapped out a.memory a.found.sites
      → contains x a.found.queue ≡ true
      → x ≢ 0
      → work d sys orig garbage sites a < k
      → Returns (λ (_, s'). Analysed out n x a s') (drain d sys garbage k s)
  drain-Analysed out k n x a s h trapped queued ne fuel =
      Returns-mono (drain-Reached d sys orig garbage sites k n a s h fuel) (λ (_, s') r. record {
        world = r.world;
        run = r.run;
        explored = r.explored;
        less = r.less;
        followed = λ v h. Explores-Followed d garbage v h r.run;
        trapped =
            subst (λ f. AllTrapped out f r.world.found.sites) (sym r.explored.memory_is)
              (Explores-AllTrapped d garbage out r.run trapped);
        only = λ y. Explores_site d garbage y r.run;
        ranged = λ y. Explores_range d garbage y r.run;
        examined = Explores-settles d garbage x ne r.run (IsQueued-now d garbage x r.run queued);
      })
