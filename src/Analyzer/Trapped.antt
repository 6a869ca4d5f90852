-- ===== src/Analyzer/Trapped.antt =====
-- `trap_handler` of data/trap/trap.c after the analysis of elf/libaddr.cc: what a call or jump through memory
-- or a register leads to is followed in its turn.
use counter_rop.Common.{
  ℕ, suc, ◌+◌, ◌-◌, ◌*◌, ◌<◌, ◌≡◌, ◌≢◌, true, List, ◌∷◌, arith, sym, subst, ◌∙◌, ◌==◌, Bool-cases,
  inl, inr,
}
use counter_rop.Common.Outcome.{Returns, returns, Returns-bind, Returns-mono}
use counter_rop.LinkedList.{list_insert}
use counter_rop.LinkedList.Chain.{contains}
use counter_rop.BoundTree.Measure.{uncovered}
use counter_rop.Analyzer.{Analyzer, Registers, poke}
use counter_rop.Analyzer.Analysed.{Analysed, asked, drain-Analysed, insert-Explored}
use counter_rop.Analyzer.Armed.{IsSite}
use counter_rop.Analyzer.Closed.{work}
use counter_rop.Analyzer.Explore.{Explored, Explored-Ready, view_of}
use counter_rop.Analyzer.Found.{IsIndirect, looked_at, target_queued, handler_runs}
use counter_rop.Analyzer.Frame.{IsIdle, Returns-Ensures, Frame, queue-Frames, drain-Frames}
use counter_rop.Analyzer.Handler.{trap_handler}
use counter_rop.Analyzer.Recover.{trap_address, bytes_restored}
use counter_rop.Analyzer.Rule.{contains-enqueue_self, length-enqueue}
use counter_rop.Analyzer.Target.{target, target_runs}
use counter_rop.Analyzer.Trap.{System}
use counter_rop.Analyzer.Udis.{Disassembler}
use counter_rop.Analyzer.Visited.{AllTrapped}
use counter_rop.Analyzer.Worklist.{World}

module _ (d : Disassembler) (orig : ℕ → ℕ) where
  -- The byte at `x` is put back, and the instruction there is looked at.
  abbrev pub put_back_at : ℕ → World d → World d
  put_back_at x a =
      let memory = poke a.memory x (orig x) in
      record a { memory = memory; ud = (d.disassemble memory (d.set_input_buffer x 100 a.ud)).1 }

module _ (d : Disassembler) (sys : System) (garbage : ℕ) (orig : ℕ → ℕ) where
  looked_at-Explored :
      (n : ℕ) (a : World d) (s : Analyzer d.Ud)
      → Explored d sys orig n a s
      → Explored d sys orig n
          (put_back_at d orig (trap_address s) a)
          (looked_at d sys garbage orig s)
  looked_at-Explored n a s h =
      let x = trap_address s in
      let memory_is : poke s.memory x (orig x) ≡ poke a.memory x (orig x) =
        λ i. poke (h.memory_is i) x (orig x) in
      record {
        holds = record {
          list = h.holds.list;
          there = h.holds.there;
          queue = h.holds.queue;
          valid = h.holds.valid;
          armed = record {
            maps = h.holds.armed.maps;
            stores = h.holds.armed.stores;
            bytes = λ y. bytes_restored orig s.memory a.found.originals x y (h.holds.armed.bytes y);
            originals = h.holds.armed.originals;
            listed = h.holds.armed.listed;
          };
          queue_room = h.holds.queue_room;
          valid_room = h.holds.valid_room;
          list_room = h.holds.list_room;
          table_room = h.holds.table_room;
        };
        memory_is = memory_is;
        ud_is = λ i. (d.disassemble (memory_is i) (d.set_input_buffer x 100 (h.ud_is i))).1;
        restorable = h.restorable;
        is_tree = h.is_tree;
        tree_room = h.tree_room;
      }

  put_back-AllTrapped :
      (out : List ℕ) (x : ℕ) (a : World d)
      → AllTrapped out a.memory a.found.sites
      → AllTrapped (x ∷ out) (put_back_at d orig x a).memory a.found.sites
  put_back-AllTrapped out x a h y outside listed = elim (Bool-cases (y == x)) [
    | inl same ↦ absurd (ground arith)
    | inr other ↦ rw other (h y (ground arith) listed)
  ]

  pub Explored-registers :
      (n f : ℕ) (r : Registers) (a : World d) (s : Analyzer d.Ud)
      → Explored d sys orig n a s
      → Explored d sys orig n a (record s { trap_flag = f; registers = r })
  Explored-registers n f r a s h = record {
    holds = record {
      list = h.holds.list;
      there = h.holds.there;
      queue = h.holds.queue;
      valid = h.holds.valid;
      armed = h.holds.armed;
      queue_room = h.holds.queue_room;
      valid_room = h.holds.valid_room;
      list_room = h.holds.list_room;
      table_room = h.holds.table_room;
    };
    memory_is = h.memory_is;
    ud_is = h.ud_is;
    restorable = h.restorable;
    is_tree = h.is_tree;
    tree_room = h.tree_room;
  }

module _ (d : Disassembler) (sys : System) (garbage : ℕ) (orig : ℕ → ℕ)
    (sites : (u : d.Ud) → IsSite sys (d.insn_ptr u)) where
  -- Where the instruction that ran into the trap leads.
  abbrev pub trap_target : Analyzer d.Ud → ℕ
  trap_target s = target d sys garbage orig (looked_at d sys garbage orig s)

  -- What was known of the program, with the target of the trap on the queue.
  abbrev pub trap_world : World d → Analyzer d.Ud → World d
  trap_world a s = let b = put_back_at d orig (trap_address s) a in asked d (trap_target s) b.ud b

  Analysed-flag :
      (out : List ℕ) (n x f : ℕ) (a : World d) (s : Analyzer d.Ud)
      → Analysed d sys garbage orig sites out n x a s
      → Analysed d sys garbage orig sites out n x a (record s { trap_flag = f })
  Analysed-flag out n x f a s h = record {
    world = h.world;
    run = h.run;
    explored =
        Explored-registers d sys garbage orig (n + 203 * uncovered h.world.shape) f s.registers
          h.world s h.explored;
    less = h.less;
    followed = h.followed;
    trapped = h.trapped;
    only = h.only;
    ranged = h.ranged;
    examined = h.examined;
  }

  -- The target on the queue.
  queued-Explored :
      (n : ℕ) (a : World d) (s : Analyzer d.Ud)
      → Explored d sys orig (suc n) a s
      → IsIdle s
      → IsIndirect (d.insn_opr (looked_at d sys garbage orig s).ud_obj)
      → Returns
          (λ (_, s').
            Explored d sys orig n (trap_world a s) s' × Frame (looked_at d sys garbage orig s) s')
          (target_queued d sys garbage orig (looked_at d sys garbage orig s))
  queued-Explored n a s h idle indirect =
      let s' = looked_at d sys garbage orig s in
      let b = put_back_at d orig (trap_address s) a in
      let h' = looked_at-Explored d sys garbage orig (suc n) a s h in
      subst (Returns _) (sym (target_runs d sys garbage orig s' indirect idle.no_register)) (
        Returns-mono
          (Returns-Ensures (insert-Explored d sys orig n (trap_target s) b s' h')
            (queue-Frames (list_insert (trap_target s)) s'))
          (λ (_, s₁) p. (
            subst (λ u. Explored d sys orig n (asked d (trap_target s) u b) s₁) (p.0.0 ∙ h'.ud_is)
                (p.0.1 s₁.ud_obj),
            p.1,
          )))

  -- In a state that holds what the loop has found so far, where no trap is being handled: let each
  -- instruction that the disassembler names stand at an address below 2 ^ 56, not 0, in a page that
  -- can be made writable, let a SIGTRAP come from a site, at an instruction with an operand in memory
  -- or in a register that leads to an address other than 0, and let there be memory for one insertion
  -- and 203 more for each address that no range holds, and more rounds than one, one for each address
  -- of the queue and 101 for each address that no range holds. Then `trap_handler` ends, with no flag
  -- up and the instruction pointer at the site: no read or write goes wrong and the process does not
  -- exit. It has run as the loop does without structures in memory, from what was known with the
  -- site's byte put back and the target on the queue; the new sites are the calls through memory and
  -- the jumps through memory or a register that it met; what it took for the target of each other call
  -- or jump that it met, a call through a register among them, was followed if it is not 0, or stands
  -- behind a 0 in the queue; each site has a trap byte, but for this one and those that had none
  -- before; the new ranges hold no addresses but those that a walk passed; and the target is held by a
  -- range, or stands behind a 0 in the queue.
  pub trap_handler-Analysed :
      (out : List ℕ) (n rounds : ℕ) (a : World d) (s : Analyzer d.Ud)
      → Explored d sys orig (suc (n + 203 * uncovered a.shape)) a s
      → AllTrapped out a.memory a.found.sites
      → IsIdle s
      → contains (trap_address s) a.found.sites ≡ true
      → IsIndirect (d.insn_opr (looked_at d sys garbage orig s).ud_obj)
      → trap_target s ≢ 0
      → suc (work d sys orig garbage sites a) < rounds
      → Returns
          (λ (_, s').
            Analysed d sys garbage orig sites
              (trap_address s ∷ out)
              n
              (trap_target s)
              (trap_world a s)
              s'
            × IsIdle s'
            × (s'.registers ≡ record s.registers { rip = trap_address s }))
          (trap_handler d sys garbage rounds true s)
  unfolding Explored-Ready
  trap_handler-Analysed out n rounds a s h trapped idle member indirect ne fuel =
      let m = n + 203 * uncovered a.shape in
      let x = trap_address s in
      let t = trap_target s in
      subst (Returns _)
        (sym (
          handler_runs d sys garbage orig sites (view_of d sys orig (suc m) a) (suc m) rounds s
            (Explored-Ready d sys orig (suc m) a s h) idle.no_trap member))
        (Returns-bind (queued-Explored m a s h idle indirect) (λ _ s₁ (h₁, f₁).
          Returns-bind
            (Returns-Ensures
              (drain-Analysed d sys garbage orig sites (x ∷ out) rounds n t (trap_world a s) s₁ h₁
                (put_back-AllTrapped d sys garbage orig out x a trapped)
                (contains-enqueue_self t a.found.queue) ne
                (omega (arith, length-enqueue t a.found.queue)))
              (drain-Frames d sys garbage rounds s₁))
            (λ _ s₂ (h₂, f₂). returns (
              Analysed-flag (x ∷ out) n t (s₂.trap_flag - 1) (trap_world a s) s₂ h₂,
              record {
                no_trap = omega (arith, f₂.trap_flag, f₁.trap_flag, idle.no_trap);
                no_register = f₂.reg_flag ∙ f₁.reg_flag ∙ idle.no_register;
              },
              f₂.registers ∙ f₁.registers,
            ))))
