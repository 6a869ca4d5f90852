-- ===== src/Analyzer/Session.antt =====
-- A run of the program under the analyser, of elf/libaddr.cc and data/trap/trap.c: the next trap.
use counter_rop.Common.{
  ℕ, suc, ◌+◌, ◌*◌, ◌<◌, ◌≤◌, ◌≡◌, ◌≢◌, true, List, [], ◌∷◌, arith, sym, subst, ◌∙◌, inl, inr,
}
use counter_rop.Common.Outcome.{Returns, Returns-mono}
use counter_rop.LinkedList.Chain.{contains}
use counter_rop.BoundTree.Measure.{uncovered}
use counter_rop.Analyzer.{Analyzer, Registers}
use counter_rop.Analyzer.Analysed.{Analysed}
use counter_rop.Analyzer.Armed.{IsSite}
use counter_rop.Analyzer.Closed.{work, Explored-weaken}
use counter_rop.Analyzer.Explore.{Explored, Explored-Ready, view_of}
use counter_rop.Analyzer.Found.{IsIndirect, looked_at}
use counter_rop.Analyzer.Frame.{IsIdle}
use counter_rop.Analyzer.Handler.{trap_handler}
use counter_rop.Analyzer.Ready.{Ready}
use counter_rop.Analyzer.Recover.{trap_address}
use counter_rop.Analyzer.Rule.{length-enqueue}
use counter_rop.Analyzer.Trap.{System, trap_byte}
use counter_rop.Analyzer.Trapped.{Explored-registers, trap_handler-Analysed, trap_target}
use counter_rop.Analyzer.Udis.{Disassembler}
use counter_rop.Analyzer.Visited.{AllTrapped}
use counter_rop.Analyzer.Worklist.{World}

module _ (d : Disassembler) (sys : System) (garbage : ℕ) (orig : ℕ → ℕ)
    (sites : (u : d.Ud) → IsSite sys (d.insn_ptr u)) where
  -- The program runs into a trap byte that is not its own, at a call or jump through memory or a register
  -- that leads to an address other than 0.
  pub record IsTrap (s : Analyzer d.Ud) : Type 0 where
    pub byte : s.memory (trap_address s) ≡ trap_byte
    pub foreign : orig (trap_address s) ≢ trap_byte
    pub indirect : IsIndirect (d.insn_opr (looked_at d sys garbage orig s).ud_obj)
    pub leads : trap_target d sys garbage orig sites s ≢ 0

  abbrev pub at : Registers → Analyzer d.Ud → Analyzer d.Ud
  at r s = record s { registers = r }

  -- The program has run into the traps at `out`, and can run into `m` traps more, each of which will be
  -- handled: there is memory and there are rounds for all that can still be found, and each site has a
  -- trap byte but for those of `out`.
  pub record Running (out : List ℕ) (rounds m : ℕ) (s : Analyzer d.Ud) : Type 0 where
    pub world : World d
    pub explored : Explored d sys orig (m + 203 * uncovered world.shape) world s
    pub trapped : AllTrapped out world.memory world.found.sites
    pub idle : IsIdle s
    pub fuel : m + work d sys orig garbage sites world < rounds

  pub Running-Ready :
      (out : List ℕ) (rounds : ℕ) (s : Analyzer d.Ud) → Running out rounds 0 s → Ready sys orig 0 s
  Running-Ready out rounds s h =
      let e =
        Explored-weaken d sys orig 0 (203 * uncovered h.world.shape) h.world s (omega arith)
          (subst (λ n. Explored d sys orig n h.world s) (omega arith) h.explored) in
      (view_of d sys orig 0 h.world, Explored-Ready d sys orig 0 h.world s e)

  IsTrap-contains :
      (n : ℕ) (a : World d) (s : Analyzer d.Ud)
      → Explored d sys orig n a s
      → IsTrap s
      → contains (trap_address s) a.found.sites ≡ true
  IsTrap-contains n a s h trap = elim (h.holds.armed.bytes (trap_address s)) [
    | inl same ↦ absurd (trap.foreign (sym same ∙ trap.byte))
    | inr (known, _) ↦ h.holds.armed.listed (trap_address s) ∙ known
  ]

  -- The next trap is handled, and the program can run on.
  pub trap_handler-Running :
      (out : List ℕ) (rounds m : ℕ) (r : Registers) (s : Analyzer d.Ud)
      → Running out rounds (suc m) s
      → IsTrap (at r s)
      → Returns
          (λ (_, s'). Running (trap_address (at r s) ∷ out) rounds m s')
          (trap_handler d sys garbage rounds true (at r s))
  trap_handler-Running out rounds m r s h trap =
      let a = h.world in
      let n = m + 203 * uncovered a.shape in
      let e =
        Explored-registers d sys garbage orig (suc n) s.trap_flag r a s
          (subst (λ n. Explored d sys orig n a s) (omega arith) h.explored) in
      Returns-mono
        (trap_handler-Analysed d sys garbage orig sites out m rounds a (at r s) e h.trapped
          (record { no_trap = h.idle.no_trap; no_register = h.idle.no_register })
          (IsTrap-contains (suc n) a (at r s) e trap) trap.indirect trap.leads
          (omega (arith, h.fuel)))
        (λ (_, s') (p, idle, _). record {
          world = p.world;
          explored = p.explored;
          trapped =
              subst (λ f. AllTrapped (trap_address (at r s) ∷ out) f p.world.found.sites)
                p.explored.memory_is p.trapped;
          idle = idle;
          fuel = omega (
            arith,
            h.fuel,
            p.less,
            length-enqueue (trap_target d sys garbage orig sites (at r s)) a.found.queue,
          );
        })

  pub Running-weaken :
      (out : List ℕ) (rounds m n : ℕ) (s : Analyzer d.Ud)
      → n ≤ m
      → Running out rounds m s
      → Running out rounds n s
  Running-weaken out rounds m n s less h = record {
    world = h.world;
    explored =
        Explored-weaken d sys orig (n + 203 * uncovered h.world.shape)
          (m + 203 * uncovered h.world.shape) h.world s (omega arith) h.explored;
    trapped = h.trapped;
    idle = h.idle;
    fuel = omega (arith, h.fuel);
  }

  pub Analysed-Running :
      (rounds m x : ℕ) (a : World d) (s : Analyzer d.Ud)
      → Analysed d sys garbage orig sites [] m x a s
      → IsIdle s
      → m + work d sys orig garbage sites a < rounds
      → Running [] rounds m s
  Analysed-Running rounds m x a s h idle fuel = record {
    world = h.world;
    explored = h.explored;
    trapped = subst (λ f. AllTrapped [] f h.world.found.sites) h.explored.memory_is h.trapped;
    idle = idle;
    fuel = omega (arith, h.less);
  }
