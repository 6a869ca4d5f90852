-- ===== src/Analyzer/Life.antt =====
-- The life of the analyser: `wrapped_main` of elf/libaddr.cc, the traps that the program runs into, and
-- `shutdown` of data/trap/trap.c at the end.
use counter_rop.Common.{
  ℕ, suc, ◌+◌, ◌*◌, ◌≡◌, ◌≢◌, ◌≤◌, ◌<◌, refl, none, some, [], ◌++◌, sym, subst, arith,
}
use counter_rop.Common.Outcome.{
  IsSafe, ended, Returns-IsSafe, IsSafe-then, IsSafe-bind, ok, Cmd, Returns, returns, Returns-mono,
  Returns-bind, ◌>>=◌,
}
use counter_rop.Common.Heap.{Heap}
use counter_rop.LinkedList.{LinkedList, ListNode, list_delete}
use counter_rop.LinkedList.Chain.{Stores}
use counter_rop.LinkedList.Queue.{list_delete_all}
use counter_rop.BoundTree.Measure.{uncovered}
use counter_rop.Analyzer.{Analyzer}
use counter_rop.Analyzer.Armed.{IsSite}
use counter_rop.Analyzer.Drain.{drain-Ready}
use counter_rop.Analyzer.Ends.{Drained, drain-Drained, only, queue_first-Ready}
use counter_rop.Analyzer.Handler.{delete_address_list, wrapped_main}
use counter_rop.Analyzer.Ready.{View, Ready, ReadyAs, Recoverable}
use counter_rop.Analyzer.Steps.{queue-Ready}
use counter_rop.Analyzer.Restore.{shutdown-restores}
use counter_rop.Analyzer.Trap.{System, shutdown}
use counter_rop.Analyzer.Udis.{Disassembler}

module _ (d : Disassembler) (sys : System) (garbage : ℕ) (orig : ℕ → ℕ)
    (sites : (u : d.Ud) → IsSite sys (d.insn_ptr u)) where
  -- The program in memory is the original one.
  abbrev pub IsOriginal : Analyzer d.Ud → Type 0
  IsOriginal s = (a : ℕ) → s.memory a ≡ orig a

  -- `shutdown` can restore the program.
  abbrev pub IsRecoverable : Analyzer d.Ud → Type 0
  IsRecoverable s = Recoverable sys orig 0 s.original_start_bytes s.start_byte_list s.memory

  pub shutdown-IsRecoverable :
      (s : Analyzer d.Ud) → IsRecoverable s → Returns (λ (_, s'). IsOriginal s') (shutdown sys s)
  shutdown-IsRecoverable s h =
      let (s', run, same) = shutdown-restores sys orig s h.originals h.sites h.armed h.restorable in
      subst (Returns (λ (_, s'). IsOriginal s')) (sym run) (returns same)

  deleted :
      (s : Analyzer d.Ud) (q : LinkedList) (h : Heap ListNode)
      → s.address_list ≡ some q
      → list_delete (some q) ≡ ok (1, some h)
      → delete_address_list d sys garbage s ≡ ok (tt, record s { address_list = none })
  unfolding delete_address_list
  deleted s q h there run = rw (there, run, delete_address_list)

  pub delete-IsRecoverable :
      (s : Analyzer d.Ud)
      → Ready sys orig 0 s
      → Returns (λ (_, s'). IsRecoverable s') (delete_address_list d sys garbage s)
  delete-IsRecoverable s (w, h) =
      let q = h.queue in
      let (_, run, _) = list_delete_all q.queue (w.ahead ++ q.later) q.stores in
      subst (Returns (λ (_, s'). IsRecoverable s')) (sym (deleted s q.queue _ q.there run))
        (returns h.program)

  -- From a well-formed state in which the program is recoverable: if each instruction that the
  -- disassembler names stands at an address below 2 ^ 56, not 0, in a page that can be made writable,
  -- each structure has memory for one insertion, 203 more a round and what the program's run needs,
  -- and that run, with its traps, either is still going or leaves a well-formed state, then
  -- `wrapped_main` followed by `shutdown` either is still going after the rounds it was given, or ends
  -- with the original program in memory: no read or write goes wrong and the process does not exit.
  pub wrapped_main-restores :
      (init : d.Ud → d.Ud) (og_main : Cmd (Analyzer d.Ud) (Unit {0})) (n rounds func_address : ℕ)
      (s : Analyzer d.Ud)
      → ((s : Analyzer d.Ud)
          → Ready sys orig n s
          → IsSafe (λ (_, s'). Ready sys orig 0 s') (og_main s))
      → Ready sys orig (suc (n + 203 * rounds)) s
      → IsSafe
          (λ (_, s'). IsOriginal s')
          ((wrapped_main d sys garbage init og_main rounds func_address >>= λ _. shutdown sys) s)
  unfolding wrapped_main
  wrapped_main-restores init og_main n rounds func_address s runs (w, h) =
      let m = n + 203 * rounds in
      IsSafe-then IsRecoverable IsOriginal
        (Returns-IsSafe (ReadyAs sys orig w m) IsRecoverable
          (Returns-mono (queue-Ready sys orig w m func_address s h) (λ _ p. p.0))
          (λ _ s₁ h₁.
            IsSafe-bind (Ready sys orig n) IsRecoverable
              (drain-Ready d sys orig sites rounds n garbage (record s₁ { ud_obj = init s₁.ud_obj })
                (w, h₁))
              (λ _ s₂ h₂. IsSafe-bind (Ready sys orig 0) IsRecoverable (runs s₂ h₂) (λ _ s₃ h₃.
                Returns-IsSafe IsRecoverable IsRecoverable (delete-IsRecoverable s₃ h₃)
                  (λ _ s₄ h₄. ended h₄)))))
        (λ _ s₄ h₄. shutdown-IsRecoverable s₄ h₄)

  -- `wrapped_main` ends, with 0.
  pub wrapped_main-IsRecoverable :
      (init : d.Ud → d.Ud) (og_main : Cmd (Analyzer d.Ud) (Unit {0})) (n u rounds func_address : ℕ)
      (w : View) (q : LinkedList) (s : Analyzer d.Ud)
      → ((s : Analyzer d.Ud)
          → Drained sys orig (only (n + 203 * u) func_address w.shape) n s
          → Returns (λ (_, s'). Ready sys orig 0 s') (og_main s))
      → ReadyAs sys orig w (suc (n + 203 * u)) s
      → s.address_list ≡ some q
      → Stores q []
      → n + 203 * u < q.heap.room
      → uncovered w.shape ≤ u
      → 203 * u + 1 < rounds
      → func_address ≢ 0
      → Returns
          (λ (r, s'). (r ≡ 0) × IsRecoverable s')
          (wrapped_main d sys garbage init og_main rounds func_address s)
  unfolding wrapped_main
  wrapped_main-IsRecoverable init og_main n u rounds func_address w q s runs h there empty room
        enough fuel ne =
      let m = n + 203 * u in
      let v = only m func_address w.shape in
      Returns-bind (queue_first-Ready sys orig w m func_address q s h there empty room) (λ _ s₁ h₁.
        Returns-bind
          (drain-Drained d sys orig sites rounds n u garbage v
            (record s₁ { ud_obj = init s₁.ud_obj }) h₁ enough (omega arith) (ne, tt))
          (λ _ s₂ h₂.
            Returns-bind (runs s₂ h₂) (λ _ s₃ h₃.
              Returns-bind (delete-IsRecoverable s₃ h₃) (λ _ s₄ h₄. returns (refl, h₄)))))

  -- From a well-formed state with an empty queue in which the program is recoverable: if each
  -- instruction that the disassembler names stands at an address below 2 ^ 56, not 0, in a page that
  -- can be made writable, if `main` is not at 0, if each structure has memory for one insertion, 203
  -- more for each address that no range holds and what the program's run needs, and the rounds are more
  -- than 203 for each such address and one, then `wrapped_main` empties the queue before the program
  -- runs, and at that time a range holds the address of `main`. If the program's run from there, with
  -- its traps, ends in a well-formed state, then `wrapped_main` followed by `shutdown` ends with the
  -- original program in memory: no read or write goes wrong and the process does not exit.
  pub wrapped_main-ends :
      (init : d.Ud → d.Ud) (og_main : Cmd (Analyzer d.Ud) (Unit {0})) (n u rounds func_address : ℕ)
      (w : View) (q : LinkedList) (s : Analyzer d.Ud)
      → ((s : Analyzer d.Ud)
          → Drained sys orig (only (n + 203 * u) func_address w.shape) n s
          → Returns (λ (_, s'). Ready sys orig 0 s') (og_main s))
      → ReadyAs sys orig w (suc (n + 203 * u)) s
      → s.address_list ≡ some q
      → Stores q []
      → n + 203 * u < q.heap.room
      → uncovered w.shape ≤ u
      → 203 * u + 1 < rounds
      → func_address ≢ 0
      → Returns
          (λ (_, s'). IsOriginal s')
          ((wrapped_main d sys garbage init og_main rounds func_address >>= λ _. shutdown sys) s)
  wrapped_main-ends init og_main n u rounds func_address w q s runs h there empty room enough fuel
        ne =
      Returns-bind
        (wrapped_main-IsRecoverable init og_main n u rounds func_address w q s runs h there empty
          room enough fuel ne)
        (λ _ s₄ h₄. shutdown-IsRecoverable s₄ h₄.1)
