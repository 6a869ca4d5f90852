-- ===== src/Analyzer/Finish.antt =====
-- The end of a run with elf/libaddr.cc and data/trap/trap.c: `wrapped_main` returns, and `shutdown` restores
-- the program.
use counter_rop.Common.{
  List, [], ℕ, suc, ◌+◌, ◌*◌, ◌<◌, ◌≤◌, ◌≡◌, ◌≢◌, refl, true, arith, sym, subst, ◌∙◌,
}
use counter_rop.Common.Heap.{Ptr}
use counter_rop.Common.Outcome.{
  Outcome, ok, fault, exits, out_of_fuel, pure, and_then, Cmd, Returns, returns, Returns-bind,
  then_with, ◌>>=◌,
}
use counter_rop.Common.Word.{word_mod}
use counter_rop.BoundTree.Measure.{uncovered_words}
use counter_rop.BoundTree.Shape.{leaf}
use counter_rop.Analyzer.{Analyzer, Registers}
use counter_rop.Analyzer.Loaded.{start-Analysed, from_main, to_main}
use counter_rop.Analyzer.Armed.{IsSite}
use counter_rop.Analyzer.Handler.{delete_address_list, wrapped_main}
use counter_rop.Analyzer.Life.{
  IsOriginal, IsRecoverable, delete-IsRecoverable, shutdown-IsRecoverable,
}
use counter_rop.Analyzer.Session.{Running, Running-Ready, Analysed-Running}
use counter_rop.Analyzer.Execution.{RunsTo, RunsTo-Running}
use counter_rop.Analyzer.Start.{start}
use counter_rop.Analyzer.Trap.{System, shutdown}
use counter_rop.Analyzer.Udis.{Disassembler}

then_with-and_then :
    {A S B C : Type 0} (r : Outcome A) (w : A → Outcome (B × S)) (k : B → Cmd S C)
    → then_with r (λ a. and_then (w a) k) ≡ and_then (then_with r w) k
then_with-and_then (ok a) w k = refl
then_with-and_then fault w k = refl
then_with-and_then (exits n) w k = refl
then_with-and_then out_of_fuel w k = refl

module _ (d : Disassembler) (sys : System) (garbage : ℕ) (orig : ℕ → ℕ)
    (sites : (u : d.Ud) → IsSite sys (d.insn_ptr u)) where
  from_main_runs :
      (og_main : Cmd (Analyzer d.Ud) (Unit {0})) (s s' : Analyzer d.Ud)
      → og_main s ≡ ok (tt, s')
      → from_main d sys garbage orig sites og_main s
        ≡ (delete_address_list d sys garbage >>= λ _. pure 0) s'
  from_main_runs og_main s s' ran = rw ran refl

module _ (d : Disassembler) (sys : System) (garbage : ℕ)
    (sites : (u : d.Ud) → IsSite sys (d.insn_ptr u)) where
  -- `wrapped_main` ends, with 0, and `shutdown` can restore the program.
  pub wrapped_main_finishes :
      (init : d.Ud → d.Ud) (garbage_root : Ptr) (room : ℕ) (registers : Registers)
      (memory final : ℕ → ℕ) (u : d.Ud) (m rounds func_address : ℕ)
      (og_main : Cmd (Analyzer d.Ud) (Unit {0}))
      → suc (m + 203 * word_mod) ≤ room
      → m + 101 * word_mod + 1 < rounds
      → func_address ≢ 0
      → ((s₁ : Analyzer d.Ud)
          → then_with
              (start (λ _. true) garbage_root room registers memory u)
              (to_main d sys garbage memory sites init rounds func_address)
            ≡ ok (tt, s₁)
          → (out : List ℕ) × (s₂ : Analyzer d.Ud) × RunsTo d sys garbage sites rounds m [] memory s₁
              out final s₂
            × (og_main s₁ ≡ ok (tt, s₂)))
      → Returns
          (λ (n, s'). (n ≡ 0) × IsRecoverable d sys garbage final sites s')
          (then_with
            (start (λ _. true) garbage_root room registers memory u)
            (wrapped_main d sys garbage init og_main rounds func_address))
  wrapped_main_finishes init garbage_root room registers memory final u m rounds x og_main left fuel
        ne program =
      let (s₁, analysed, idle, reached, runs) =
        start-Analysed d sys garbage sites init garbage_root room registers memory u m rounds x left
          (omega arith) ne in
      let running =
        Analysed-Running d sys garbage memory sites rounds m x _ s₁ analysed idle
          (omega (arith, uncovered_words leaf)) in
      let (out, s₂, trapped, ran) = program s₁ reached in
      let running' =
        RunsTo-Running d sys garbage sites 0 trapped
          (subst (λ k. Running d sys garbage memory sites [] rounds k s₁) (omega arith) running) in
      subst (Returns (λ (n, s'). (n ≡ 0) × IsRecoverable d sys garbage final sites s'))
        (sym (runs og_main ∙ from_main_runs d sys garbage memory sites og_main s₁ s₂ ran))
        (Returns-bind
          (delete-IsRecoverable d sys garbage final sites s₂
            (Running-Ready d sys garbage final sites out rounds s₂ running'))
          (λ _ s₃ h₃. returns (refl, h₃)))

  -- Let the library be loaded in a process that has memory for its globals, and let `wrapped_main` be
  -- called for a `main` that is not at 0, and `shutdown` after it. Let each instruction that the
  -- disassembler names stand at an address below 2 ^ 56, not 0, in a page that can be made writable, let
  -- each structure have memory for one insertion, for 203 more for each word and for one for each of `m`
  -- traps, and let there be more rounds than 101 for each word, one for each trap and one. Let the
  -- program, in the state in which `wrapped_main` calls it, run into at most `m` traps, each a trap byte
  -- that is not its own at a call or jump through memory or a register that leads to an address other
  -- than 0, let it store bytes, but not at a site, that would make `final` of the bytes of memory if
  -- there were no traps, and let it return. Then the whole run ends, with the bytes of `final` in memory:
  -- no read or write goes wrong and the process does not exit.
  pub session-restores :
      (init : d.Ud → d.Ud) (garbage_root : Ptr) (room : ℕ) (registers : Registers)
      (memory final : ℕ → ℕ) (u : d.Ud) (m rounds func_address : ℕ)
      (og_main : Cmd (Analyzer d.Ud) (Unit {0}))
      → suc (m + 203 * word_mod) ≤ room
      → m + 101 * word_mod + 1 < rounds
      → func_address ≢ 0
      → ((s₁ : Analyzer d.Ud)
          → then_with
              (start (λ _. true) garbage_root room registers memory u)
              (to_main d sys garbage memory sites init rounds func_address)
            ≡ ok (tt, s₁)
          → (out : List ℕ) × (s₂ : Analyzer d.Ud) × RunsTo d sys garbage sites rounds m [] memory s₁
              out final s₂
            × (og_main s₁ ≡ ok (tt, s₂)))
      → Returns
          (λ (_, s'). IsOriginal d sys garbage final sites s')
          (then_with
            (start (λ _. true) garbage_root room registers memory u)
            (wrapped_main d sys garbage init og_main rounds func_address >>= λ _. shutdown sys))
  session-restores init garbage_root room registers memory final u m rounds x og_main left fuel ne
        program =
      subst (Returns (λ (_, s'). IsOriginal d sys garbage final sites s'))
        (sym (
          then_with-and_then (start (λ _. true) garbage_root room registers memory u)
            (wrapped_main d sys garbage init og_main rounds x) (λ _. shutdown sys)))
        (Returns-bind
          (wrapped_main_finishes init garbage_root room registers memory final u m rounds x og_main
            left fuel ne program)
          (λ _ s₄ h₄. shutdown-IsRecoverable d sys garbage final sites s₄ h₄.1))
