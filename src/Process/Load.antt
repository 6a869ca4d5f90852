-- ===== src/Process/Load.antt =====
-- A process from the loading of elf/libaddr.cc on, through `__libc_start_main` and `wrapped_main`, with
-- the traps of data/trap/trap.c, to its end.
use counter_rop.Common.{
  List, [], ℕ, suc, ◌+◌, ◌*◌, ◌<◌, ◌≤◌, ◌≡◌, ◌≢◌, refl, true, some, ◌++◌, ◌∙◌, sym, subst, All,
  length,
}
use counter_rop.Common.Heap.{Ptr}
use counter_rop.Common.Outcome.{ok, exits, Cmd, Returns, exit_with, ◌>>=◌, then_with}
use counter_rop.Common.Word.{word_mod}
use counter_rop.Symbols.{Loaded, find_address}
use counter_rop.Files.{Text, print_proc_maps}
use counter_rop.Files.Copy.{left_over, print_proc_maps-copies}
use counter_rop.Analyzer.{Analyzer, Registers}
use counter_rop.Analyzer.Armed.{IsSite}
use counter_rop.Analyzer.Handler.{wrapped_main}
use counter_rop.Analyzer.Life.{IsRecoverable}
use counter_rop.Analyzer.Loaded.{to_main}
use counter_rop.Analyzer.Execution.{RunsTo}
use counter_rop.Analyzer.Finish.{wrapped_main_finishes}
use counter_rop.Analyzer.Start.{start}
use counter_rop.Analyzer.Trap.{System}
use counter_rop.Analyzer.Udis.{Disassembler}
use counter_rop.Process.{Process, Outside, Arguments, main_name, libc_start_main}
use counter_rop.Process.Status.{start_runs, wrapper_runs, exit_zero, Returns-put_back, program}

module _ (d : Disassembler) (sys : System) (garbage : ℕ)
    (sites : (u : d.Ud) → IsSite sys (d.insn_ptr u)) (ud_set_up : d.Ud → d.Ud)
    (run : ℕ → Cmd (Analyzer d.Ud) ℕ) (o : Outside)
    (og_libc_start_main : Cmd (Process d.Ud) ℕ → Arguments → Cmd (Process d.Ud) ℕ) where
  -- Let the library be loaded in a process that has memory for its globals. Let the function
  -- `__libc_start_main` of the C library call the `main` that it is given and end the process with what
  -- this returns, let the process have two arguments or more, let /proc/self/maps be a text without a
  -- character 0, maps.log be open for writing, and `find_address` find an address that is not 0. Let each
  -- instruction that the disassembler names stand at an address below 2 ^ 56, not 0, in a page that can
  -- be made writable, let each structure have memory for one insertion, for 203 more for each word and
  -- for one for each of `m` traps, and let there be more rounds than 101 for each word, one for each
  -- trap and one. Let the program's `main`, in the state in which `wrapped_main` calls it, run into at most
  -- `m` traps, each a trap byte that is not its own at a call or jump through memory or a register that
  -- leads to an address other than 0, let it store bytes, but not at a site, and let it return. Then the
  -- process ends, with status 0, whatever `main` returned: no read or write goes wrong.
  pub libc_start_main-finishes :
      (garbage_root : Ptr) (room : ℕ) (registers : Registers) (memory final : ℕ → ℕ) (u : d.Ud)
      (m rounds main_fn a : ℕ) (args : Arguments) (text : Text) (l : Loaded) (s : Process d.Ud)
      → ((m : Cmd (Process d.Ud) ℕ) (args : Arguments) (s : Process d.Ud)
          → og_libc_start_main m args s ≡ (m >>= exit_with) s)
      → 2 < length args.argv
      → o.maps ≡ some text
      → o.log ≡ true
      → All (λ c. c ≢ 0) text
      → find_address o.objects o.exe main_name s.loaded ≡ ok (a, l)
      → a ≢ 0
      → start (λ _. true) garbage_root room registers memory u ≡ ok s.analyzer
      → suc (m + 203 * word_mod) ≤ room
      → m + 101 * word_mod + 1 < rounds
      → ((s₁ : Analyzer d.Ud)
          → then_with
              (start (λ _. true) garbage_root room registers memory u)
              (to_main d sys garbage memory sites ud_set_up rounds a)
            ≡ ok (tt, s₁)
          → (n : ℕ) × (out : List ℕ) × (s₂ : Analyzer d.Ud) × RunsTo d sys garbage sites rounds m []
              memory s₁ out final s₂
            × (run main_fn s₁ ≡ ok (n, s₂)))
      → libc_start_main d sys garbage ud_set_up run o og_libc_start_main rounds main_fn args s
        ≡ exits 0
  libc_start_main-finishes garbage_root room registers memory final u m rounds main_fn a args text l
        s calls many opened logs letters found ne started left fuel ends =
      let printed = text ++ left_over text o.unfilled in
      let s₁ : Process d.Ud = record s { og_main = main_fn; maps_log = printed } in
      let og_main = program d sys garbage ud_set_up run o og_libc_start_main main_fn in
      let logged : print_proc_maps o.maps o.log o.unfilled ≡ ok printed =
        rw (opened, logs) (print_proc_maps-copies text o.unfilled letters) in
      let finished =
        wrapped_main_finishes d sys garbage sites ud_set_up garbage_root room registers memory final
          u m rounds a og_main left fuel ne
          (λ s₁ reached.
            let (n, out, s₂, trapped, ran) = ends s₁ reached in (out, s₂, trapped, rw ran refl)) in
      let returned : Returns (λ (n, s'). (n ≡ 0) × IsRecoverable d sys garbage final sites s')
          (wrapped_main d sys garbage ud_set_up og_main rounds a s.analyzer) =
        subst
          (λ r.
            Returns (λ (n, s'). (n ≡ 0) × IsRecoverable d sys garbage final sites s')
              (then_with r (wrapped_main d sys garbage ud_set_up og_main rounds a)))
          started finished in
      start_runs d sys garbage ud_set_up run o og_libc_start_main rounds main_fn args printed s many
        logged
      ∙ calls _ args s₁
      ∙ exit_zero (
          subst (Returns (λ (n, _). n ≡ 0))
            (sym
              (wrapper_runs d sys garbage ud_set_up run o og_libc_start_main rounds a l s₁ found))
            (Returns-put_back (λ z (t : Process d.Ud). record t { analyzer = z })
              (record s₁ { loaded = l }) returned (λ r t p. p.0)))
