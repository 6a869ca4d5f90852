-- ===== src/Process/Status.antt =====
-- How a process ends that the analyser is loaded into: `__libc_start_main` and `wrapped_main` of
-- elf/libaddr.cc, from the loading of the library on.
use native.Mathlib.Decide.{dec_lt}
use counter_rop.Common.{
  Bool, true≢false, inl, inr, ◌⊎◌, ℕ, zero, suc, ◌+◌, ◌*◌, ◌<◌, ◌≤◌, ◌≡◌, ◌≢◌, refl, true, false,
  Option, none, some, List, [], ◌∷◌, ◌++◌, ◌∙◌, sym, subst, ap, All, length, arith,
}
use counter_rop.Common.Outcome.{
  Outcome, ok, fault, exits, Cmd, Returns, returns, Returns-bind, and_then, exit_with, ◌>>=◌, pure,
  put_back,
}
use counter_rop.LinkedList.{LinkedList}
use counter_rop.LinkedList.Chain.{Stores}
use counter_rop.BoundTree.Measure.{uncovered}
use counter_rop.Symbols.{Loaded, find_address}
use counter_rop.Files.{Text, print_proc_maps}
use counter_rop.Files.Copy.{left_over, print_proc_maps-copies}
use counter_rop.Analyzer.{Analyzer}
use counter_rop.Analyzer.Armed.{IsSite}
use counter_rop.Analyzer.Ends.{Drained, only}
use counter_rop.Analyzer.Handler.{wrapped_main}
use counter_rop.Analyzer.Life.{wrapped_main-IsRecoverable}
use counter_rop.Analyzer.Ready.{View, Ready, ReadyAs}
use counter_rop.Analyzer.Trap.{System}
use counter_rop.Analyzer.Udis.{Disassembler}
use counter_rop.Process.{
  Process, Outside, Arguments, main_name, argument, log_maps, main_wrapper, libc_start_main,
}

module _ {S : Type 0} where
  argument_there :
      (xs : List Text) (i : ℕ) (s : S) → i < length xs → (a : Text) × (argument xs i s ≡ ok (a, s))
  argument_there [] i s h = absurd (omega arith)
  argument_there (x ∷ xs) zero s h = (x, refl)
  argument_there (x ∷ xs) (suc i) s h = argument_there xs i s (omega arith)

  argument_missing : (xs : List Text) (i : ℕ) (s : S) → length xs ≤ i → argument xs i s ≡ fault
  argument_missing [] i s h = refl
  argument_missing (x ∷ xs) zero s h = absurd (omega arith)
  argument_missing (x ∷ xs) (suc i) s h = argument_missing xs i s (omega arith)

  argument_cases :
      (xs : List Text) (i : ℕ) (s : S)
      → (argument xs i s ≡ fault) ⊎ ((a : Text) × (argument xs i s ≡ ok (a, s)))
  argument_cases [] i s = inl refl
  argument_cases (x ∷ xs) zero s = inr (x, refl)
  argument_cases (x ∷ xs) (suc i) s = argument_cases xs i s

  pub exit_zero :
      {r : Outcome (ℕ × S)} → Returns (λ (n, _). n ≡ 0) r → and_then r (exit_with {A = ℕ}) ≡ exits 0
  exit_zero (returns e) = ap exits e

  pub Returns-put_back :
      {T A : Type 0} {P : A × T → Type 0} {Q : A × S → Type 0} (put : T → S → S) (s : S)
      {r : Outcome (A × T)}
      → Returns P r
      → ((a : A) (t : T) → P (a, t) → Q (a, put t s))
      → Returns Q (put_back put s r)
  Returns-put_back put s (returns {a} p) keep = returns (keep a.0 a.1 p)

logged_maps :
    {Ud : Type 0} (o : Outside) (s : Process Ud) (text : Text)
    → print_proc_maps o.maps o.log o.unfilled ≡ ok text
    → log_maps o s ≡ ok (tt, record s { maps_log = text })
logged_maps o s text e = rw (e, log_maps)

no_maps :
    (maps : Option Text) (log : Bool) (unfilled : Text)
    → (maps ≡ none) ⊎ (log ≡ false)
    → print_proc_maps maps log unfilled ≡ fault
unfolding print_proc_maps
no_maps none log unfilled h = refl
no_maps (some text) false unfilled h = refl
no_maps (some text) true unfilled (inl e) = cc
no_maps (some text) true unfilled (inr e) = absurd (true≢false e)

closed_maps :
    {Ud : Type 0} (o : Outside) (s : Process Ud)
    → (o.maps ≡ none) ⊎ (o.log ≡ false)
    → log_maps o s ≡ fault
closed_maps o s h = rw (no_maps o.maps o.log o.unfilled h, log_maps) refl

few_cases :
    (argv : List Text) (maps : Option Text) (log : Bool)
    → ((text : Text) × (2 < length argv) × (maps ≡ some text) × (log ≡ true))
      ⊎ ((length argv ≤ 2) ⊎ ((maps ≡ none) ⊎ (log ≡ false)))
few_cases argv none log = inr (inr (inl refl))
few_cases argv (some text) false = inr (inr (inr refl))
few_cases argv (some text) true = elim (dec_lt 2 (length argv)) [
  | yes many ↦ inl (text, many, refl, refl)
  | no few ↦ inr (inl (omega arith))
]

module _ (d : Disassembler) (sys : System) (garbage : ℕ) (ud_set_up : d.Ud → d.Ud)
    (run : ℕ → Cmd (Analyzer d.Ud) ℕ) (o : Outside)
    (og_libc_start_main : Cmd (Process d.Ud) ℕ → Arguments → Cmd (Process d.Ud) ℕ) where
  pub start_runs :
      (rounds main_fn : ℕ) (args : Arguments) (text : Text) (s : Process d.Ud)
      → 2 < length args.argv
      → print_proc_maps o.maps o.log o.unfilled ≡ ok text
      → libc_start_main d sys garbage ud_set_up run o og_libc_start_main rounds main_fn args s
        ≡ og_libc_start_main
            (main_wrapper d sys garbage ud_set_up run o rounds)
            args
            (record s { og_main = main_fn; maps_log = text })
  unfolding libc_start_main
  start_runs rounds main_fn args text s many logged =
      let (a₀, e₀) = argument_there args.argv 0 s (omega arith) in
      let (a₁, e₁) = argument_there args.argv 1 s (omega arith) in
      let (a₂, e₂) = argument_there args.argv 2 s (omega arith) in
      rw (e₀, e₁, e₂, logged_maps o s text logged) refl

  start_faults :
      (rounds main_fn : ℕ) (args : Arguments) (s : Process d.Ud)
      → length args.argv ≤ 2
      → libc_start_main d sys garbage ud_set_up run o og_libc_start_main rounds main_fn args s
        ≡ fault
  unfolding libc_start_main
  start_faults rounds main_fn args s few = elim (argument_cases args.argv 0 s) [
    | inl e₀ ↦ rw e₀ refl
    | inr (a₀, e₀) ↦ rw e₀ (elim (argument_cases args.argv 1 s) [
      | inl e₁ ↦ rw e₁ refl
      | inr (a₁, e₁) ↦ rw (e₁, argument_missing args.argv 2 s few) refl
    ])
  ]

  faults :
      (rounds main_fn : ℕ) (args : Arguments) (s : Process d.Ud)
      → (length args.argv ≤ 2) ⊎ ((o.maps ≡ none) ⊎ (o.log ≡ false))
      → libc_start_main d sys garbage ud_set_up run o og_libc_start_main rounds main_fn args s
        ≡ fault
  unfolding libc_start_main
  faults rounds main_fn args s (inl few) = start_faults rounds main_fn args s few
  faults rounds main_fn args s (inr closed) = elim (argument_cases args.argv 0 s) [
    | inl e₀ ↦ rw e₀ refl
    | inr (a₀, e₀) ↦ rw e₀ (elim (argument_cases args.argv 1 s) [
      | inl e₁ ↦ rw e₁ refl
      | inr (a₁, e₁) ↦ rw e₁ (elim (argument_cases args.argv 2 s) [
        | inl e₂ ↦ rw e₂ refl
        | inr (a₂, e₂) ↦ rw (e₂, closed_maps o s closed) refl
      ])
    ])
  ]

  -- Let /proc/self/maps, if it can be opened, be a text without a character 0. If the process has two
  -- arguments or more, and /proc/self/maps and maps.log can be opened, then `__libc_start_main` goes on
  -- as the function of the C library does with the same arguments and the analyser's `main` in the place
  -- of the program's, which is saved; the log then holds the text and what is left in the buffer of
  -- `getline` after its last line. In all other cases its behaviour is undefined, before the program is
  -- run: `argv[1]` and `argv[2]` and the two streams are used without a test.
  pub libc_start_main-cases :
      (rounds main_fn : ℕ) (args : Arguments) (s : Process d.Ud)
      → ((text : Text) → o.maps ≡ some text → All (λ c. c ≢ 0) text)
      → ((text : Text) × (2 < length args.argv)
          × (o.maps ≡ some text)
          × (o.log ≡ true)
          × (libc_start_main d sys garbage ud_set_up run o og_libc_start_main rounds main_fn args s
              ≡ og_libc_start_main
                  (main_wrapper d sys garbage ud_set_up run o rounds)
                  args
                  (record s { og_main = main_fn; maps_log = text ++ left_over text o.unfilled })))
        ⊎ ((length args.argv ≤ 2) ⊎ ((o.maps ≡ none) ⊎ (o.log ≡ false)))
          × (libc_start_main d sys garbage ud_set_up run o og_libc_start_main rounds main_fn args s
              ≡ fault)
  libc_start_main-cases rounds main_fn args s letters = elim (few_cases args.argv o.maps o.log) [
    | inr closed ↦ inr (closed, faults rounds main_fn args s closed)
    | inl (text, many, opened, logs) ↦
        let logged : print_proc_maps o.maps o.log o.unfilled
            ≡ ok (text ++ left_over text o.unfilled) =
          rw (opened, logs) (print_proc_maps-copies text o.unfilled (letters text opened)) in
        inl (text, many, opened, logs, start_runs rounds main_fn args _ s many logged)
  ]

  -- The result of the function at the address of `main` is not looked at.
  abbrev pub program : ℕ → Cmd (Analyzer d.Ud) (Unit {0})
  program main_fn = run main_fn >>= λ _. pure tt

  pub wrapper_runs :
      (rounds a : ℕ) (l : Loaded) (s : Process d.Ud)
      → find_address o.objects o.exe main_name s.loaded ≡ ok (a, l)
      → main_wrapper d sys garbage ud_set_up run o rounds s
        ≡ put_back
            (λ z t. record t { analyzer = z })
            (record s { loaded = l })
            (wrapped_main d sys garbage ud_set_up (program s.og_main) rounds a s.analyzer)
  unfolding main_wrapper
  wrapper_runs rounds a l s found = rw (found)

module _ (d : Disassembler) (sys : System) (garbage : ℕ) (orig : ℕ → ℕ)
    (sites : (u : d.Ud) → IsSite sys (d.insn_ptr u)) (ud_set_up : d.Ud → d.Ud)
    (run : ℕ → Cmd (Analyzer d.Ud) ℕ) (o : Outside)
    (og_libc_start_main : Cmd (Process d.Ud) ℕ → Arguments → Cmd (Process d.Ud) ℕ) where
  -- Let the function `__libc_start_main` of the C library call the `main` that it is given and end the
  -- process with what this returns, let the process have two arguments or more, let /proc/self/maps be
  -- a text without a character 0, and maps.log be open for writing. Let `find_address` find an address
  -- that is not 0, and let the analyser be in a well-formed state with an empty queue in which the
  -- program is recoverable, with memory for one insertion, 203 more for each address that no range holds
  -- and what the program's run needs, and with more rounds than 203 for each such address and one. Let
  -- each instruction that the disassembler names stand at an address below 2 ^ 56, not 0, in a page that
  -- can be made writable. If the program's `main`, with the traps that it runs into, returns in a
  -- well-formed state whenever a range holds its address, then the process ends, with status 0, whatever
  -- `main` returned.
  pub libc_start_main-ends :
      (n u rounds main_fn a : ℕ) (w : View) (q : LinkedList) (args : Arguments) (text : Text)
      (l : Loaded) (s : Process d.Ud)
      → ((m : Cmd (Process d.Ud) ℕ) (args : Arguments) (s : Process d.Ud)
          → og_libc_start_main m args s ≡ (m >>= exit_with) s)
      → 2 < length args.argv
      → o.maps ≡ some text
      → o.log ≡ true
      → All (λ c. c ≢ 0) text
      → find_address o.objects o.exe main_name s.loaded ≡ ok (a, l)
      → a ≢ 0
      → ((s : Analyzer d.Ud)
          → Drained sys orig (only (n + 203 * u) a w.shape) n s
          → Returns (λ (_, s'). Ready sys orig 0 s') (run main_fn s))
      → ReadyAs sys orig w (suc (n + 203 * u)) s.analyzer
      → s.analyzer.address_list ≡ some q
      → Stores q []
      → n + 203 * u < q.heap.room
      → uncovered w.shape ≤ u
      → 203 * u + 1 < rounds
      → libc_start_main d sys garbage ud_set_up run o og_libc_start_main rounds main_fn args s
        ≡ exits 0
  libc_start_main-ends n u rounds main_fn a w q args text l s calls many opened logs letters found
        ne ends h there empty room enough fuel =
      let printed = text ++ left_over text o.unfilled in
      let s₁ : Process d.Ud = record s { og_main = main_fn; maps_log = printed } in
      let logged : print_proc_maps o.maps o.log o.unfilled ≡ ok printed =
        rw (opened, logs) (print_proc_maps-copies text o.unfilled letters) in
      let returned =
        wrapped_main-IsRecoverable d sys garbage orig sites ud_set_up
          (program d sys garbage ud_set_up run o og_libc_start_main main_fn) n u rounds a w q
          s.analyzer (λ s h. Returns-bind (ends s h) (λ _ s' h'. returns h')) h there empty room
          enough fuel ne in
      start_runs d sys garbage ud_set_up run o og_libc_start_main rounds main_fn args printed s many
        logged
      ∙ calls _ args s₁
      ∙ exit_zero (
          subst (Returns (λ (n, _). n ≡ 0))
            (sym
              (wrapper_runs d sys garbage ud_set_up run o og_libc_start_main rounds a l s₁ found))
            (Returns-put_back (λ z (t : Process d.Ud). record t { analyzer = z })
              (record s₁ { loaded = l }) returned (λ r t p. p.0)))
