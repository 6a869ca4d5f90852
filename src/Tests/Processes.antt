-- ===== src/Tests/Processes.antt =====
-- `__libc_start_main` of elf/libaddr.cc at a process whose `main`, at 4096, stores a byte, runs into a trap and
-- returns 7.
use counter_rop.Common.{
  ℕ, ◌+◌, ◌≡◌, refl, false, true, some, none, ◌⊎◌, ◌<◌, ◌≤◌, ◌≢◌, ◌++◌, All, length, subst, List,
  [], ◌∷◌, arith,
}
use counter_rop.Common.Outcome.{ok, Cmd, pure, ◌>>◌, exits, fault, and_then, exit_with}
use counter_rop.Symbols.{
  Section, symtab, func, find_address, callback, dl_iterate_phdr, section_loop, symbol_loop,
}
use counter_rop.Files.{Text}
use counter_rop.Files.Copy.{left_over}
use counter_rop.Process.{Process, Outside, Arguments, main_name, libc_start_main, main_wrapper}
use counter_rop.Process.Load.{libc_start_main-finishes}
use counter_rop.Analyzer.Start.{start, start-Ready}
use counter_rop.Process.Status.{libc_start_main-cases}
use counter_rop.Analyzer.{Analyzer}
use counter_rop.Tests.OneByte.{
  OneByte, one_byte, one_byte_sites, loaded, no_instruction, plenty, registers,
}
use counter_rop.Tests.Mains.{changed, calls_once, calls_once-RunsTo}
use counter_rop.Tests.Traps.{original, system}

abbrev exe : List Section
exe =
    record { kind = symtab; symbols = record { kind = func; name = main_name; value = 4096 } ∷ [] }
    ∷ []

abbrev outside : Outside
outside = record {
  maps = some (97 ∷ 10 ∷ []);
  log = true;
  unfilled = [];
  objects = 0 ∷ [];
  exe = some exe;
}

outside_letters : (text : Text) → outside.maps ≡ some text → All (λ c. c ≢ 0) text
outside_letters text e =
    let same : 97 ∷ 10 ∷ [] ≡ text = cc in
    subst (All (λ c. c ≢ 0)) same (omega arith, (omega arith, tt))

abbrev arguments : List Text → Arguments
arguments argv = record { argv = argv; init = 0; fini = 0; rtld_fini = 0; stack_end = 0 }

abbrev process : Process OneByte
process = record {
  analyzer = loaded (2 + plenty);
  loaded = record { run = false; offset = 0 };
  og_main = 0;
  maps_log = [];
}

-- The function of the C library.
abbrev start_main : Cmd (Process OneByte) ℕ → Arguments → Cmd (Process OneByte) ℕ
start_main m args s = and_then (m s) exit_with

abbrev seven : ℕ → Cmd (Analyzer OneByte) ℕ
seven main_fn = do calls_once; pure 7

-- The state of the analyser when it is loaded.
fresh :
    (s : Analyzer OneByte) × (start (λ _. true) 77 (2 + plenty) registers original no_instruction
      ≡ ok s)
fresh =
    let (s, started, _) = start-Ready system 77 (2 + plenty) registers original no_instruction in
    (s, started)

abbrev loading : Process OneByte
loading = record process { analyzer = fresh.0 }

libc_start_main-finishes_example :
    libc_start_main one_byte system 7
      (λ u. u)
      seven
      outside
      start_main
      plenty
      4096
      (arguments ((97 ∷ []) ∷ (98 ∷ []) ∷ (99 ∷ []) ∷ []))
      loading
    ≡ exits 0
unfolding find_address dl_iterate_phdr callback section_loop symbol_loop
libc_start_main-finishes_example =
    libc_start_main-finishes one_byte system 7 one_byte_sites (λ u. u) seven outside start_main 77
      (2 + plenty) registers original changed no_instruction 1 plenty 4096 4096
      (arguments ((97 ∷ []) ∷ (98 ∷ []) ∷ (99 ∷ []) ∷ [])) (97 ∷ 10 ∷ [])
      (record { run = true; offset = 0 }) loading (λ m args s. refl) (omega arith) refl refl
      (omega arith, (omega arith, tt)) refl (omega arith) fresh.1 (omega arith) (omega arith)
      (λ s₁ reached.
        let (out, s₂, ran_to, ran) = calls_once-RunsTo s₁ reached in
        (7, out, s₂, ran_to, rw ran refl))

-- A process with one argument.
libc_start_main-cases_example :
    ((text : Text) × (2 < length (arguments ((97 ∷ []) ∷ (98 ∷ []) ∷ [])).argv)
      × (outside.maps ≡ some text)
      × (outside.log ≡ true)
      × (libc_start_main one_byte system 7
            (λ u. u)
            seven
            outside
            start_main
            5
            4096
            (arguments ((97 ∷ []) ∷ (98 ∷ []) ∷ []))
            process
          ≡ start_main
              (main_wrapper one_byte system 7 (λ u. u) seven outside 5)
              (arguments ((97 ∷ []) ∷ (98 ∷ []) ∷ []))
              (record process { og_main = 4096; maps_log = text ++ left_over text [] })))
    ⊎ ((length (arguments ((97 ∷ []) ∷ (98 ∷ []) ∷ [])).argv ≤ 2)
        ⊎ ((outside.maps ≡ none) ⊎ (outside.log ≡ false)))
      × (libc_start_main one_byte system 7
            (λ u. u)
            seven
            outside
            start_main
            5
            4096
            (arguments ((97 ∷ []) ∷ (98 ∷ []) ∷ []))
            process
          ≡ fault)
libc_start_main-cases_example =
    libc_start_main-cases one_byte system 7 (λ u. u) seven outside start_main 5 4096
      (arguments ((97 ∷ []) ∷ (98 ∷ []) ∷ [])) process outside_letters
