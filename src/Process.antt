-- ===== src/Process.antt =====
-- How the analyser gets hold of a process: `__libc_start_main`, the beginning of `wrapped_main` and the
-- wrappers of the functions that end a process, of elf/libaddr.cc, and `setup_analyzer` of
-- data/trap/trap.c.

pub mod Status
pub mod Load
use counter_rop.Common.{
  ℕ, zero, suc, ◌==◌, if◌then◌else◌, Bool, Option, none, some, List, [], ◌∷◌, get_elem?,
}
use counter_rop.Common.Outcome.{
  Outcome, ok, fault, exits, out_of_fuel, Cmd, pure, ◌>>=◌, ◌>>◌, get, modify, zoom, put_back,
}
use counter_rop.Symbols.{Loaded, Section, find_address}
use counter_rop.Files.{Text, print_proc_maps}
use counter_rop.Analyzer.{Analyzer}
use counter_rop.Analyzer.Handler.{wrapped_main}
use counter_rop.Analyzer.Trap.{System}
use counter_rop.Analyzer.Udis.{Disassembler}

-- The globals, with `og_main` as the address of the program's `main`, and what was written to maps.log.
pub record Process (Ud : Type 0) : Type 0 where
  pub analyzer : Analyzer Ud
  pub loaded : Loaded
  pub og_main : ℕ
  pub maps_log : Text

module _ {Ud A : Type 0} where
  abbrev pub on_analyzer : Cmd (Analyzer Ud) A → Cmd (Process Ud) A
  on_analyzer = zoom (λ s. s.analyzer) (λ a s. record s { analyzer = a })

  abbrev pub on_loaded : Cmd Loaded A → Cmd (Process Ud) A
  on_loaded = zoom (λ s. s.loaded) (λ l s. record s { loaded = l })

-- What is outside of the process: the files that it reads, and the addresses of the loaded objects. A
-- file that cannot be opened is `none`, or `false` for the one that is written.
pub record Outside : Type 0 where
  pub maps : Option Text
  pub log : Bool
  pub unfilled : Text
  pub objects : List ℕ
  pub exe : Option (List Section)

-- `argv`, its length, and the other arguments of `__libc_start_main`, which are passed on.
pub record Arguments : Type 0 where
  pub argv : List Text
  pub init : ℕ
  pub fini : ℕ
  pub rtld_fini : ℕ
  pub stack_end : ℕ

-- "main".
abbrev pub main_name : Text
main_name = 109 ∷ 97 ∷ 105 ∷ 110 ∷ []

-- `argv[i]` as a string: behind the last argument is a null pointer, and then the end of the array.
abbrev pub argument : {S : Type 0} → List Text → ℕ → Cmd S Text
argument argv i s = elim (get_elem? argv i) [ none ↦ fault | some a ↦ ok (a, s) ]

-- `print_proc_maps()`.
abbrev pub log_maps : {Ud : Type 0} → Outside → Cmd (Process Ud) (Unit {0})
log_maps o s = elim (print_proc_maps o.maps o.log o.unfilled) [
  | ok text ↦ ok (tt, record s { maps_log = text })
  | fault ↦ fault
  | exits n ↦ exits n
  | out_of_fuel ↦ out_of_fuel
]

-- `ud_set_up` is what `ud_init` and the three functions after it make of `ud_obj`; `run` is what the
-- function at an address does, with the traps that it runs into.
module _ (d : Disassembler) (sys : System) (garbage : ℕ) (ud_set_up : d.Ud → d.Ud)
    (run : ℕ → Cmd (Analyzer d.Ud) ℕ) (o : Outside) where
  -- `wrapped_main` from its beginning: the address of `main`, and the rest.
  unfoldable pub main_wrapper : ℕ → Cmd (Process d.Ud) ℕ
  main_wrapper rounds = do
    func_address ← on_loaded (find_address o.objects o.exe main_name)
    s ← get
    on_analyzer
        (wrapped_main d sys garbage ud_set_up (run s.og_main >>= λ _. pure tt) rounds func_address)

  -- `og_libc_start_main` is the function of the C library that `dlsym` finds.
  unfoldable pub libc_start_main :
      (og_libc_start_main : Cmd (Process d.Ud) ℕ → Arguments → Cmd (Process d.Ud) ℕ) (rounds : ℕ)
      → ℕ
      → Arguments
      → Cmd (Process d.Ud) ℕ
  libc_start_main og_libc_start_main rounds main_fn args = do
    _ ← argument args.argv 0
    _ ← argument args.argv 1
    _ ← argument args.argv 2
    log_maps o
    modify (λ s. record s { og_main = main_fn })
    og_libc_start_main (main_wrapper rounds) args

-- `exit`, `_exit` and `_Exit` as the C library has them.
pub record RealExits (S A : Type 0) : Type 0 where
  pub exit : ℕ → Cmd S A
  pub underscore_exit : ℕ → Cmd S A
  pub capital_exit : ℕ → Cmd S A

-- The wrappers: `shutdown` is not called.
module _ {S A : Type 0} (real : RealExits S A) where
  unfoldable pub exit_wrapper : ℕ → Cmd S A
  exit_wrapper rc = real.exit rc

  unfoldable pub underscore_exit_wrapper : ℕ → Cmd S A
  underscore_exit_wrapper rc = real.underscore_exit rc

  unfoldable pub capital_exit_wrapper : ℕ → Cmd S A
  capital_exit_wrapper rc = real.capital_exit rc

-- `struct sigaction`, with the handlers that are told apart here.
pub data SignalHandler : Type 0 where
  default_action trap_handler_action : SignalHandler

pub record SigAction : Type 0 where
  pub handler : SignalHandler
  pub mask : List ℕ
  pub flags : ℕ

abbrev pub sigtrap : ℕ
sigtrap = 5

abbrev pub sa_siginfo : ℕ
sa_siginfo = 4

-- `sigaction(SIGTRAP, &sig_action, 0)`, on the actions of the process.
unfoldable pub setup_analyzer : Cmd (ℕ → SigAction) ℕ
setup_analyzer = do
  let action : SigAction = record { handler = trap_handler_action; mask = []; flags = sa_siginfo }
  modify (λ actions n. if n == sigtrap then action else actions n)
  pure 0
