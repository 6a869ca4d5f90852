-- ===== src/Analyzer/Handler.antt =====
-- The drivers: the loop that empties `address_list`, `wrapped_main` of elf/libaddr.cc and
-- `trap_handler` of data/trap/trap.c.
use counter_rop.Common.{
  ℕ, zero, suc, ◌+◌, ◌-◌, ◌*◌, Option, none, some, ◌==◌, if◌then◌else◌, Bool, false,
}
use counter_rop.Common.Word.{add64, sub64}
use counter_rop.Common.Outcome.{
  ok, fault, exits, out_of_fuel, Cmd, pure, ◌>>=◌, ◌>>◌, get, modify, exit_with,
}
use counter_rop.LinkedList.{list_insert, list_pop, list_delete}
use counter_rop.HashTable.{hashtable_find}
use counter_rop.BoundTree.{BoundTreeData, find_range}
use counter_rop.Analyzer.{Analyzer, poke, on_bytes, on_address_list, on_tree}
use counter_rop.Analyzer.Trap.{System, unprotect, get_address}
use counter_rop.Analyzer.PrintDis.{print_dis}
use counter_rop.Analyzer.Udis.{Disassembler}

-- `n` bytes of memory as a number, the lowest first.
unfoldable pub load_bytes : ℕ → (ℕ → ℕ) → ℕ → ℕ
load_bytes zero memory a = 0
load_bytes (suc n) memory a = memory a + 256 * load_bytes n memory (add64 a 1)

module _ (d : Disassembler) (sys : System) (garbage : ℕ) where
  open d use {Ud, set_input_buffer, disassemble, insn_opr}

  -- The body of the loop, where `boundFind` returned a pointer.
  unfoldable pub examine : Option BoundTreeData → ℕ → Cmd (Analyzer Ud) (Unit {0})
  examine none buffer = pure tt
  examine (some m) buffer = do
    modify (λ s. record s { lower_val = buffer; bound_val = m.bound })
    print_dis d sys garbage buffer

  -- `while ((buffer = list_pop(address_list)) != NULL)`, the same in `wrapped_main` and `trap_handler`.
  unfoldable pub drain : ℕ → Cmd (Analyzer Ud) (Unit {0})
  drain zero = λ _. out_of_fuel
  drain (suc k) = do
    buffer ← on_address_list list_pop
    if buffer == 0 then pure tt else (do
      found ← on_tree (find_range buffer)
      modify (λ s. record s { tree_data = found })
      examine found buffer
      drain k)

  -- `--context->uc_mcontext.gregs[REG_RIP]`.
  abbrev pub step_back : Cmd (Analyzer Ud) ℕ
  step_back = do
    s ← get
    let rip = sub64 s.registers.rip 1
    modify (λ s. record s { registers = record s.registers { rip = rip } })
    pure rip

  -- A trap in the handler itself: the byte is put back, and nothing is looked at.
  unfoldable pub nested_trap : Cmd (Analyzer Ud) (Unit {0})
  nested_trap = do
    modify (λ s. record s { trap_flag = s.trap_flag + 1 })
    address ← step_back
    byte ← on_bytes (hashtable_find address (sys.beyond address))
    modify (λ s. record s { memory = poke s.memory address byte })
    modify (λ s. record s { trap_flag = s.trap_flag - 1 })

  -- Where the call or jump leads: in a register, or in memory.
  unfoldable pub resolve : ℕ → Cmd (Analyzer Ud) ℕ
  resolve indirect_address = do
    s ← get
    if s.reg_flag
        then (do modify (λ s. record s { reg_flag = false }); pure indirect_address)
        else pure (load_bytes 8 s.memory indirect_address)

  unfoldable pub first_trap : ℕ → Bool → Cmd (Analyzer Ud) (Unit {0})
  first_trap rounds is_sigtrap = do
    modify (λ s. record s { trap_flag = s.trap_flag + 1 })
    if is_sigtrap then pure tt else exit_with 2
    address ← step_back
    unprotect sys address
    byte ← on_bytes (hashtable_find address (sys.beyond address))
    modify (λ s. record s { memory = poke s.memory address byte })
    modify (λ s. record s { ud_obj = set_input_buffer address 100 s.ud_obj })
    modify (λ s. record s { ud_obj = (disassemble s.memory s.ud_obj).1 })
    s ← get
    indirect_address ← get_address d garbage (insn_opr s.ud_obj)
    call_address ← resolve indirect_address
    _ ← on_address_list (list_insert call_address)
    drain rounds
    modify (λ s. record s { trap_flag = s.trap_flag - 1 })

  unfoldable pub trap_handler : ℕ → Bool → Cmd (Analyzer Ud) (Unit {0})
  trap_handler rounds is_sigtrap = do
    s ← get
    if s.trap_flag == 0 then first_trap rounds is_sigtrap else nested_trap

  -- `list_delete(address_list)`. The list is not there any more behind it: to delete it twice is undefined.
  unfoldable pub delete_address_list : Cmd (Analyzer Ud) (Unit {0})
  delete_address_list s = elim s.address_list [
    | none ↦ fault
    | some queue ↦ elim (list_delete (some queue)) [
      | ok (_, _) ↦ ok (tt, record s { address_list = none })
      | fault ↦ fault
      | exits n ↦ exits n
      | out_of_fuel ↦ out_of_fuel
    ]
  ]

  -- `init` is what `ud_init` and the three functions after it make of `ud_obj`; `og_main` is the
  -- analysed program, with the traps that it runs into.
  unfoldable pub wrapped_main :
      (Ud → Ud) → Cmd (Analyzer Ud) (Unit {0}) → ℕ → ℕ → Cmd (Analyzer Ud) ℕ
  wrapped_main init og_main rounds func_address = do
    _ ← on_address_list (list_insert func_address)
    modify (λ s. record s { ud_obj = init s.ud_obj })
    drain rounds
    og_main
    delete_address_list
    pure 0
