-- ===== src/Analyzer.antt =====
-- The state that elf/libaddr.cc and data/trap/trap.c share: their globals, the registers that a
-- signal handler is given and the bytes of the analysed program.
pub mod Armed
pub mod Drain
pub mod Effect
pub mod Ends
pub mod Finds
pub mod Found
pub mod Frame
pub mod Handler
pub mod Life
pub mod PrintDis
pub mod Address
pub mod Ready
pub mod Rule
pub mod Worklist
pub mod Explore
pub mod Closed
pub mod Alike
pub mod Analysed
pub mod Visited
pub mod Sound
pub mod Complete
pub mod Record
pub mod Recover
pub mod Refuse
pub mod Restore
pub mod Session
pub mod Finish
pub mod Start
pub mod Stays
pub mod Steps
pub mod Survey
pub mod Follow
pub mod Loaded
pub mod Execution
pub mod Target
pub mod Trapped
pub mod Udis
pub mod Visit
pub mod Walk
pub mod Trap
use counter_rop.Common.{
  ℕ, zero, suc, ◌+◌, ◌≡◌, Option, none, some, ◌==◌, if◌then◌else◌, Bool, true, false, List, [], ◌∷◌,
}
use counter_rop.Common.Outcome.{Outcome, ok, fault, exits, out_of_fuel, Cmd, zoom, put_back}
use counter_rop.LinkedList.{LinkedList}
use counter_rop.HashTable.{HashTable}
use counter_rop.BoundTree.{BoundTree, BoundTreeData}

-- `gregs` of the context, for the registers that `get_register` reads.
pub record Registers : Type 0 where
  pub rip : ℕ
  pub rax : ℕ
  pub rcx : ℕ
  pub rdx : ℕ
  pub rbx : ℕ
  pub rsp : ℕ
  pub rbp : ℕ
  pub rsi : ℕ
  pub rdi : ℕ
  pub r8 : ℕ
  pub r9 : ℕ
  pub r10 : ℕ
  pub r11 : ℕ
  pub r12 : ℕ
  pub r13 : ℕ
  pub r14 : ℕ
  pub r15 : ℕ

-- `tree_data` is the global `data`, `none` if it is null or was freed; `address_list` is `none` once it
-- was deleted. `ud_obj` is the state of the disassembler.
pub record Analyzer (Ud : Type 0) : Type 0 where
  pub original_start_bytes : HashTable
  pub start_byte_list : LinkedList
  pub address_list : Option LinkedList
  pub valid_address_list : LinkedList
  pub this_bound_tree : BoundTree
  pub tree_data : Option BoundTreeData
  pub bound_val : ℕ
  pub lower_val : ℕ
  pub upper_val : ℕ
  pub reg_flag : Bool
  pub trap_flag : ℕ
  pub registers : Registers
  pub memory : ℕ → ℕ
  pub ud_obj : Ud

abbrev pub poke : (ℕ → ℕ) → ℕ → ℕ → ℕ → ℕ
poke memory address byte a = if a == address then byte else memory a

module _ {Ud A : Type 0} where
  abbrev pub on_bytes : Cmd HashTable A → Cmd (Analyzer Ud) A
  on_bytes = zoom (λ s. s.original_start_bytes) (λ t s. record s { original_start_bytes = t })

  abbrev pub on_start_byte_list : Cmd LinkedList A → Cmd (Analyzer Ud) A
  on_start_byte_list = zoom (λ s. s.start_byte_list) (λ l s. record s { start_byte_list = l })

  abbrev pub on_valid_address_list : Cmd LinkedList A → Cmd (Analyzer Ud) A
  on_valid_address_list =
      zoom (λ s. s.valid_address_list) (λ l s. record s { valid_address_list = l })

  abbrev pub on_tree : Cmd BoundTree A → Cmd (Analyzer Ud) A
  on_tree = zoom (λ s. s.this_bound_tree) (λ b s. record s { this_bound_tree = b })

  -- A list that was deleted is a dangling pointer.
  abbrev pub on_address_list : Cmd LinkedList A → Cmd (Analyzer Ud) A
  on_address_list m s = elim s.address_list [
    | none ↦ fault
    | some l ↦ put_back (λ l s. record s { address_list = some l }) s (m l)
  ]
