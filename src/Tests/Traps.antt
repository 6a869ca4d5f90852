-- ===== src/Tests/Traps.antt =====
-- data/trap/trap.c at a program of the bytes 0x55 with a trap byte at 64.
use counter_rop.Common.{◌==◌, if◌then◌else◌, ℕ, ◌≡◌, refl, true, false, none, some, [], ◌∷◌, arith}
use counter_rop.Common.Outcome.{ok}
use counter_rop.Common.Heap.{update, empty_heap}
use counter_rop.LinkedList.{LinkedList, list_node}
use counter_rop.LinkedList.Chain.{Stores}
use counter_rop.HashTable.Map.{put_first}
use counter_rop.Analyzer.{Analyzer, poke}
use counter_rop.Analyzer.Trap.{System, shutdown}
use counter_rop.Analyzer.PrintDis.{arm}
use counter_rop.Analyzer.Armed.{Armed, arm-Armed}
use counter_rop.Analyzer.Restore.{shutdown-restores}
use counter_rop.Tests.Tables.{one_table, one_map, one_table-Maps}

abbrev pub one_list : ℕ → LinkedList
one_list room = record {
  head = 1;
  tail = 1;
  heap = record { cell = update (λ _. none) 1 (some (list_node 64 0 0)); fresh = 2; room = room };
}

pub one_list-Stores : (room : ℕ) → Stores (one_list room) (64 ∷ [])
one_list-Stores room = (
  (1, 64) ∷ [],
  record {
    head_first = refl;
    tail_last = refl;
    chain = (omega arith, refl, tt);
    distinct = (refl, tt);
    below = omega arith;
    sized = omega arith;
    exact = λ p out. ground arith;
  },
  refl,
)

abbrev pub no_list : ℕ → LinkedList
no_list room = record { head = 0; tail = 0; heap = empty_heap room }

-- An indirect call at 4097 and a return at 4098.
abbrev pub original : ℕ → ℕ
original a = if a == 4097 then 0xFF else if a == 4098 then 0xC3 else 0x55

abbrev pub program : {Ud : Type 0} → Ud → ℕ → Analyzer Ud
program u room = record {
  original_start_bytes = one_table room;
  start_byte_list = one_list room;
  address_list = some (no_list room);
  valid_address_list = no_list room;
  this_bound_tree = record { root = 0; is_initialized = false; heap = empty_heap room };
  tree_data = none;
  bound_val = 0;
  lower_val = 0;
  upper_val = 0;
  reg_flag = false;
  trap_flag = 0;
  registers = record {
    rip = 65;
    rax = 0;
    rcx = 0;
    rdx = 0;
    rbx = 0;
    rsp = 0;
    rbp = 0;
    rsi = 0;
    rdi = 0;
    r8 = 0;
    r9 = 0;
    r10 = 0;
    r11 = 0;
    r12 = 0;
    r13 = 0;
    r14 = 0;
    r15 = 0;
  };
  memory = poke original 64 0xCC;
  ud_obj = u;
}

abbrev pub system : System
system = record { mprotect = λ _. true; beyond = λ _. [] }

pub program-Armed :
    {Ud : Type 0} (u : Ud) (room : ℕ) → Armed original (program u room) one_map (64 ∷ [])
program-Armed u room = record {
  maps = one_table-Maps room;
  stores = one_list-Stores room;
  bytes = λ a. ground arith;
  originals = λ a v e. ground arith;
  listed = λ a. ground arith;
}

arm-Armed_example :
    (s' : Analyzer (Unit {0})) × (arm system 72 (program tt 4) ≡ ok (tt, s'))
    × Armed original s' (put_first one_map 72 0x55) (64 ∷ 72 ∷ [])
    × (s'.memory 72 ≡ 0xCC)
arm-Armed_example =
    arm-Armed system original (program tt 4) one_map (64 ∷ []) 72 (program-Armed tt 4) (omega arith)
      refl (omega arith) (omega arith)

shutdown-restores_example :
    (s' : Analyzer (Unit {0})) × (shutdown system (program tt 4) ≡ ok (tt, s'))
    × ((a : ℕ) → s'.memory a ≡ original a)
shutdown-restores_example =
    shutdown-restores system original (program tt 4) one_map (64 ∷ []) (program-Armed tt 4)
      ((omega arith, omega arith, refl), tt)
