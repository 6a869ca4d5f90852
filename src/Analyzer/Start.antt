-- ===== src/Analyzer/Start.antt =====
-- The globals of elf/libaddr.cc and data/trap/trap.c as they are initialized when the library is loaded.
use counter_rop.Common.{ℕ, ◌≡◌, refl, inl, Bool, true, false, none, some, [], arith}
use counter_rop.Common.Outcome.{Outcome, ok, then_with}
use counter_rop.Common.Heap.{Ptr}
use counter_rop.LinkedList.{LinkedList, list_new}
use counter_rop.LinkedList.Queue.{list_new-Stores}
use counter_rop.HashTable.{HashTable, hashtable_new}
use counter_rop.HashTable.Map.{hashtable_new-Maps}
use counter_rop.BoundTree.{BoundTree, new_tree, bound_tree_new}
use counter_rop.BoundTree.Shape.{leaf, new_tree-IsTree, new_tree_room}
use counter_rop.Analyzer.{Analyzer, Registers}
use counter_rop.Analyzer.Ready.{ReadyAs}
use counter_rop.Analyzer.Trap.{System}

abbrev pub num_slots : ℕ
num_slots = 500

-- The globals, from the four objects that their initializers make.
abbrev pub globals :
    {Ud : Type 0}
    → LinkedList
    → LinkedList
    → LinkedList
    → HashTable
    → BoundTree
    → Registers
    → (ℕ → ℕ)
    → Ud
    → Analyzer Ud
globals sites addresses valid table tree registers memory u = record {
  original_start_bytes = table;
  start_byte_list = sites;
  address_list = some addresses;
  valid_address_list = valid;
  this_bound_tree = tree;
  tree_data = none;
  bound_val = 0;
  lower_val = 0;
  upper_val = 0;
  reg_flag = false;
  trap_flag = 0;
  registers = registers;
  memory = memory;
  ud_obj = u;
}

-- `made` says which calls of `malloc` succeed, in their order.
unfoldable pub start :
    {Ud : Type 0}
    → (made : ℕ → Bool) (garbage : Ptr) (room : ℕ) → Registers
    → (ℕ → ℕ)
    → Ud
    → Outcome (Analyzer Ud)
start made garbage room registers memory u = then_with (list_new (made 0) room) (λ sites.
    then_with (list_new (made 1) room) (λ addresses. then_with (list_new (made 2) room) (λ valid.
      then_with (hashtable_new (made 3) (made 4) num_slots room) (λ table.
        then_with (bound_tree_new (made 5) garbage room)
          (λ tree. ok (globals sites addresses valid table tree registers memory u))))))

module _ {Ud : Type 0} (sys : System) (garbage : Ptr) (room : ℕ) (registers : Registers)
    (memory : ℕ → ℕ) (u : Ud) where
  pub start_runs :
      (l : LinkedList) (t : HashTable)
      → list_new true room ≡ ok l
      → hashtable_new true true num_slots room ≡ ok t
      → start (λ _. true) garbage room registers memory u
        ≡ ok (globals l l l t (new_tree garbage room) registers memory u)
  unfolding start bound_tree_new
  start_runs l t listed tabled = rw (listed, tabled)

  -- If the memory for the globals is there, the analyser starts in a state that is well formed and in
  -- which the program in memory is the original one, whatever `malloc` left in the root of the tree: the
  -- queue and the tree are empty.
  pub start-Ready :
      (s : Analyzer Ud) × (start (λ _. true) garbage room registers memory u ≡ ok s)
      × ReadyAs sys memory (record { cap = room; ahead = []; shape = leaf }) room s
  start-Ready =
      let (l, listed, stores, list_left) = list_new-Stores room in
      let (t, tabled, maps, table_left) = hashtable_new-Maps num_slots room (omega arith) in
      (
        globals l l l t (new_tree garbage room) registers memory u,
        start_runs l t listed tabled,
        record {
          program = record {
            originals = λ _. none;
            sites = [];
            armed = record {
              maps = maps;
              stores = stores;
              bytes = λ a. inl refl;
              originals = λ a v e. cc;
              listed = λ a. refl;
            };
            restorable = tt;
            table_room = omega arith;
            list_room = omega arith;
          };
          queue = record {
            queue = l;
            there = refl;
            later = [];
            stores = stores;
            room = omega arith;
            bounded = omega arith;
          };
          valid = record { addresses = []; stores = stores; room = omega arith };
          is_tree = new_tree-IsTree garbage room;
          tree_room = omega (arith, new_tree_room garbage room);
        },
      )
