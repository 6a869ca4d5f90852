-- ===== src/Analyzer/Effect.antt =====
-- What one instruction of the walk of `printDis`, of elf/libaddr.cc, adds to what the analyser has found.
use counter_rop.Common.{
  ℕ, suc, ◌≤◌, ◌≡◌, refl, Bool, true, false, Option, some, List, ◌∙◌, sym, subst, arith,
}
use counter_rop.Common.Outcome.{Returns, returns}
use counter_rop.LinkedList.{LinkedList, list_insert}
use counter_rop.LinkedList.Chain.{Stores}
use counter_rop.LinkedList.Queue.{enqueue, list_insert-enqueue}
use counter_rop.HashTable.Map.{put_first}
use counter_rop.Analyzer.{poke, Analyzer, on_address_list, on_valid_address_list}
use counter_rop.Analyzer.Armed.{Armed, IsSite, arm_outcome}
use counter_rop.Analyzer.PrintDis.{arm}
use counter_rop.Analyzer.Trap.{System, trap_byte, operand_offset}
use counter_rop.Analyzer.Udis.{
  Mnemonic, icall, ijmp, iret, other_mnemonic, Operand, OperandType, op_mem, op_reg,
}

-- The queue, the addresses behind the calls, and the sites of the trap bytes with their original bytes.
pub record Discovered : Type 0 where
  pub queue : List ℕ
  pub valid : List ℕ
  pub sites : List ℕ
  pub originals : ℕ → Option ℕ

abbrev pub is_mem : OperandType → Bool
is_mem op_mem = true
is_mem _ = false

abbrev pub is_mem_or_reg : OperandType → Bool
is_mem_or_reg op_mem = true
is_mem_or_reg op_reg = true
is_mem_or_reg _ = false

-- A site that becomes armed, where `byte` stands.
abbrev pub arms : ℕ → ℕ → Discovered → Discovered
arms base byte a = record a {
  sites = enqueue base a.sites;
  originals = put_first a.originals base byte;
}

abbrev pub calls_to : ℕ → ℕ → Discovered → Discovered
calls_to next target a = record a { queue = enqueue target a.queue; valid = enqueue next a.valid }

abbrev pub jumps_to : ℕ → Discovered → Discovered
jumps_to target a = record a { queue = enqueue target a.queue }

-- Whether the instruction becomes a site.
abbrev pub arms_at : Mnemonic → OperandType → Bool
arms_at icall kind = is_mem kind
arms_at iret kind = false
arms_at other_mnemonic kind = false
arms_at _ kind = is_mem_or_reg kind

-- The variable `offset` after the instruction.
abbrev pub offset_after : Mnemonic → ℕ → Operand → ℕ
offset_after iret held opr = held
offset_after other_mnemonic held opr = held
offset_after _ held opr = operand_offset held opr

-- The walk stops behind a jump without a condition.
abbrev pub going_after : Mnemonic → Bool → Bool
going_after ijmp going = false
going_after _ going = going

-- The parts of the state that the walk goes by.
pub record Kept {Ud : Type 0} (memory : ℕ → ℕ) (s s' : Analyzer Ud) : Type 0 where
  pub memory_is : s'.memory ≡ memory
  pub ud_is : s'.ud_obj ≡ s.ud_obj
  pub bound_is : s'.bound_val ≡ s.bound_val

pub same :
    {Ud : Type 0} {s s' : Analyzer Ud} {memory : ℕ → ℕ}
    → s'.memory ≡ memory
    → s'.ud_obj ≡ s.ud_obj
    → s'.bound_val ≡ s.bound_val
    → Kept memory s s'
same m u b = record { memory_is = m; ud_is = u; bound_is = b }

pub Kept-trans :
    {Ud : Type 0} {s s' s'' : Analyzer Ud}
    → Kept s.memory s s'
    → Kept s'.memory s' s''
    → Kept s.memory s s''
Kept-trans h k = same (k.memory_is ∙ h.memory_is) (k.ud_is ∙ h.ud_is) (k.bound_is ∙ h.bound_is)

-- The state holds what was found, with memory for `n` more insertions.
pub record Holds {Ud : Type 0} (orig : ℕ → ℕ) (a : Discovered) (n : ℕ) (s : Analyzer Ud)
    : Type 0 where
  pub list : LinkedList
  pub there : s.address_list ≡ some list
  pub queue : Stores list a.queue
  pub valid : Stores s.valid_address_list a.valid
  pub armed : Armed orig s a.originals a.sites
  pub queue_room : n ≤ list.heap.room
  pub valid_room : n ≤ s.valid_address_list.heap.room
  pub list_room : n ≤ s.start_byte_list.heap.room
  pub table_room : n ≤ s.original_start_bytes.heap.room

pub Holds-weaken :
    {Ud : Type 0} (orig : ℕ → ℕ) (n m : ℕ) (a : Discovered) (s : Analyzer Ud)
    → n ≤ m
    → Holds orig a m s
    → Holds orig a n s
Holds-weaken orig n m a s less h = record {
  list = h.list;
  there = h.there;
  queue = h.queue;
  valid = h.valid;
  armed = h.armed;
  queue_room = omega (arith, h.queue_room);
  valid_room = omega (arith, h.valid_room);
  list_room = omega (arith, h.list_room);
  table_room = omega (arith, h.table_room);
}

-- The disassembler does not matter.
pub Holds-ud :
    {Ud : Type 0} (orig : ℕ → ℕ) (n : ℕ) (a : Discovered) (s : Analyzer Ud) (u : Ud)
    → Holds orig a n s
    → Holds orig a n (record s { ud_obj = u })
Holds-ud orig n a s u h = record {
  list = h.list;
  there = h.there;
  queue = h.queue;
  valid = h.valid;
  armed = h.armed;
  queue_room = h.queue_room;
  valid_room = h.valid_room;
  list_room = h.list_room;
  table_room = h.table_room;
}

module _ {Ud : Type 0} (sys : System) (orig : ℕ → ℕ) where
  pub arm-Holds :
      (n base : ℕ) (a : Discovered) (s : Analyzer Ud)
      → IsSite sys base
      → Holds orig a (suc n) s
      → Returns
          (λ (_, s').
            Holds orig (arms base (s.memory base) a) n s'
            × Kept (poke s.memory base trap_byte) s s')
          (arm sys base s)
  arm-Holds n base a s site h =
      let (l, t, run, armed, list_left, table_left) =
        arm_outcome sys orig s a.originals a.sites base h.armed site.1 site.2
          (omega (arith, h.list_room)) (omega (arith, h.table_room)) in
      subst
        (Returns (λ (_, s').
          Holds orig (arms base (s.memory base) a) n s' × Kept (poke s.memory base trap_byte) s s'))
        (sym run)
        (returns (
          record {
            list = h.list;
            there = h.there;
            queue = h.queue;
            valid = h.valid;
            armed = armed;
            queue_room = omega (arith, h.queue_room);
            valid_room = omega (arith, h.valid_room);
            list_room = omega (arith, h.list_room);
            table_room = omega (arith, h.table_room);
          },
          same refl refl refl,
        ))

  pub queue-Holds :
      (n target : ℕ) (a : Discovered) (s : Analyzer Ud)
      → Holds orig a (suc n) s
      → Returns
          (λ (_, s'). Holds orig (jumps_to target a) n s' × Kept s.memory s s')
          (on_address_list (list_insert target) s)
  queue-Holds n target a s h =
      let (l, run, stores, left) =
        list_insert-enqueue h.list target a.queue h.queue (omega (arith, h.queue_room)) in
      rw (h.there, run)
        (returns (
          record {
            list = l;
            there = refl;
            queue = stores;
            valid = h.valid;
            armed = h.armed;
            queue_room = omega (arith, h.queue_room);
            valid_room = omega (arith, h.valid_room);
            list_room = omega (arith, h.list_room);
            table_room = omega (arith, h.table_room);
          },
          same refl refl refl,
        ))

  pub valid-Holds :
      (n next : ℕ) (a : Discovered) (s : Analyzer Ud)
      → Holds orig a (suc n) s
      → Returns
          (λ (_, s').
            Holds orig (record a { valid = enqueue next a.valid }) n s' × Kept s.memory s s')
          (on_valid_address_list (list_insert next) s)
  valid-Holds n next a s h =
      let (l, run, stores, left) =
        list_insert-enqueue s.valid_address_list next a.valid h.valid
          (omega (arith, h.valid_room)) in
      rw run (
        returns (
          record {
            list = h.list;
            there = h.there;
            queue = h.queue;
            valid = stores;
            armed = h.armed;
            queue_room = omega (arith, h.queue_room);
            valid_room = omega (arith, h.valid_room);
            list_room = omega (arith, h.list_room);
            table_room = omega (arith, h.table_room);
          },
          same refl refl refl,
        ))
