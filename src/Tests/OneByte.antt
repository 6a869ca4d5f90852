-- ===== src/Tests/OneByte.antt =====
-- A disassembler of one-byte instructions, and a state of the analyser of elf/libaddr.cc in which `main` is
-- looked at.
use counter_rop.Common.{
  ◌≡◌, ℕ, ◌+◌, ◌*◌, ◌-◌, ◌%◌, ◌≢◌, ◌<◌, refl, false, some, [], ◌∷◌, arith, ◌==◌, if◌then◌else◌,
}
use counter_rop.Common.Word.{slt, word_mod}
use counter_rop.Common.Heap.{empty_heap}
use counter_rop.BoundTree.{BoundTreeData}
use counter_rop.BoundTree.Shape.{leaf, IsTree}
use counter_rop.LinkedList.Chain.{Stores}
use counter_rop.Analyzer.{Analyzer, Registers}
use counter_rop.Analyzer.Armed.{IsSite}
use counter_rop.Analyzer.Ready.{View, ReadyAs}
use counter_rop.Analyzer.Start.{start}
use counter_rop.Analyzer.Udis.{
  Disassembler, Mnemonic, iret, icall, other_mnemonic, op_mem, reg_rip, no_register,
}
use counter_rop.Tests.Tables.{one_map}
use counter_rop.Tests.Traps.{
  no_list, original, program, program-Armed, one_list-Stores, one_list, system,
}

-- The start of the buffer, the current instruction, the next one, how much of the buffer is left, and
-- the current byte.
pub record OneByte : Type 0 where
  start : ℕ
  at : ℕ
  next : ℕ
  left : ℕ
  opcode : ℕ

abbrev mnemonic_of : ℕ → Mnemonic
mnemonic_of b = if b == 0xC3 then iret else if b == 0xFF then icall else other_mnemonic

abbrev advance : ℕ → ℕ
advance n = if n == 0 then 0 else 1

abbrev window : ℕ → ℕ
window a = a % 4096 + 4096

-- Nothing is read below the start of the buffer.
abbrev step_size : ℕ → ℕ → ℕ → ℕ
step_size start a left = if slt (window a) start then 0 else advance left

pub uses_up : (start a left : ℕ) → step_size start a left ≢ 0 → left - 1 < left
uses_up start a left more = ground arith

pub stays_in : (start a left : ℕ) → step_size start a left ≢ 0 → slt (window a) start ≡ false
stays_in start a left more = ground arith

-- It sees the addresses from 4096 up to 8191.
abbrev pub one_byte : Disassembler
one_byte = record {
  Ud = OneByte;
  set_input_buffer = λ a n u. record u { start = a; next = a; left = n };
  disassemble = λ memory u. (
    step_size u.start u.next u.left,
    record u { at = u.next; next = u.next + 1; left = u.left - 1; opcode = memory u.next },
  );
  insn_ptr = λ u. window u.at;
  insn_len = λ u. 1;
  insn_mnemonic = λ u. mnemonic_of u.opcode;
  insn_opr = λ u. record {
    kind = op_mem;
    size = 32;
    lval = 0;
    base = reg_rip;
    index = no_register;
    scale = 0;
  };
  remaining = λ u. u.left;
  remaining-set = λ a n u. refl;
  remaining-disassemble = λ memory u more. uses_up u.start u.next u.left more;
  buffer = λ u. u.start;
  buffer-set = λ a n u. refl;
  buffer-disassemble = λ memory u. refl;
  insn_ptr-buffer = λ memory u more. stays_in u.start u.next u.left more;
}

pub one_byte_sites : (u : OneByte) → IsSite system (one_byte.insn_ptr u)
one_byte_sites u = (omega arith, omega arith, refl)

pub no_list-Stores : (room : ℕ) → Stores (no_list room) []
no_list-Stores room = (
  [],
  record {
    head_first = refl;
    tail_last = refl;
    chain = tt;
    distinct = tt;
    below = tt;
    sized = omega arith;
    exact = λ p out. refl;
  },
  refl,
)

abbrev pub no_instruction : OneByte
no_instruction = record { start = 0; at = 0; next = 0; left = 0; opcode = 0 }

abbrev pub no_range : BoundTreeData
no_range = record { is_left_child = false; bound = 5095; node = 0 }

abbrev pub at_main : ℕ → Analyzer OneByte
at_main room = record (program no_instruction room) {
  address_list = some (one_list room);
  tree_data = some no_range;
  bound_val = 5095;
  lower_val = 4096;
}

pub bare-IsTree :
    (room : ℕ) → IsTree (record { root = 0; is_initialized = false; heap = empty_heap room }) leaf
bare-IsTree room = record {
  initialized = refl;
  rooted = λ e. refl;
  repr = tt;
  distinct = tt;
  below = tt;
  sized = omega arith;
  exact = λ p out. refl;
}

-- The view of `at_main`: the address 64 is on the queue.
abbrev pub main_view : ℕ → View
main_view room = record { cap = room + 1; ahead = 64 ∷ []; shape = leaf }

unfoldable pub at_main-Ready :
    (room : ℕ) → ReadyAs system original (main_view room) room (at_main room)
at_main-Ready room = record {
  program = record {
    originals = one_map;
    sites = 64 ∷ [];
    armed = program-Armed no_instruction room;
    restorable = ((omega arith, omega arith, refl), tt);
    table_room = omega arith;
    list_room = omega arith;
  };
  queue = record {
    queue = one_list room;
    there = refl;
    later = [];
    stores = one_list-Stores room;
    room = omega arith;
    bounded = omega arith;
  };
  valid = record { addresses = []; stores = no_list-Stores room; room = omega arith };
  is_tree = bare-IsTree room;
  tree_room = omega arith;
}

-- The same with an empty queue.
abbrev pub loaded : ℕ → Analyzer OneByte
loaded room = record (at_main room) { address_list = some (no_list room) }

abbrev pub no_view : ℕ → View
no_view room = record { cap = room; ahead = []; shape = leaf }

unfoldable pub loaded-Ready : (room : ℕ) → ReadyAs system original (no_view room) room (loaded room)
unfolding at_main-Ready
loaded-Ready room =
    let h = at_main-Ready room in
    record {
      program = h.program;
      queue = record {
        queue = no_list room;
        there = refl;
        later = [];
        stores = no_list-Stores room;
        room = omega arith;
        bounded = omega arith;
      };
      valid = h.valid;
      is_tree = h.is_tree;
      tree_room = h.tree_room;
    }

-- Memory for each word.
abbrev pub plenty : ℕ
plenty = 203 * word_mod

abbrev pub registers : Registers
registers = (program no_instruction 4).registers
