-- ===== src/Analyzer/Execution.antt =====
-- A run of the program under the analyser, of elf/libaddr.cc and data/trap/trap.c: it stores bytes, and runs
-- into one trap after another.
use counter_rop.Common.{
  false, Option, ap, ◌==◌, ==→eq, Bool-cases, true≢false, is_some, ℕ, suc, ◌+◌, ◌≡◌, refl, true,
  List, ◌∷◌, arith, sym, subst, ◌∙◌, inl, inr,
}
use counter_rop.Common.Outcome.{ok, Returns, returns}
use counter_rop.LinkedList.{LinkedList, list_find}
use counter_rop.LinkedList.Chain.{contains, Stores}
use counter_rop.LinkedList.Queue.{list_find-contains}
use counter_rop.Analyzer.{Analyzer, Registers, poke}
use counter_rop.Analyzer.Armed.{Armed, IsSite}
use counter_rop.Analyzer.Handler.{trap_handler}
use counter_rop.Analyzer.Recover.{trap_address}
use counter_rop.Analyzer.Trap.{System}
use counter_rop.Analyzer.Udis.{Disassembler}
use counter_rop.Analyzer.Visited.{AllTrapped}
use counter_rop.Analyzer.Worklist.{World}
use counter_rop.Analyzer.Session.{IsTrap, at, Running, Running-weaken, trap_handler-Running}

-- A byte that is stored where no site is belongs to the program.
stored-Armed :
    {Ud : Type 0} (orig : ℕ → ℕ) (m : ℕ → Option ℕ) (xs : List ℕ) (x v : ℕ) (s : Analyzer Ud)
    → contains x xs ≡ false
    → Armed orig s m xs
    → Armed (poke orig x v) (record s { memory = poke s.memory x v }) m xs
stored-Armed orig m xs x v s free h = record {
  maps = h.maps;
  stores = h.stores;
  bytes = λ y. elim (Bool-cases (y == x)) [
    | inl same ↦ inl (rw same refl)
    | inr other ↦ rw other (h.bytes y)
  ];
  originals = λ y w e. elim (Bool-cases (y == x)) [
    | inl same ↦ absurd (
        true≢false
          (sym (h.listed y ∙ ap is_some e) ∙ ap (λ z. contains z xs) (==→eq y x same) ∙ free))
    | inr other ↦ rw other (h.originals y w e)
  ];
  listed = h.listed;
}

not_listed :
    (l : LinkedList) (x : ℕ) (xs : List ℕ)
    → Stores l xs
    → list_find x l ≡ ok (0, l)
    → contains x xs ≡ false
not_listed l x xs stores absent = elim (Bool-cases (contains x xs)) [
  | inr free ↦ free
  | inl listed ↦ absurd (cc (list_find-contains l x xs stores, listed, absent))
]

value_of : {A : Type 0} {P : A → Type 0} {x : A} → Returns P (ok x) → P x
value_of (returns p) = p

module _ (d : Disassembler) (sys : System) (garbage : ℕ) (orig : ℕ → ℕ)
    (sites : (u : d.Ud) → IsSite sys (d.insn_ptr u)) where
  stored-AllTrapped :
      (out : List ℕ) (x v : ℕ) (a : World d)
      → contains x a.found.sites ≡ false
      → AllTrapped out a.memory a.found.sites
      → AllTrapped out (poke a.memory x v) a.found.sites
  stored-AllTrapped out x v a free h y outside listed = elim (Bool-cases (y == x)) [
    | inl same ↦
        absurd
          (true≢false (sym listed ∙ ap (λ z. contains z a.found.sites) (==→eq y x same) ∙ free))
    | inr other ↦ rw other (h y outside listed)
  ]

  stored-Running :
      (out : List ℕ) (rounds m x v : ℕ) (s : Analyzer d.Ud)
      → list_find x s.start_byte_list ≡ ok (0, s.start_byte_list)
      → Running d sys garbage orig sites out rounds m s
      → Running d sys garbage
          (poke orig x v)
          sites
          out
          rounds
          m
          (record s { memory = poke s.memory x v })
  stored-Running out rounds m x v s absent h =
      let e = h.explored in
      let found = h.world.found in
      let free = not_listed s.start_byte_list x found.sites e.holds.armed.stores absent in
      record {
        world = record h.world { memory = poke h.world.memory x v };
        explored = record {
          holds = record {
            list = e.holds.list;
            there = e.holds.there;
            queue = e.holds.queue;
            valid = e.holds.valid;
            armed = stored-Armed orig found.originals found.sites x v s free e.holds.armed;
            queue_room = e.holds.queue_room;
            valid_room = e.holds.valid_room;
            list_room = e.holds.list_room;
            table_room = e.holds.table_room;
          };
          memory_is = λ i. poke (e.memory_is i) x v;
          ud_is = e.ud_is;
          restorable = e.restorable;
          is_tree = e.is_tree;
          tree_room = e.tree_room;
        };
        trapped = stored-AllTrapped out x v h.world free h.trapped;
        idle = record { no_trap = h.idle.no_trap; no_register = h.idle.no_register };
        fuel = h.fuel;
      }

module _ (d : Disassembler) (sys : System) (garbage : ℕ)
    (sites : (u : d.Ud) → IsSite sys (d.insn_ptr u)) where
  -- The program stores the byte `v` at `x`.
  abbrev pub stored : ℕ → ℕ → Analyzer d.Ud → Analyzer d.Ud
  stored x v s = record s { memory = poke s.memory x v }

  -- A run of the program: it stores bytes, but not at a site, and runs into at most `m` traps, with any
  -- registers at each of them. Without the traps it would make `orig'` of the bytes `orig`. The sites
  -- that it has run into are `out` before and `out'` after it.
  pub data RunsTo (rounds : ℕ)
      : ℕ → List ℕ → (ℕ → ℕ) → Analyzer d.Ud → List ℕ → (ℕ → ℕ) → Analyzer d.Ud → Type 0 where
    rests :
        {m : ℕ} {out : List ℕ} {orig : ℕ → ℕ} {s : Analyzer d.Ud}
        → RunsTo rounds m out orig s out orig s
    stores :
        {m : ℕ} {out out' : List ℕ} {orig orig' : ℕ → ℕ} {s s' : Analyzer d.Ud} (x v : ℕ)
        → list_find x s.start_byte_list ≡ ok (0, s.start_byte_list)
        → RunsTo rounds m out (poke orig x v) (stored x v s) out' orig' s'
        → RunsTo rounds m out orig s out' orig' s'
    traps :
        {m : ℕ} {out out' : List ℕ} {orig orig' : ℕ → ℕ} {s s' s'' : Analyzer d.Ud} (r : Registers)
        → IsTrap d sys garbage orig sites (at d sys garbage orig sites r s)
        → trap_handler d sys garbage rounds true (at d sys garbage orig sites r s) ≡ ok (tt, s')
        → RunsTo rounds m
            (trap_address (at d sys garbage orig sites r s) ∷ out)
            orig
            s'
            out'
            orig'
            s''
        → RunsTo rounds (suc m) out orig s out' orig' s''

  -- Let the program run, from a state in which it can run into `m + n` traps more, let it store bytes, but
  -- not at a site, and run into at most `m` traps, with any registers at each of them, where each is a
  -- trap byte that is not its own at a call or jump through memory or a register that leads to an
  -- address other than 0, and let each instruction that the disassembler names stand at an address
  -- below 2 ^ 56, not 0, in a page that can be made writable. Then it can run into `n` traps more: the
  -- program with the bytes that it stored is recoverable, the lists, the table and the tree hold what
  -- the analysis has found, no flag of the handler is up, there is memory and there are rounds for all
  -- that can still be found, and each site has a trap byte in memory but for those that the program has
  -- run into, before this run or in it.
  pub RunsTo-Running :
      {rounds m : ℕ} {out out' : List ℕ} {orig orig' : ℕ → ℕ} {s s' : Analyzer d.Ud} (n : ℕ)
      → RunsTo rounds m out orig s out' orig' s'
      → Running d sys garbage orig sites out rounds (m + n) s
      → Running d sys garbage orig' sites out' rounds n s'
  RunsTo-Running {rounds} {m} {out} {out'} {orig} {orig'} {s} n rests h =
      Running-weaken d sys garbage orig sites out rounds (m + n) n s (omega arith) h
  RunsTo-Running {rounds} {m} {out} {out'} {orig} {orig'} {s} n (stores x v free rest) h =
      RunsTo-Running n rest
        (stored-Running d sys garbage orig sites out rounds (m + n) x v s free h)
  RunsTo-Running {rounds} n (traps {m} {out} {out'} {orig} {orig'} {s} r trap run rest) h =
      RunsTo-Running n rest (
        value_of (
          subst (Returns _) run (
            trap_handler-Running d sys garbage orig sites out rounds (m + n) r s
              (subst (λ k. Running d sys garbage orig sites out rounds k s) (omega arith) h) trap)))
