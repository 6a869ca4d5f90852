-- ===== src/Analyzer/Found.antt =====
-- `trap_handler` of data/trap/trap.c at the first trap: the byte is put back, and what the call or jump
-- leads to is analysed.
use counter_rop.Common.{
  ◌≤◌, ◌<◌, ◌≢◌, All, ==→eq, true≢false, [], ◌∷◌, ℕ, suc, ◌+◌, ◌-◌, ◌*◌, ◌≡◌, true, List, ◌∙◌,
  arith, sym, subst, ap, ◌==◌, Bool-cases, inl, inr, ◌⊎◌,
}
use counter_rop.Common.Word.{page_start}
use counter_rop.Common.Outcome.{
  IsSafe, Returns-IsSafe, IsSafe-then, ok, Cmd, Returns, returns, Returns-mono, Returns-if, modify,
  ◌>>=◌, ◌>>◌, and_then, and_then_assoc, Returns-bind,
}
use counter_rop.LinkedList.{list_insert}
use counter_rop.LinkedList.Chain.{contains}
use counter_rop.HashTable.{hashtable_find}
use counter_rop.HashTable.Map.{hashtable_find-Maps}
use counter_rop.Analyzer.{Analyzer, poke, on_address_list}
use counter_rop.Analyzer.Armed.{IsSite}
use counter_rop.Analyzer.Drain.{drain-Ready}
use counter_rop.Analyzer.Ends.{Drained, drain-Drained}
use counter_rop.BoundTree.Measure.{uncovered}
use counter_rop.Analyzer.Handler.{first_trap, trap_handler, resolve, drain}
use counter_rop.Analyzer.Ready.{View, Ready, ReadyAs}
use counter_rop.Analyzer.Steps.{queue-Ready}
use counter_rop.Analyzer.Recover.{trap_address, stepped_back, held_value, bytes_restored}
use counter_rop.Analyzer.Trap.{System, get_address, address_of}
use counter_rop.Analyzer.Udis.{Disassembler, Operand, op_mem, op_reg}

-- A byte that is put back keeps the state well formed.
pub Ready-restored :
    {Ud : Type 0} (sys : System) (orig : ℕ → ℕ) (w : View) (n : ℕ) (s : Analyzer Ud) (b : ℕ)
    → ReadyAs sys orig w n s
    → ReadyAs sys orig w n (record s { memory = poke s.memory b (orig b) })
Ready-restored sys orig w n s b h = record {
  program = record {
    originals = h.program.originals;
    sites = h.program.sites;
    armed = record {
      maps = h.program.armed.maps;
      stores = h.program.armed.stores;
      bytes = λ a. bytes_restored orig s.memory h.program.originals b a (h.program.armed.bytes a);
      originals = h.program.armed.originals;
      listed = h.program.armed.listed;
    };
    restorable = h.program.restorable;
    table_room = h.program.table_room;
    list_room = h.program.list_room;
  };
  queue = h.queue;
  valid = h.valid;
  is_tree = h.is_tree;
  tree_room = h.tree_room;
}

pub Drained-flag :
    {Ud : Type 0} (sys : System) (orig : ℕ → ℕ) (w : View) (n : ℕ) (s : Analyzer Ud) (f : ℕ)
    → Drained sys orig w n s
    → Drained sys orig w n (record s { trap_flag = f })
Drained-flag sys orig w n s f h = record {
  cap = h.cap;
  shape = h.shape;
  ready = h.ready;
  held = h.held;
  grows = h.grows;
}

-- A call or jump through a register or through memory.
abbrev pub IsIndirect : Operand → Type 0
IsIndirect opr = (opr.kind ≡ op_mem) ⊎ (opr.kind ≡ op_reg)

module _ (d : Disassembler) (sys : System) (garbage : ℕ) (orig : ℕ → ℕ) where
  get_address-Ready :
      (w : View) (n : ℕ) (s : Analyzer d.Ud) (opr : Operand)
      → IsIndirect opr
      → ReadyAs sys orig w n s
      → Returns (λ (_, s'). ReadyAs sys orig w n s') (get_address d garbage opr s)
  unfolding get_address address_of
  get_address-Ready w n s opr (inl e) h = rw e (returns h)
  get_address-Ready w n s opr (inr e) h = rw e (returns h)

  resolve-Ready :
      (w : View) (n a : ℕ) (s : Analyzer d.Ud)
      → ReadyAs sys orig w n s
      → Returns (λ (_, s'). ReadyAs sys orig w n s') (resolve d sys garbage a s)
  unfolding resolve
  resolve-Ready w n a s h = Returns-if s.reg_flag _ _ s (returns h) (returns h)

  -- The state in which `trap_handler` asks for the operand.
  abbrev pub looked_at : Analyzer d.Ud → Analyzer d.Ud
  looked_at s = record (stepped_back orig s) {
    trap_flag = s.trap_flag + 1;
    ud_obj =
        (d.disassemble (stepped_back orig s).memory
          (d.set_input_buffer (trap_address s) 100 s.ud_obj)).1;
  }

  -- What it does then: it puts the target on the queue, and empties it.
  abbrev pub target_queued : Cmd (Analyzer d.Ud) ℕ
  target_queued s =
      (get_address d garbage (d.insn_opr s.ud_obj)
          >>= (λ a. resolve d sys garbage a >>= (λ target. on_address_list (list_insert target))))
        s

  abbrev pub go_on : ℕ → Cmd (Analyzer d.Ud) (Unit {0})
  go_on rounds = target_queued >>= (λ _.
      drain d sys garbage rounds >> modify (λ s. record s { trap_flag = s.trap_flag - 1 }))

  first_runs :
      (s : Analyzer d.Ud) (rounds : ℕ)
      → sys.mprotect (page_start (trap_address s)) ≡ true
      → hashtable_find (trap_address s) (sys.beyond (trap_address s)) s.original_start_bytes
        ≡ ok (orig (trap_address s), s.original_start_bytes)
      → first_trap d sys garbage rounds true s ≡ go_on rounds (looked_at s)
  unfolding first_trap
  first_runs s rounds writable found =
      let s' = looked_at s in
      let opr = d.insn_opr s'.ud_obj in
      let insert : ℕ → Cmd (Analyzer d.Ud) ℕ = λ target. on_address_list (list_insert target) in
      let rest : ℕ → Cmd (Analyzer d.Ud) (Unit {0}) =
        λ _. drain d sys garbage rounds >> modify (λ s. record s { trap_flag = s.trap_flag - 1 }) in
      rw (writable, found)
        ((λ i.
            and_then (get_address d garbage opr s')
              (λ a s₁. and_then_assoc (resolve d sys garbage a s₁) insert rest i))
          ∙ and_then_assoc (get_address d garbage opr s') (λ a. resolve d sys garbage a >>= insert)
              rest)

pub is_zero : (n : ℕ) → n ≡ 0 → (n == 0) ≡ true
is_zero n e = ap (λ k. k == 0) e

All-contains : (P : ℕ → Type 0) (a : ℕ) (xs : List ℕ) → All P xs → contains a xs ≡ true → P a
All-contains P a [] h e = absurd (true≢false (sym e))
All-contains P a (x ∷ xs) h e = elim (Bool-cases (x == a)) [
  | inl same ↦ subst P (==→eq x a same) h.0
  | inr other ↦ All-contains P a xs h.1 (ground arith)
]

module _ (d : Disassembler) (sys : System) (garbage : ℕ) (orig : ℕ → ℕ)
    (sites : (u : d.Ud) → IsSite sys (d.insn_ptr u)) where
  target_queued-Ready :
      (w : View) (m : ℕ) (s : Analyzer d.Ud)
      → ReadyAs sys orig w (suc m) s
      → IsIndirect (d.insn_opr s.ud_obj)
      → Returns (λ (_, s'). ReadyAs sys orig w m s') (target_queued d sys garbage orig s)
  target_queued-Ready w m s h indirect =
      Returns-bind
        (get_address-Ready d sys garbage orig w (suc m) s (d.insn_opr s.ud_obj) indirect h)
        (λ a s₁ h₁.
          Returns-bind (resolve-Ready d sys garbage orig w (suc m) a s₁ h₁)
            (λ target s₂ h₂. Returns-mono (queue-Ready sys orig w m target s₂ h₂) (λ _ p. p.0)))

  -- What the handler does at the first trap, where `orig` has the byte that is put back.
  pub handler_runs :
      (w : View) (m rounds : ℕ) (s : Analyzer d.Ud) (h : ReadyAs sys orig w m s)
      → s.trap_flag ≡ 0
      → contains (trap_address s) h.program.sites ≡ true
      → trap_handler d sys garbage rounds true s
        ≡ go_on d sys garbage orig rounds (looked_at d sys garbage orig s)
  unfolding trap_handler
  handler_runs w m rounds s h idle member =
      let a = trap_address s in
      let p = h.program in
      let site = All-contains (IsSite sys) a p.sites p.restorable member in
      let found =
        hashtable_find-Maps s.original_start_bytes p.originals a (sys.beyond a) p.armed.maps site.1
        ∙ ap (λ v. ok (v, s.original_start_bytes))
            (held_value orig p.originals a p.armed.originals (sym (p.armed.listed a) ∙ member)) in
      rw (is_zero s.trap_flag idle) (first_runs d sys garbage orig s rounds site.2 found)

  -- The target of the instruction at the trap, on the queue.
  handler_queued :
      (w : View) (m : ℕ) (s : Analyzer d.Ud)
      → ReadyAs sys orig w (suc m) s
      → IsIndirect (d.insn_opr (looked_at d sys garbage orig s).ud_obj)
      → Returns
          (λ (_, s'). ReadyAs sys orig w m s')
          (target_queued d sys garbage orig (looked_at d sys garbage orig s))
  handler_queued w m s h indirect =
      target_queued-Ready w m (looked_at d sys garbage orig s)
        (Ready-restored sys orig w (suc m) s (trap_address s) h) indirect

  -- From a well-formed state in which the program is recoverable and no trap is being handled: if each
  -- instruction that the disassembler names stands at an address below 2 ^ 56, not 0, in a page that
  -- can be made writable, if a SIGTRAP comes from a trap byte that the analyser set, at an instruction
  -- with an operand in memory or in a register, and each structure has memory for one insertion and
  -- 203 more a round, then `trap_handler` either ends or is still emptying the queue after the rounds
  -- it was given: no read or write goes wrong and the process does not exit. When it ends the program
  -- is recoverable, and the lists and the tree are well formed.
  pub trap_handler-Ready :
      (n rounds : ℕ) (s : Analyzer d.Ud) (h : Ready sys orig (suc (n + 203 * rounds)) s)
      → s.trap_flag ≡ 0
      → contains (trap_address s) h.1.program.sites ≡ true
      → IsIndirect (d.insn_opr (looked_at d sys garbage orig s).ud_obj)
      → IsSafe (λ (_, s'). Ready sys orig n s') (trap_handler d sys garbage rounds true s)
  trap_handler-Ready n rounds s (w, h) idle member indirect =
      let m = n + 203 * rounds in
      subst (IsSafe (λ (_, s'). Ready sys orig n s'))
        (sym (handler_runs w (suc m) rounds s h idle member))
        (Returns-IsSafe (ReadyAs sys orig w m) (Ready sys orig n) (handler_queued w m s h indirect)
          (λ _ s₁ h₁.
            IsSafe-then (Ready sys orig n) (Ready sys orig n)
              (drain-Ready d sys orig sites rounds n garbage s₁ (w, h₁)) (λ _ s₂ h₂. returns h₂)))

  -- From a well-formed state in which the program is recoverable and no trap is being handled: if each
  -- instruction that the disassembler names stands at an address below 2 ^ 56, not 0, in a page that
  -- can be made writable, if a SIGTRAP comes from a trap byte that the analyser set, at an instruction
  -- with an operand in memory or in a register, if each structure has memory for one insertion and for
  -- 203 more for each address that no range holds, and if more rounds are given than the queue can
  -- become long, then `trap_handler` ends: no read or write goes wrong and the process does not exit.
  -- Afterwards a range holds each address that stood in the queue, if none of them is 0, and each
  -- address that a range held before; the program is recoverable, and the lists and the tree are well
  -- formed.
  pub trap_handler-Drained :
      (n u rounds : ℕ) (w : View) (s : Analyzer d.Ud)
      → (h : ReadyAs sys orig w (suc (n + 203 * u)) s) → uncovered w.shape ≤ u
      → w.cap < rounds + n
      → All (λ x. x ≢ 0) w.ahead
      → s.trap_flag ≡ 0
      → contains (trap_address s) h.program.sites ≡ true
      → IsIndirect (d.insn_opr (looked_at d sys garbage orig s).ud_obj)
      → Returns (λ (_, s'). Drained sys orig w n s') (trap_handler d sys garbage rounds true s)
  trap_handler-Drained n u rounds w s h enough fuel filled idle member indirect =
      let m = n + 203 * u in
      subst (Returns (λ (_, s'). Drained sys orig w n s'))
        (sym (handler_runs w (suc m) rounds s h idle member))
        (Returns-bind (handler_queued w m s h indirect) (λ _ s₁ h₁.
          Returns-bind
            (drain-Drained d sys orig sites rounds n u garbage w s₁ h₁ enough fuel filled)
            (λ _ s₂ r. returns (Drained-flag sys orig w n s₂ (s₂.trap_flag - 1) r))))
