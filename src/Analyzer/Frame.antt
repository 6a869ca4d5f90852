-- ===== src/Analyzer/Frame.antt =====
-- What the loop that empties the queue, in `wrapped_main` of elf/libaddr.cc and `trap_handler` of
-- data/trap/trap.c, leaves alone: the registers of the program and the two flags of the handler.
use counter_rop.Common.{
  ℕ, zero, suc, ◌≡◌, refl, Bool, true, false, Option, none, some, ◌∙◌, if◌then◌else◌, ◌==◌, ◌||◌,
}
use counter_rop.Common.Outcome.{
  Outcome, ok, fault, exits, out_of_fuel, Cmd, Returns, returns, and_then, put_back,
}
use counter_rop.Common.Word.{slt, page_start}
use counter_rop.BoundTree.{BoundTree, BoundTreeData, find_range, direct_bound_tree_insert}
use counter_rop.LinkedList.{LinkedList, list_insert, list_pop}
use counter_rop.HashTable.{HashTable, hashtable_insert}
use counter_rop.Analyzer.{
  Analyzer, on_bytes, on_start_byte_list, on_valid_address_list, on_tree, on_address_list,
}
use counter_rop.Analyzer.Handler.{examine, drain}
use counter_rop.Analyzer.PrintDis.{
  call_kind, jump_kind, Locals, arm, visit_call, visit_jump, visit, dis_loop, insert_data,
  print_dis, is_ret,
}
use counter_rop.Analyzer.Trap.{System, trap_setup}
use counter_rop.Analyzer.Udis.{Disassembler, Mnemonic, icall, ijmp, iret, other_mnemonic}

-- If the run ends well, its result has the property.
pub data Ensures {A : Type 0} (P : A → Type 0) : Outcome A → Type 0 where
  ends : {a : A} → P a → Ensures P (ok a)
  faults : Ensures P fault
  leaves : {n : ℕ} → Ensures P (exits n)
  starves : Ensures P out_of_fuel

pub Returns-Ensures :
    {A : Type 0} {P Q : A → Type 0} {r : Outcome A}
    → Returns P r
    → Ensures Q r
    → Returns (λ x. P x × Q x) r
Returns-Ensures (returns p) (ends q) = returns (p, q)

pub record Frame {Ud : Type 0} (s s' : Analyzer Ud) : Type 0 where
  pub registers : s'.registers ≡ s.registers
  pub trap_flag : s'.trap_flag ≡ s.trap_flag
  pub reg_flag : s'.reg_flag ≡ s.reg_flag

-- No trap is being handled.
pub record IsIdle {Ud : Type 0} (s : Analyzer Ud) : Type 0 where
  pub no_trap : s.trap_flag ≡ 0
  pub no_register : s.reg_flag ≡ false

pub Frame-IsIdle : {Ud : Type 0} {s s' : Analyzer Ud} → Frame s s' → IsIdle s → IsIdle s'
Frame-IsIdle h i = record {
  no_trap = h.trap_flag ∙ i.no_trap;
  no_register = h.reg_flag ∙ i.no_register;
}

module _ {Ud : Type 0} where
  abbrev pub Frames : {A : Type 0} → Cmd (Analyzer Ud) A → Type 0
  Frames m = (s : Analyzer Ud) → Ensures (λ (_, s'). Frame s s') (m s)

  pub alone :
      {s s' : Analyzer Ud}
      → s'.registers ≡ s.registers
      → s'.trap_flag ≡ s.trap_flag
      → s'.reg_flag ≡ s.reg_flag
      → Frame s s'
  alone r t g = record { registers = r; trap_flag = t; reg_flag = g }

  pub Frame-trans : {s s' s'' : Analyzer Ud} → Frame s s' → Frame s' s'' → Frame s s''
  Frame-trans h k = record {
    registers = k.registers ∙ h.registers;
    trap_flag = k.trap_flag ∙ h.trap_flag;
    reg_flag = k.reg_flag ∙ h.reg_flag;
  }

  from :
      {B : Type 0} {s s' : Analyzer Ud} {r : Outcome (B × Analyzer Ud)}
      → Frame s s'
      → Ensures (λ (_, s''). Frame s' s'') r
      → Ensures (λ (_, s''). Frame s s'') r
  from h (ends p) = ends (Frame-trans h p)
  from h faults = faults
  from h leaves = leaves
  from h starves = starves

  Ensures-bind :
      {A B : Type 0} {s : Analyzer Ud} {r : Outcome (A × Analyzer Ud)} {k : A → Cmd (Analyzer Ud) B}
      → Ensures (λ (_, s'). Frame s s') r
      → ((a : A) (s' : Analyzer Ud) → Ensures (λ (_, s''). Frame s' s'') (k a s'))
      → Ensures (λ (_, s'). Frame s s') (and_then r k)
  Ensures-bind (ends {a} p) next = from p (next a.0 a.1)
  Ensures-bind faults next = faults
  Ensures-bind leaves next = leaves
  Ensures-bind starves next = starves

  Frames-if :
      {A : Type 0} (b : Bool) (x y : Cmd (Analyzer Ud) A) (s : Analyzer Ud)
      → Ensures (λ (_, s'). Frame s s') (x s)
      → Ensures (λ (_, s'). Frame s s') (y s)
      → Ensures (λ (_, s'). Frame s s') ((if b then x else y) s)
  Frames-if true x y s left right = left
  Frames-if false x y s left right = right

  -- A command on a part of the state.
  Frames-zoom :
      {S A : Type 0} (set : S → Analyzer Ud → Analyzer Ud) (s : Analyzer Ud) (r : Outcome (A × S))
      → ((x : S) → Frame s (set x s))
      → Ensures (λ (_, s'). Frame s s') (put_back set s r)
  Frames-zoom set s (ok (a, x)) keeps = ends (keeps x)
  Frames-zoom set s fault keeps = faults
  Frames-zoom set s (exits n) keeps = leaves
  Frames-zoom set s out_of_fuel keeps = starves

  same : {A : Type 0} (a : A) (s : Analyzer Ud) → Ensures (λ (_, s'). Frame s s') (ok (a, s))
  same a s = ends (alone refl refl refl)

  bytes-Frames : {A : Type 0} (m : Cmd HashTable A) → Frames (on_bytes m)
  bytes-Frames m s =
      Frames-zoom (λ t s. record s { original_start_bytes = t }) s (m s.original_start_bytes)
        (λ t. alone refl refl refl)

  tree-Frames : {A : Type 0} (m : Cmd BoundTree A) → Frames (on_tree m)
  tree-Frames m s =
      Frames-zoom (λ b s. record s { this_bound_tree = b }) s (m s.this_bound_tree)
        (λ b. alone refl refl refl)

  sites-Frames : {A : Type 0} (m : Cmd LinkedList A) → Frames (on_start_byte_list m)
  sites-Frames m s =
      Frames-zoom (λ l s. record s { start_byte_list = l }) s (m s.start_byte_list)
        (λ l. alone refl refl refl)

  valid-Frames : {A : Type 0} (m : Cmd LinkedList A) → Frames (on_valid_address_list m)
  valid-Frames m s =
      Frames-zoom (λ l s. record s { valid_address_list = l }) s (m s.valid_address_list)
        (λ l. alone refl refl refl)

  pub queue-Frames : {A : Type 0} (m : Cmd LinkedList A) → Frames (on_address_list m)
  queue-Frames m s = there s.address_list
    where
      there :
          (o : Option LinkedList)
          → Ensures
              (λ (_, s'). Frame s s')
              (elim o [
                | none ↦ fault
                | some l ↦ put_back (λ l s. record s { address_list = some l }) s (m l)
              ])
      there none = faults
      there (some l) =
          Frames-zoom (λ l s. record s { address_list = some l }) s (m l)
            (λ l. alone refl refl refl)

module _ {Ud : Type 0} (sys : System) where
  arm-Frames : (base : ℕ) → Frames {Ud = Ud} (arm sys base)
  unfolding arm trap_setup
  arm-Frames base s = Ensures-bind (sites-Frames (list_insert base) s) (λ _ s.
      Ensures-bind
        (Ensures-bind (Frames-if (sys.mprotect (page_start base)) _ _ s (same tt s) leaves)
          (λ _ s. ends (alone refl refl refl)))
        (λ b s.
          Ensures-bind (bytes-Frames (hashtable_insert base (sys.beyond base) b) s) (λ _. same tt)))

module _ (d : Disassembler) (sys : System) where
  open d use {Ud}

  call-Frames : (v : Locals) → Frames (visit_call d sys v)
  unfolding visit_call
  call-Frames v s =
      let base = d.insn_ptr s.ud_obj in
      Frames-if (call_kind (d.insn_opr s.ud_obj).kind v).mem_flag _ _ s
        (Ensures-bind (arm-Frames sys base s) (λ _. same _))
        (Ensures-bind (queue-Frames (list_insert _) s)
          (λ _ s. Ensures-bind (valid-Frames (list_insert _) s) (λ _. same _)))

  jump-Frames : (v : Locals) → Frames (visit_jump d sys v)
  unfolding visit_jump
  jump-Frames v s =
      let base = d.insn_ptr s.ud_obj in
      let v' = jump_kind (d.insn_opr s.ud_obj).kind v in
      Frames-if (v'.mem_flag || v'.reg_flag) _ _ s
        (Ensures-bind (arm-Frames sys base s) (λ _. same _))
        (Ensures-bind (queue-Frames (list_insert _) s) (λ _. same _))

  visit-Frames : (i : Mnemonic) (v : Locals) → Frames (visit d sys i v)
  unfolding visit
  visit-Frames icall v = call-Frames v
  visit-Frames ijmp v = jump-Frames (record v { break_flag = false })
  visit-Frames iret v = same v
  visit-Frames other_mnemonic v = same v
  visit-Frames _ v = jump-Frames v

  loop-Frames : (k : ℕ) (v : Locals) → Frames (dis_loop d sys k v)
  unfolding dis_loop
  loop-Frames zero v s = starves
  loop-Frames (suc k) v s =
      let s₁ : Analyzer Ud = record s { ud_obj = (d.disassemble s.memory s.ud_obj).1 } in
      Frames-if v.break_flag _ _ s
        (from {s' = s₁} (alone refl refl refl) (
          Frames-if ((d.disassemble s.memory s.ud_obj).0 == 0) _ _ s₁ (same _ s₁) (
            Frames-if (slt s.bound_val (d.insn_ptr s₁.ud_obj)) _ _ s₁ (same _ s₁) (
              Frames-if (is_ret (d.insn_mnemonic s₁.ud_obj)) _ _ s₁ (same _ s₁)
                (Ensures-bind (visit-Frames _ _ s₁) (loop-Frames k))))))
        (same v s)

  data-Frames :
      (m : Option BoundTreeData) (lower upper : ℕ) → Frames (insert_data d sys m lower upper)
  unfolding insert_data
  data-Frames none lower upper s = faults
  data-Frames (some m) lower upper s =
      Ensures-bind (tree-Frames (direct_bound_tree_insert m lower upper) s)
        (λ _ s. ends (alone refl refl refl))

  print-Frames : (garbage buffer : ℕ) → Frames (print_dis d sys garbage buffer)
  unfolding print_dis
  print-Frames garbage buffer s =
      let s₁ : Analyzer Ud = record s { ud_obj = d.set_input_buffer buffer 100 s.ud_obj } in
      from {s' = s₁} (alone refl refl refl) (
        Ensures-bind (loop-Frames 101 _ s₁) (λ v s.
          from {s' = record s { upper_val = v.base }} (alone refl refl refl)
            (data-Frames s.tree_data s.lower_val v.base (record s { upper_val = v.base }))))

  examine-Frames :
      (garbage : ℕ) (m : Option BoundTreeData) (buffer : ℕ)
      → Frames (examine d sys garbage m buffer)
  unfolding examine
  examine-Frames garbage none buffer s = same tt s
  examine-Frames garbage (some m) buffer s =
      from {s' = record s { lower_val = buffer; bound_val = m.bound }} (alone refl refl refl)
        (print-Frames garbage buffer (record s { lower_val = buffer; bound_val = m.bound }))

  -- From any state at all, well formed or not, the loop that empties the queue changes neither the saved
  -- registers of the program nor the two flags of the handler, if it ends.
  pub drain-Frames : (garbage k : ℕ) → Frames (drain d sys garbage k)
  unfolding drain
  drain-Frames garbage zero s = starves
  drain-Frames garbage (suc k) s = Ensures-bind (queue-Frames list_pop s) (λ x s.
      Frames-if (x == 0) _ _ s (same tt s) (
        Ensures-bind (tree-Frames (find_range x) s) (λ found s.
          from {s' = record s { tree_data = found }} (alone refl refl refl) (
            Ensures-bind (examine-Frames garbage found x (record s { tree_data = found }))
              (λ _. drain-Frames garbage k)))))
