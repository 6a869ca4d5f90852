-- ===== src/Analyzer/Record.antt =====
-- The end of `printDis` of elf/libaddr.cc: the range that was walked along is recorded.
use counter_rop.Common.{
  ℕ, suc, ◌+◌, ◌*◌, ◌<◌, ◌≡◌, refl, true, false, none, some, ◌∙◌, arith, sym, subst, ap,
}
use counter_rop.Common.Outcome.{ok, Returns, returns, Returns-bind, Returns-mono}
use counter_rop.BoundTree.{
  BoundTree, BoundTreeData, find_range, insert_range, direct_bound_tree_insert,
}
use counter_rop.Common.Heap.{Ptr}
use counter_rop.Common.Word.{slt, slt_self}
use counter_rop.BoundTree.Shape.{Shape, graft}
use counter_rop.BoundTree.Refine.{accepts}
use counter_rop.BoundTree.Measure.{uncovered, uncovered-graft, accepts-graft, accepts-graft_self}
use counter_rop.BoundTree.Direct.{direct_inserts}
use counter_rop.Analyzer.{Analyzer}
use counter_rop.Analyzer.Armed.{IsSite}
use counter_rop.Analyzer.PrintDis.{Locals, dis_loop, insert_data, print_dis}
use counter_rop.Analyzer.Ready.{View, ReadyAs, Ready-weaken, parts, Keeps, Queued-view}
use counter_rop.Analyzer.Steps.{unchanged, Recoverable-suc, Queued-suc, Listed-suc}
use counter_rop.Analyzer.Trap.{System}
use counter_rop.Analyzer.Udis.{Disassembler}
use counter_rop.Analyzer.Walk.{Loops, dis_loop-Ready}

-- What `printDis` leaves: a state ready for `n` more insertions, in which the tree is what
-- `boundTree_insert` makes of the old one at the range from `lowerVal`, and `data` is freed. The new range
-- holds `lowerVal`, so the addresses that no range holds are fewer.
pub record Recorded {Ud : Type 0} (sys : System) (orig : ℕ → ℕ) (w : View) (n : ℕ)
    (s s' : Analyzer Ud) : Type 0 where
  pub shape : Shape
  pub at : Ptr
  pub grafted : shape ≡ graft w.shape at s.lower_val s'.upper_val
  pub full : slt s'.upper_val s.lower_val ≡ false
  pub ready : ReadyAs sys orig (record w { shape = shape }) n s'
  pub recorded :
      insert_range s.lower_val s'.upper_val s.this_bound_tree ≡ ok (true, s'.this_bound_tree)
  pub freed : s'.tree_data ≡ none
  pub held : accepts shape s.lower_val ≡ false
  pub grows : (x : ℕ) → accepts w.shape x ≡ false → accepts shape x ≡ false
  pub fewer : uncovered shape < uncovered w.shape

module _ (d : Disassembler) (sys : System) (orig : ℕ → ℕ) (w : View)
    (sites : (u : d.Ud) → IsSite sys (d.insn_ptr u)) where
  insert_data_runs :
      (s : Analyzer d.Ud) (m : BoundTreeData) (lo hi : ℕ) (b : BoundTree)
      → direct_bound_tree_insert m lo hi s.this_bound_tree ≡ ok (tt, b)
      → insert_data d sys (some m) lo hi s
        ≡ ok (tt, record s { this_bound_tree = b; tree_data = none })
  unfolding insert_data
  insert_data_runs s m lo hi b run = rw run refl

  insert_data-Recorded :
      (n : ℕ) (s : Analyzer d.Ud) (m : BoundTreeData)
      → ReadyAs sys orig w (suc n) s
      → s.tree_data ≡ some m
      → find_range s.lower_val s.this_bound_tree ≡ ok (some m, s.this_bound_tree)
      → slt s.upper_val s.lower_val ≡ false
      → Returns
          (λ (_, s'). Recorded sys orig w n s s')
          (insert_data d sys s.tree_data s.lower_val s.upper_val s)
  insert_data-Recorded n s m h known found full =
      let (b, run, same, is, left, free) =
        direct_inserts s.this_bound_tree w.shape m s.lower_val s.upper_val h.is_tree
          (omega (arith, h.tree_room)) found in
      let fresh = s.this_bound_tree.heap.fresh in
      subst (Returns (λ (_, s'). Recorded sys orig w n s s'))
        (sym (
          ap (λ o. insert_data d sys o s.lower_val s.upper_val s) known
          ∙ insert_data_runs s m s.lower_val s.upper_val b run))
        (returns (record {
          shape = graft w.shape fresh s.lower_val s.upper_val;
          at = fresh;
          grafted = refl;
          full = full;
          ready = record {
            program = Recoverable-suc sys orig w n s h;
            queue = Queued-view w _ n s.address_list (Queued-suc w n s.address_list h.queue);
            valid = Listed-suc n s.valid_address_list h.valid;
            is_tree = is;
            tree_room = omega (arith, h.tree_room);
          };
          recorded = same;
          freed = refl;
          held = accepts-graft_self w.shape fresh s.lower_val s.upper_val full;
          grows = accepts-graft w.shape fresh s.lower_val s.upper_val;
          fewer = uncovered-graft w.shape fresh s.lower_val s.upper_val free full;
        }))

  Recorded-from :
      (n : ℕ) (s s' s'' : Analyzer d.Ud)
      → Keeps s s'
      → Recorded sys orig w n s' s''
      → Recorded sys orig w n s s''
  Recorded-from n s s' s'' keeps h = record {
    shape = h.shape;
    at = h.at;
    grafted = rw (sym keeps.lower_val) h.grafted;
    full = rw (sym keeps.lower_val) h.full;
    ready = h.ready;
    recorded = rw (sym keeps.lower_val, sym keeps.tree) h.recorded;
    freed = h.freed;
    held = rw (sym keeps.lower_val) h.held;
    grows = h.grows;
    fewer = h.fewer;
  }

  -- The locals and the state with which the loop begins.
  abbrev at_start : ℕ → ℕ → Locals
  at_start garbage buffer = record {
    base = buffer;
    prev_base = 0;
    offset = garbage;
    break_flag = true;
    mem_flag = false;
    reg_flag = false;
  }

  abbrev pointed : Analyzer d.Ud → Analyzer d.Ud
  pointed s = record s { ud_obj = d.set_input_buffer s.lower_val 100 s.ud_obj }

  walk_runs :
      (garbage n : ℕ) (s : Analyzer d.Ud)
      → ReadyAs sys orig w (n + 203) s
      → Returns
          (Loops d sys orig w sites (suc n) s.lower_val (pointed s))
          (dis_loop d sys 101 (at_start garbage s.lower_val) (pointed s))
  walk_runs garbage n s h =
      let v = at_start garbage s.lower_val in
      let start : d.buffer (pointed s).ud_obj ≡ s.lower_val =
        d.buffer-set s.lower_val 100 s.ud_obj in
      subst
        (λ b.
          Returns (Loops d sys orig w sites (suc n) b (pointed s))
            (dis_loop d sys 101 v (pointed s)))
        start
        (dis_loop-Ready d sys orig w sites 101 (suc n) v (pointed s)
          (Ready-weaken sys orig w (suc n + 2 * 101) (n + 203) (parts s) (omega arith) h)
          (omega (arith, d.remaining-set s.lower_val 100 s.ud_obj))
          (ap (slt s.lower_val) start ∙ slt_self s.lower_val))

  -- From a well-formed state in which the program is recoverable: if each instruction that the
  -- disassembler names stands at an address below 2 ^ 56, not 0, in a page that can be made writable,
  -- and each structure has memory for 203 insertions more than `n`, then `printDis` at `lowerVal`, where
  -- `data` is what `boundFind` returned for it, ends: no read or write goes wrong, the process does not
  -- exit, and 101 rounds of its loop are enough. The program stays recoverable, the lists and the tree
  -- stay well formed with memory for `n` insertions, the tree is what `boundTree_insert` makes of the old
  -- one at the range from `lowerVal` to `upperVal`, this range holds `lowerVal`, which no range held
  -- before, and `data` is freed.
  pub print_dis-Recorded :
      (garbage n : ℕ) (s : Analyzer d.Ud) (m : BoundTreeData)
      → ReadyAs sys orig w (n + 203) s
      → s.tree_data ≡ some m
      → find_range s.lower_val s.this_bound_tree ≡ ok (some m, s.this_bound_tree)
      → Returns (λ (_, s'). Recorded sys orig w n s s') (print_dis d sys garbage s.lower_val s)
  unfolding print_dis
  print_dis-Recorded garbage n s m h known found = Returns-bind (walk_runs garbage n s h) (λ v s₂ p.
      let s₃ : Analyzer d.Ud = record s₂ { upper_val = v.base } in
      Returns-mono
        (insert_data-Recorded n s₃ m p.0 (p.1.tree_data ∙ known)
          (rw (p.1.lower_val, p.1.tree) found) (ap (slt v.base) p.1.lower_val ∙ p.2))
        (λ q r. Recorded-from n s s₃ q.1 (unchanged p.1.tree p.1.tree_data p.1.lower_val) r))
