-- ===== src/Analyzer/Finds.antt =====
-- What `printDis` of elf/libaddr.cc finds from an address on.
use counter_rop.Common.{ℕ, ◌+◌, ◌≡◌, refl, true, false, Option, none, some, arith}
use counter_rop.Common.Outcome.{
  Outcome, ok, fault, exits, out_of_fuel, Cmd, Returns, returns, and_then, put_back, modify,
}
use counter_rop.BoundTree.{BoundTree, BoundTreeData, find_range, direct_bound_tree_insert}
use counter_rop.Analyzer.{Analyzer}
use counter_rop.Analyzer.Armed.{IsSite}
use counter_rop.Analyzer.Effect.{Discovered, Holds, Holds-ud, Holds-weaken}
use counter_rop.Analyzer.PrintDis.{Locals, insert_data, print_dis}
use counter_rop.Analyzer.Ready.{View, ReadyAs}
use counter_rop.Analyzer.Record.{print_dis-Recorded}
use counter_rop.Analyzer.Follow.{Follows, dis_loop-survey}
use counter_rop.Analyzer.Survey.{Surveyed, survey}
use counter_rop.Analyzer.Trap.{System}
use counter_rop.Analyzer.Udis.{Disassembler}

-- A run that ends well ends well from its first part on.
Returns-through :
    {S A B : Type 0} {P : A × S → Type 0} {Q R : B × S → Type 0} {r : Outcome (A × S)}
    {k : A → Cmd S B}
    → Returns P r
    → Returns Q (and_then r k)
    → ((a : A) (s : S) → P (a, s) → Returns Q (k a s) → Returns R (k a s))
    → Returns R (and_then r k)
Returns-through (returns {a} p) q next = next a.0 a.1 p q

-- What two proofs say of the same run.
pub Returns-both :
    {R : Type 0} {P Q : R → Type 0} {r : Outcome R}
    → Returns P r
    → Returns Q r
    → Returns (λ x. P x × Q x) r
Returns-both (returns p) (returns q) = returns (p, q)

-- Neither the tree nor the variables of the walk matter.
Holds-rest :
    {Ud : Type 0} (orig : ℕ → ℕ) (n : ℕ) (a : Discovered) (s : Analyzer Ud) (upper : ℕ)
    (b : BoundTree) (m : Option BoundTreeData)
    → Holds orig a n s
    → Holds orig a n (record s { upper_val = upper; this_bound_tree = b; tree_data = m })
Holds-rest orig n a s upper b m h = record {
  list = h.list;
  there = h.there;
  queue = h.queue;
  valid = h.valid;
  armed = h.armed;
  queue_room = h.queue_room;
  valid_room = h.valid_room;
  list_room = h.list_room;
  table_room = h.table_room;
}

module _ (d : Disassembler) (sys : System) (orig : ℕ → ℕ) where
  -- The state behind the walk is the one that the survey tells of.
  pub record Matches (n : ℕ) (r : Surveyed d) (s : Analyzer d.Ud) : Type 0 where
    pub holds : Holds orig r.found n s
    pub memory_is : s.memory ≡ r.memory
    pub ud_is : s.ud_obj ≡ r.ud
    pub upper_is : s.upper_val ≡ r.last

module _ (d : Disassembler) (sys : System) (orig : ℕ → ℕ)
    (sites : (u : d.Ud) → IsSite sys (d.insn_ptr u)) where
  put-Matches :
      {Q : Unit {0} × Analyzer d.Ud → Type 0} (n : ℕ) (v : Locals) (a : Surveyed d)
      (s : Analyzer d.Ud) (r : Outcome (Unit {0} × BoundTree))
      → Follows d sys orig sites n a v s
      → Returns Q (
          and_then
            (put_back (λ b s. record s { this_bound_tree = b }) (record s { upper_val = v.base }) r)
            (λ _. modify (λ s. record s { tree_data = none })))
      → Returns
          (λ (_, s'). Matches d sys orig n a s')
          (and_then
            (put_back (λ b s. record s { this_bound_tree = b }) (record s { upper_val = v.base }) r)
            (λ _. modify (λ s. record s { tree_data = none })))
  put-Matches n v a s (ok (_, b)) h (returns q) = returns (record {
    holds = Holds-rest orig n a.found s v.base b none h.holds;
    memory_is = h.memory_is;
    ud_is = h.ud_is;
    upper_is = h.base_is;
  })
  put-Matches n v a s fault h q = elim q [ ]
  put-Matches n v a s (exits _) h q = elim q [ ]
  put-Matches n v a s out_of_fuel h q = elim q [ ]

  insert_data-Matches :
      {Q : Unit {0} × Analyzer d.Ud → Type 0} (n lower : ℕ) (v : Locals) (a : Surveyed d)
      (s : Analyzer d.Ud) (found : Option BoundTreeData)
      → Follows d sys orig sites n a v s
      → Returns Q (insert_data d sys found lower v.base (record s { upper_val = v.base }))
      → Returns
          (λ (_, s'). Matches d sys orig n a s')
          (insert_data d sys found lower v.base (record s { upper_val = v.base }))
  unfolding insert_data
  insert_data-Matches n lower v a s none h q = elim q [ ]
  insert_data-Matches n lower v a s (some m) h q =
      put-Matches n v a s (direct_bound_tree_insert m lower v.base s.this_bound_tree) h q

module _ (d : Disassembler) (sys : System) (orig : ℕ → ℕ) (w : View)
    (sites : (u : d.Ud) → IsSite sys (d.insn_ptr u)) where
  -- From a well-formed state in which the program is recoverable, with memory for 203 insertions more than
  -- `n`: if each instruction that the disassembler names stands at an address below 2 ^ 56, not 0, in a
  -- page that can be made writable, then `printDis` at `lowerVal`, where `data` is what `boundFind`
  -- returned for it, ends, and the queue, the list of valid addresses, the list of sites and the table
  -- of their bytes hold afterwards what they held before and what the survey of the 100 bytes from
  -- `lowerVal` on finds up to the bound: each call through memory and each jump through memory or a
  -- register is a site, and every other call or jump has its target on the queue. Memory and the
  -- disassembler are what the survey leaves, and `upperVal` is the last instruction that it looked at.
  pub print_dis-survey :
      (garbage n : ℕ) (a : Discovered) (s : Analyzer d.Ud) (m : BoundTreeData)
      → ReadyAs sys orig w (n + 203) s
      → s.tree_data ≡ some m
      → find_range s.lower_val s.this_bound_tree ≡ ok (some m, s.this_bound_tree)
      → Holds orig a (n + 203) s
      → Returns
          (λ (_, s').
            Matches d sys orig n
              (survey d 101 s.bound_val s.memory
                (d.set_input_buffer s.lower_val 100 s.ud_obj)
                garbage
                true
                s.lower_val
                a)
              s')
          (print_dis d sys garbage s.lower_val s)
  unfolding print_dis
  print_dis-survey garbage n a s m ready known found h =
      let u = d.set_input_buffer s.lower_val 100 s.ud_obj in
      let v : Locals = record {
        base = s.lower_val;
        prev_base = 0;
        offset = garbage;
        break_flag = true;
        mem_flag = false;
        reg_flag = false;
      } in
      Returns-through
        (dis_loop-survey d sys orig sites 101 n v a (record s { ud_obj = u }) (refl, refl)
          (omega (arith, d.remaining-set s.lower_val 100 s.ud_obj))
          (Holds-ud orig (n + 202) a s u
            (Holds-weaken orig (n + 202) (n + 203) a s (omega arith) h)))
        (print_dis-Recorded d sys orig w sites garbage n s m ready known found)
        (λ v' s' held q.
          insert_data-Matches d sys orig sites n s'.lower_val v' _ s' s'.tree_data held q)
