-- ===== src/Analyzer/Steps.antt =====
-- Setting a trap and inserting into the lists keep a state of the analyser well formed (elf/libaddr.cc,
-- data/trap/trap.c).
use counter_rop.Common.{
  ℕ, suc, ◌≡◌, refl, Option, some, List, [], ◌++◌, ◌∷◌, arith, sym, subst, All, Bool-cases, inl,
  inr,
}
use counter_rop.Common.Outcome.{ok, Cmd, Returns, returns}
use counter_rop.LinkedList.{LinkedList, list_insert}
use counter_rop.LinkedList.Chain.{contains}
use counter_rop.LinkedList.Queue.{enqueue}
use counter_rop.Analyzer.{Analyzer, on_address_list, on_valid_address_list}
use counter_rop.Analyzer.Armed.{IsSite, arm_outcome}
use counter_rop.Analyzer.PrintDis.{arm}
use counter_rop.Analyzer.Trap.{System}
use counter_rop.Analyzer.Ready.{
  Keeps, Listed, Listed-insert, Listed-weaken, Queued, Queued-insert, Queued-weaken, ReadyAs,
  Recoverable, Recoverable-weaken, View,
}

All-snoc : (P : ℕ → Type 0) (a : ℕ) (xs : List ℕ) → P a → All P xs → All P (xs ++ a ∷ [])
All-snoc P a [] p h = (p, tt)
All-snoc P a (x ∷ xs) p h = (h.0, All-snoc P a xs p h.1)

All-enqueue : (P : ℕ → Type 0) (a : ℕ) (xs : List ℕ) → P a → All P xs → All P (enqueue a xs)
All-enqueue P a xs p h = elim (Bool-cases (contains a xs)) [
  | inl stored ↦ rw stored h
  | inr absent ↦ rw absent (All-snoc P a xs p h)
]

-- The parts that a run does not touch.
pub Queued-suc : (w : View) (n : ℕ) (q : Option LinkedList) → Queued w (suc n) q → Queued w n q
Queued-suc w n q h = Queued-weaken w n (suc n) q (omega arith) h

pub Listed-suc : (n : ℕ) (l : LinkedList) → Listed (suc n) l → Listed n l
Listed-suc n l h = Listed-weaken n (suc n) l (omega arith) h

pub unchanged :
    {Ud : Type 0} {s s' : Analyzer Ud}
    → s'.this_bound_tree ≡ s.this_bound_tree
    → s'.tree_data ≡ s.tree_data
    → s'.lower_val ≡ s.lower_val
    → Keeps s s'
unchanged tree found lower = record { tree = tree; tree_data = found; lower_val = lower }

module _ {Ud : Type 0} (sys : System) (orig : ℕ → ℕ) (w : View) where
  -- A run that keeps all but the lists, the table and the program, and leaves a state ready for `n` more
  -- insertions.
  abbrev pub Stays : {A : Type 0} → ℕ → Analyzer Ud → A × Analyzer Ud → Type 0
  Stays n s (_, s') = ReadyAs sys orig w n s' × Keeps s s' × (s'.ud_obj ≡ s.ud_obj)

  pub arm-Ready :
      (n base : ℕ) (s : Analyzer Ud)
      → IsSite sys base
      → ReadyAs sys orig w (suc n) s
      → Returns (Stays n s) (arm sys base s)
  arm-Ready n base s site h =
      let (l, t, run, armed, list_left, table_left) =
        arm_outcome sys orig s h.program.originals h.program.sites base h.program.armed site.1
          site.2 (omega (arith, h.program.list_room)) (omega (arith, h.program.table_room)) in
      subst (Returns (Stays n s)) (sym run) (
        returns (
          record {
            program = record {
              originals = _;
              sites = _;
              armed = armed;
              restorable = All-enqueue (IsSite sys) base h.program.sites site h.program.restorable;
              table_room = omega (arith, h.program.table_room);
              list_room = omega (arith, h.program.list_room);
            };
            queue = Queued-suc w n s.address_list h.queue;
            valid = Listed-suc n s.valid_address_list h.valid;
            is_tree = h.is_tree;
            tree_room = omega (arith, h.tree_room);
          },
          unchanged refl refl refl,
          refl,
        ))

  pub Recoverable-suc :
      (n : ℕ) (s : Analyzer Ud)
      → ReadyAs sys orig w (suc n) s
      → Recoverable sys orig n s.original_start_bytes s.start_byte_list s.memory
  Recoverable-suc n s h =
      Recoverable-weaken sys orig n (suc n) (omega arith) s.original_start_bytes s.start_byte_list
        s.memory h.program

  pub on_queue :
      {A : Type 0} (m : Cmd LinkedList A) (s : Analyzer Ud) (l l' : LinkedList) (r : A)
      → s.address_list ≡ some l
      → m l ≡ ok (r, l')
      → on_address_list m s ≡ ok (r, record s { address_list = some l' })
  on_queue m s l l' r there run = rw (there, run) refl

  pub queue-Ready :
      (n a : ℕ) (s : Analyzer Ud)
      → ReadyAs sys orig w (suc n) s
      → Returns (Stays n s) (on_address_list (list_insert a) s)
  queue-Ready n a s h =
      let (l, r, run, queued) = Queued-insert w n a s.address_list h.queue in
      subst (Returns (Stays n s))
        (sym (on_queue (list_insert a) s h.queue.queue l r h.queue.there run))
        (returns (
          record {
            program = Recoverable-suc n s h;
            queue = queued;
            valid = Listed-suc n s.valid_address_list h.valid;
            is_tree = h.is_tree;
            tree_room = omega (arith, h.tree_room);
          },
          unchanged refl refl refl,
          refl,
        ))

  pub on_valid :
      {A : Type 0} (m : Cmd LinkedList A) (s : Analyzer Ud) (l : LinkedList) (r : A)
      → m s.valid_address_list ≡ ok (r, l)
      → on_valid_address_list m s ≡ ok (r, record s { valid_address_list = l })
  on_valid m s l r run = rw run refl

  pub valid-Ready :
      (n a : ℕ) (s : Analyzer Ud)
      → ReadyAs sys orig w (suc n) s
      → Returns (Stays n s) (on_valid_address_list (list_insert a) s)
  valid-Ready n a s h =
      let (l, r, run, listed) = Listed-insert n a s.valid_address_list h.valid in
      subst (Returns (Stays n s)) (sym (on_valid (list_insert a) s l r run)) (
        returns (
          record {
            program = Recoverable-suc n s h;
            queue = Queued-suc w n s.address_list h.queue;
            valid = listed;
            is_tree = h.is_tree;
            tree_room = omega (arith, h.tree_room);
          },
          unchanged refl refl refl,
          refl,
        ))
