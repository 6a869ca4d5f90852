-- ===== src/Analyzer/Ready.antt =====
-- What a well-formed state of the analyser is (elf/libaddr.cc, data/trap/trap.c).
use counter_rop.Common.{
  ℕ, suc, ◌+◌, ◌≤◌, ◌≡◌, refl, Option, some, List, [], ◌++◌, ◌∷◌, ◌∙◌, arith, subst, All,
  Bool-cases, inl, inr, length, length-append, append_assoc,
}
use counter_rop.Common.Outcome.{ok}
use counter_rop.LinkedList.{LinkedList, list_insert}
use counter_rop.LinkedList.Chain.{Stores, contains}
use counter_rop.LinkedList.Queue.{enqueue, list_insert-enqueue}
use counter_rop.BoundTree.{BoundTree}
use counter_rop.BoundTree.Shape.{Shape, IsTree}
use counter_rop.HashTable.{HashTable}
use counter_rop.Analyzer.{Analyzer}
use counter_rop.Analyzer.Armed.{ArmedIn, IsSite}
use counter_rop.Analyzer.Trap.{System}

-- `shutdown` can restore the program, and table and list have memory for `n` more insertions.
pub record Recoverable (sys : System) (orig : ℕ → ℕ) (n : ℕ) (table : HashTable) (list : LinkedList)
    (memory : ℕ → ℕ) : Type 0 where
  pub originals : ℕ → Option ℕ
  pub sites : List ℕ
  pub armed : ArmedIn orig table list memory originals sites
  pub restorable : All (IsSite sys) sites
  pub table_room : n ≤ table.heap.room
  pub list_room : n ≤ list.heap.room

-- What is followed through a run: the addresses that stand at the head of the queue, the ranges, and how
-- long the queue can become.
pub record View : Type 0 where
  pub cap : ℕ
  pub ahead : List ℕ
  pub shape : Shape

-- The queue is there, begins with the addresses of the view, and has memory for `n` more insertions, with
-- which it does not become longer than the view says.
pub record Queued (w : View) (n : ℕ) (q : Option LinkedList) : Type 0 where
  pub queue : LinkedList
  pub there : q ≡ some queue
  pub later : List ℕ
  pub stores : Stores queue (w.ahead ++ later)
  pub room : n ≤ queue.heap.room
  pub bounded : length (w.ahead ++ later) + n ≤ w.cap

pub record Listed (n : ℕ) (l : LinkedList) : Type 0 where
  pub addresses : List ℕ
  pub stores : Stores l addresses
  pub room : n ≤ l.heap.room

-- The parts of the state that a well-formed state is about.
pub record Parts : Type 0 where
  pub table : HashTable
  pub list : LinkedList
  pub queue : Option LinkedList
  pub valid : LinkedList
  pub tree : BoundTree
  pub memory : ℕ → ℕ

abbrev pub parts : {Ud : Type 0} → Analyzer Ud → Parts
parts s = record {
  table = s.original_start_bytes;
  list = s.start_byte_list;
  queue = s.address_list;
  valid = s.valid_address_list;
  tree = s.this_bound_tree;
  memory = s.memory;
}

pub record ReadyParts (sys : System) (orig : ℕ → ℕ) (w : View) (n : ℕ) (p : Parts) : Type 0 where
  pub program : Recoverable sys orig n p.table p.list p.memory
  pub queue : Queued w n p.queue
  pub valid : Listed n p.valid
  pub is_tree : IsTree p.tree w.shape
  pub tree_room : n ≤ p.tree.heap.room

-- The program is recoverable, no armed address is out of the reach of `shutdown`, the lists and the tree
-- are well formed, and each structure has memory for `n` more insertions.
abbrev pub ReadyAs : {Ud : Type 0} → System → (ℕ → ℕ) → View → ℕ → Analyzer Ud → Type 0
ReadyAs sys orig w n s = ReadyParts sys orig w n (parts s)

abbrev pub Ready : {Ud : Type 0} → System → (ℕ → ℕ) → ℕ → Analyzer Ud → Type 0
Ready sys orig n s = (w : View) × ReadyAs sys orig w n s

-- What the loop of `printDis` leaves alone.
pub record Keeps {Ud : Type 0} (s s' : Analyzer Ud) : Type 0 where
  pub tree : s'.this_bound_tree ≡ s.this_bound_tree
  pub tree_data : s'.tree_data ≡ s.tree_data
  pub lower_val : s'.lower_val ≡ s.lower_val

pub Keeps-trans : {Ud : Type 0} {s s' s'' : Analyzer Ud} → Keeps s s' → Keeps s' s'' → Keeps s s''
Keeps-trans h k = record {
  tree = k.tree ∙ h.tree;
  tree_data = k.tree_data ∙ h.tree_data;
  lower_val = k.lower_val ∙ h.lower_val;
}

module _ (sys : System) (orig : ℕ → ℕ) (n m : ℕ) (less : n ≤ m) where
  pub Recoverable-weaken :
      (table : HashTable) (list : LinkedList) (memory : ℕ → ℕ)
      → Recoverable sys orig m table list memory
      → Recoverable sys orig n table list memory
  Recoverable-weaken table list memory h = record {
    originals = h.originals;
    sites = h.sites;
    armed = h.armed;
    restorable = h.restorable;
    table_room = omega (arith, h.table_room);
    list_room = omega (arith, h.list_room);
  }

pub Queued-weaken :
    (w : View) (n m : ℕ) (q : Option LinkedList) → n ≤ m → Queued w m q → Queued w n q
Queued-weaken w n m q less h = record {
  queue = h.queue;
  there = h.there;
  later = h.later;
  stores = h.stores;
  room = omega (arith, h.room);
  bounded = omega (arith, h.bounded);
}

pub Listed-weaken : (n m : ℕ) (l : LinkedList) → n ≤ m → Listed m l → Listed n l
Listed-weaken n m l less h = record {
  addresses = h.addresses;
  stores = h.stores;
  room = omega (arith, h.room);
}

pub Ready-weaken :
    (sys : System) (orig : ℕ → ℕ) (w : View) (n m : ℕ) (p : Parts)
    → n ≤ m
    → ReadyParts sys orig w m p
    → ReadyParts sys orig w n p
Ready-weaken sys orig w n m p less h = record {
  program = Recoverable-weaken sys orig n m less p.table p.list p.memory h.program;
  queue = Queued-weaken w n m p.queue less h.queue;
  valid = Listed-weaken n m p.valid less h.valid;
  is_tree = h.is_tree;
  tree_room = omega (arith, h.tree_room);
}

-- One more address at the end of the queue.
enqueue_later :
    (a : ℕ) (xs ys : List ℕ)
    → (zs : List ℕ) × (enqueue a (xs ++ ys) ≡ xs ++ zs)
      × (length (xs ++ zs) ≤ length (xs ++ ys) + 1)
enqueue_later a xs ys = elim (Bool-cases (contains a (xs ++ ys))) [
  | inl stored ↦ (ys, rw stored refl, omega arith)
  | inr absent ↦ (
    ys ++ a ∷ [],
    rw absent (append_assoc xs ys (a ∷ [])),
    omega (arith, length-append xs (ys ++ a ∷ []), length-append ys (a ∷ []), length-append xs ys),
  )
]

pub Queued-insert :
    (w : View) (n a : ℕ) (q : Option LinkedList) (h : Queued w (suc n) q)
    → (l : LinkedList) × (r : ℕ) × (list_insert a h.queue ≡ ok (r, l)) × Queued w n (some l)
Queued-insert w n a q h =
    let (l, run, stores, left) =
      list_insert-enqueue h.queue a (w.ahead ++ h.later) h.stores (omega (arith, h.room)) in
    let (later, same, longer) = enqueue_later a w.ahead h.later in
    (
      l,
      _,
      run,
      record {
        queue = l;
        there = refl;
        later = later;
        stores = subst (Stores l) same stores;
        room = omega (arith, h.room);
        bounded = omega (arith, h.bounded);
      },
    )

pub Listed-insert :
    (n a : ℕ) (l : LinkedList)
    → Listed (suc n) l
    → (l' : LinkedList) × (r : ℕ) × (list_insert a l ≡ ok (r, l')) × Listed n l'
Listed-insert n a l h =
    let (l', run, stores, left) =
      list_insert-enqueue l a h.addresses h.stores (omega (arith, h.room)) in
    (l', _, run, record { addresses = _; stores = stores; room = omega (arith, h.room) })

-- The ranges do not matter for the queue.
pub Queued-view :
    (w : View) (t : Shape) (n : ℕ) (q : Option LinkedList)
    → Queued w n q
    → Queued (record w { shape = t }) n q
Queued-view w t n q h = record {
  queue = h.queue;
  there = h.there;
  later = h.later;
  stores = h.stores;
  room = h.room;
  bounded = h.bounded;
}
