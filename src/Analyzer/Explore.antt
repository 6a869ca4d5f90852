-- ===== src/Analyzer/Explore.antt =====
-- The loop that empties the queue, in `wrapped_main` of elf/libaddr.cc and `trap_handler` of
-- data/trap/trap.c, on a state in memory: it does what the loop without lists, tables and trees does.
use counter_rop.Common.{
  ℕ, ◌+◌, ◌<◌, ◌≤◌, ◌≡◌, refl, Bool, true, false, Option, some, [], arith, sym, subst, ◌∙◌, All,
  length,
}
use counter_rop.Common.Heap.{Ptr}
use counter_rop.Common.Word.{add64, sub64, slt}
use counter_rop.LinkedList.{LinkedList}
use counter_rop.LinkedList.Chain.{Stores}
use counter_rop.LinkedList.Queue.{dequeue}
use counter_rop.BoundTree.{BoundTree, BoundTreeData, no_bound}
use counter_rop.BoundTree.Measure.{uncovered}
use counter_rop.BoundTree.Refine.{found_in}
use counter_rop.BoundTree.Shape.{Shape, leaf, node, IsTree, graft}
use counter_rop.BoundTree.Walk.{search}
use counter_rop.Analyzer.{Analyzer}
use counter_rop.Analyzer.Armed.{IsSite}
use counter_rop.Analyzer.Effect.{Holds}
use counter_rop.Analyzer.Finds.{Matches}
use counter_rop.Analyzer.Ready.{View, ReadyAs}
use counter_rop.Analyzer.Record.{Recorded}
use counter_rop.Analyzer.Rule.{survey-IsSite}
use counter_rop.Analyzer.Survey.{survey}
use counter_rop.Analyzer.Trap.{System}
use counter_rop.Analyzer.Udis.{Disassembler}
use counter_rop.Analyzer.Worklist.{World, bound_on, bound_at, next_address, popped, walk, walked}

search-bound_on :
    (t : Shape) (prev : Ptr) (left : Bool) (bound x : ℕ) (m : BoundTreeData)
    → search t prev left bound x ≡ some m
    → m.bound ≡ bound_on t bound x
search-bound_on leaf prev left bound x m e = ground arith
search-bound_on (node p lo hi l r) prev left bound x m e = ground (
  arith,
  search-bound_on l p true (sub64 lo 1) x m,
  search-bound_on r p false (add64 x no_bound) x m,
)

pub found_in-bound_at :
    (b : BoundTree) (t : Shape) (x : ℕ) (m : BoundTreeData)
    → found_in b t x ≡ some m
    → m.bound ≡ bound_at t x
found_in-bound_at b leaf x m e = ground arith
found_in-bound_at b (node p lo hi l r) x m e = search-bound_on (node p lo hi l r) p false 0 x m e

-- The state holds what the loop has found so far, `shutdown` can restore each site, and each structure has
-- memory for `n` more insertions.
pub record Explored (d : Disassembler) (sys : System) (orig : ℕ → ℕ) (n : ℕ) (a : World d)
    (s : Analyzer d.Ud) : Type 0 where
  pub holds : Holds orig a.found n s
  pub memory_is : s.memory ≡ a.memory
  pub ud_is : s.ud_obj ≡ a.ud
  pub restorable : All (IsSite sys) a.found.sites
  pub is_tree : IsTree s.this_bound_tree a.shape
  pub tree_room : n ≤ s.this_bound_tree.heap.room

module _ (d : Disassembler) (sys : System) (orig : ℕ → ℕ) where
  abbrev pub view_of : ℕ → World d → View
  view_of n a = record { cap = length a.found.queue + n; ahead = []; shape = a.shape }

  unfoldable pub Explored-Ready :
      (n : ℕ) (a : World d) (s : Analyzer d.Ud)
      → Explored d sys orig n a s
      → ReadyAs sys orig (view_of n a) n s
  Explored-Ready n a s h = record {
    program = record {
      originals = a.found.originals;
      sites = a.found.sites;
      armed = h.holds.armed;
      restorable = h.restorable;
      table_room = h.holds.table_room;
      list_room = h.holds.list_room;
    };
    queue = record {
      queue = h.holds.list;
      there = h.holds.there;
      later = a.found.queue;
      stores = h.holds.queue;
      room = h.holds.queue_room;
      bounded = omega arith;
    };
    valid = record { addresses = a.found.valid; stores = h.holds.valid; room = h.holds.valid_room };
    is_tree = h.is_tree;
    tree_room = h.tree_room;
  }

module _ (d : Disassembler) (sys : System) (orig : ℕ → ℕ) (garbage : ℕ)
    (sites : (u : d.Ud) → IsSite sys (d.insn_ptr u)) where
  pub Explored-popped :
      (n : ℕ) (a : World d) (s : Analyzer d.Ud) (l : LinkedList) (found : Option BoundTreeData)
      (lower bound : ℕ)
      → Explored d sys orig n a s
      → Stores l (dequeue a.found.queue)
      → n ≤ l.heap.room
      → Explored d sys orig n (popped d garbage a) (record s {
        address_list = some l;
        tree_data = found;
        lower_val = lower;
        bound_val = bound;
      })
  Explored-popped n a s l found lower bound h stores room = record {
    holds = record {
      list = l;
      there = refl;
      queue = stores;
      valid = h.holds.valid;
      armed = h.holds.armed;
      queue_room = room;
      valid_room = h.holds.valid_room;
      list_room = h.holds.list_room;
      table_room = h.holds.table_room;
    };
    memory_is = h.memory_is;
    ud_is = h.ud_is;
    restorable = h.restorable;
    is_tree = h.is_tree;
    tree_room = h.tree_room;
  }

  -- The survey that `printDis` follows is the walk of the loop without structures in memory.
  pub walk-same :
      (a : World d) (s : Analyzer d.Ud) (m : BoundTreeData)
      → s.memory ≡ a.memory
      → s.ud_obj ≡ a.ud
      → m.bound ≡ bound_at a.shape (next_address d garbage a)
      → (let x = next_address d garbage a in
          survey d 101 m.bound s.memory
            (d.set_input_buffer x 100 s.ud_obj)
            garbage
            true
            x
            (popped d garbage a).found
          ≡ walk d garbage a)
  walk-same a s m e₁ e₂ e₃ =
      let x = next_address d garbage a in
      λ i.
        survey d 101 (e₃ i) (e₁ i) (d.set_input_buffer x 100 (e₂ i)) garbage true x
          (popped d garbage a).found

  -- A walk, with what it leaves.
  pub record Walks (n : ℕ) (a : World d) (s : Analyzer d.Ud) : Type 0 where
    pub at : Ptr
    pub explored : Explored d sys orig n (walked d garbage at a) s
    pub full : slt (walk d garbage a).last (next_address d garbage a) ≡ false
    pub fewer : uncovered (walked d garbage at a).shape < uncovered a.shape

  pub Walks-from :
      (n : ℕ) (a : World d) (s s' : Analyzer d.Ud) (w : View)
      → w.shape ≡ a.shape
      → s.lower_val ≡ next_address d garbage a
      → All (IsSite sys) a.found.sites
      → Recorded sys orig w n s s'
      → Matches d sys orig n (walk d garbage a) s'
      → Walks n a s'
  Walks-from n a s s' w shape lower restorable r m =
      let x = next_address d garbage a in
      let same : r.shape ≡ (walked d garbage r.at a).shape =
        r.grafted ∙ (λ i. graft (shape i) r.at (lower i) (m.upper_is i)) in
      record {
        at = r.at;
        explored = record {
          holds = m.holds;
          memory_is = m.memory_is;
          ud_is = m.ud_is;
          restorable =
              survey-IsSite d 101 (bound_at a.shape x) a.memory (d.set_input_buffer x 100 a.ud)
                garbage true x (popped d garbage a).found sys sites restorable;
          is_tree = subst (IsTree s'.this_bound_tree) same r.ready.is_tree;
          tree_room = r.ready.tree_room;
        };
        full = (λ i. slt (sym m.upper_is i) (sym lower i)) ∙ r.full;
        fewer =
            subst (λ t. uncovered (walked d garbage r.at a).shape < uncovered t) shape
              (subst (λ t. uncovered t < uncovered w.shape) same r.fewer);
      }
