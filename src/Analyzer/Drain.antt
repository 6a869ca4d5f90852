-- ===== src/Analyzer/Drain.antt =====
-- The loop that empties the queue of addresses, in `wrapped_main` of elf/libaddr.cc and `trap_handler`
-- of data/trap/trap.c, on a well-formed state.
use counter_rop.Common.{
  [], ◌∷◌, ◌++◌, ◌-◌, ◌<◌, length, is_some, true, false, ℕ, zero, suc, ◌+◌, ◌*◌, ◌≤◌, ◌≡◌, refl,
  Option, none, some, List, arith, sym, subst, ◌==◌, if◌then◌else◌, Bool-cases, inl, inr,
}
use counter_rop.Common.Outcome.{
  IsSafe, ended, going, Returns-IsSafe, ok, Returns, returns, Returns-mono, and_then,
}
use counter_rop.LinkedList.{LinkedList, list_pop}
use counter_rop.LinkedList.Chain.{Stores}
use counter_rop.LinkedList.Queue.{list_pop-dequeue, front, dequeue}
use counter_rop.BoundTree.{BoundTreeData, find_range}
use counter_rop.Common.Word.{slt_self}
use counter_rop.BoundTree.Shape.{Shape, IsTree}
use counter_rop.BoundTree.Measure.{uncovered, uncovered-graft}
use counter_rop.BoundTree.Refine.{find_range-search, found_in, accepts}
use counter_rop.Analyzer.{Analyzer}
use counter_rop.Analyzer.Armed.{IsSite}
use counter_rop.Analyzer.Handler.{examine, drain}
use counter_rop.Analyzer.Ready.{View, Queued, Ready, ReadyAs, Ready-weaken, parts}
use counter_rop.Analyzer.Record.{Recorded, print_dis-Recorded}
use counter_rop.Analyzer.Trap.{System}
use counter_rop.Analyzer.Udis.{Disassembler}

length-dequeue : (xs : List ℕ) → length (dequeue xs) ≤ length xs
length-dequeue [] = omega arith
length-dequeue (x ∷ xs) = omega arith

-- The queue without its first address, of which nothing is known any more.
abbrev pub forgotten : View → View
forgotten w = record w { ahead = [] }

pub Queued-pop :
    (w : View) (n : ℕ) (q : Option LinkedList) (h : Queued w n q)
    → (l : LinkedList) × (list_pop h.queue ≡ ok (front (w.ahead ++ h.later), l))
      × Stores l (dequeue (w.ahead ++ h.later))
      × (n ≤ l.heap.room)
Queued-pop w n q h =
    let (l, popped, stores, left) = list_pop-dequeue h.queue (w.ahead ++ h.later) h.stores in
    (l, popped, stores, omega (arith, h.room))

pub Queued-forget :
    (w : View) (n : ℕ) (q : Option LinkedList) (h : Queued w n q) (l : LinkedList)
    → Stores l (dequeue (w.ahead ++ h.later))
    → n ≤ l.heap.room
    → Queued (forgotten w) n (some l)
Queued-forget w n q h l stores room = record {
  queue = l;
  there = refl;
  later = dequeue (w.ahead ++ h.later);
  stores = stores;
  room = room;
  bounded = omega (arith, h.bounded, length-dequeue (w.ahead ++ h.later));
}

module _ (d : Disassembler) (sys : System) (garbage : ℕ) where
  pub drain_round :
      (k x : ℕ) (s : Analyzer d.Ud) (q l : LinkedList) (found : Option BoundTreeData)
      → s.address_list ≡ some q
      → list_pop q ≡ ok (x, l)
      → find_range x s.this_bound_tree ≡ ok (found, s.this_bound_tree)
      → drain d sys garbage (suc k) s ≡ (
          if x == 0
          then ok (tt, record s { address_list = some l })
          else and_then
              (examine d sys garbage found x
                (record s { address_list = some l; tree_data = found }))
              (λ _. drain d sys garbage k))
  unfolding drain
  drain_round k x s q l found there popped search = elim (Bool-cases (x == 0)) [
    | inl last ↦ rw (there, popped, last)
    | inr more ↦ rw (there, popped, more, search)
  ]

module _ (sys : System) (orig : ℕ → ℕ) where
  -- Another queue, seen in another way.
  pub Ready-queue :
      {Ud : Type 0} (w v : View) (n : ℕ) (s : Analyzer Ud) (q : Option LinkedList)
      → w.shape ≡ v.shape
      → ReadyAs sys orig w n s
      → Queued v n q
      → ReadyAs sys orig v n (record s { address_list = q })
  Ready-queue w v n s q same h queued = record {
    program = h.program;
    queue = queued;
    valid = h.valid;
    is_tree = subst (IsTree s.this_bound_tree) same h.is_tree;
    tree_room = h.tree_room;
  }

-- What is left after an address was examined, with memory for the ranges that can still be added: no
-- range was lost, and one holds the address.
pub record Examined {Ud : Type 0} (sys : System) (orig : ℕ → ℕ) (w : View) (n u x : ℕ)
    (s' : Analyzer Ud) : Type 0 where
  pub shape : Shape
  pub u' : ℕ
  pub no_more : u' ≤ u
  pub enough : uncovered shape ≤ u'
  pub ready : ReadyAs sys orig (record w { shape = shape }) (n + 203 * u') s'
  pub held : accepts shape x ≡ false
  pub grows : (y : ℕ) → accepts w.shape y ≡ false → accepts shape y ≡ false

module _ (d : Disassembler) (sys : System) (orig : ℕ → ℕ) (w : View)
    (sites : (u : d.Ud) → IsSite sys (d.insn_ptr u)) where
  -- One address of the queue, on the state in which `data` is what `boundFind` returned for it.
  examine-Recorded :
      (garbage n x : ℕ) (s : Analyzer d.Ud) (m : BoundTreeData)
      → ReadyAs sys orig w (n + 203) s
      → find_range x s.this_bound_tree ≡ ok (some m, s.this_bound_tree)
      → Returns
          (λ (_, s').
            Recorded sys orig w n
              (record s { tree_data = some m; lower_val = x; bound_val = m.bound })
              s')
          (examine d sys garbage (some m) x (record s { tree_data = some m }))
  unfolding examine
  examine-Recorded garbage n x s m h search =
      print_dis-Recorded d sys orig w sites garbage n
        (record s { tree_data = some m; lower_val = x; bound_val = m.bound }) m h refl search

  pub examine-Ready :
      (garbage n x : ℕ) (s : Analyzer d.Ud) (found : Option BoundTreeData)
      → ReadyAs sys orig w (n + 203) s
      → find_range x s.this_bound_tree ≡ ok (found, s.this_bound_tree)
      → Returns
          (λ (_, s'). Ready sys orig n s')
          (examine d sys garbage found x (record s { tree_data = found }))
  unfolding examine
  examine-Ready garbage n x s none h search =
      returns (w, Ready-weaken sys orig w n (n + 203) (parts s) (omega arith) h)
  examine-Ready garbage n x s (some m) h search =
      Returns-mono (examine-Recorded garbage n x s m h search)
        (λ _ r. (record w { shape = r.shape }, r.ready))

  uncovered_some : (x : ℕ) → accepts w.shape x ≡ true → 0 < uncovered w.shape
  uncovered_some x free = omega (arith, uncovered-graft w.shape 0 x x free (slt_self x))

  pub examine-Examined :
      (garbage n u x : ℕ) (s : Analyzer d.Ud) (found : Option BoundTreeData)
      → ReadyAs sys orig w (n + 203 * u) s
      → uncovered w.shape ≤ u
      → find_range x s.this_bound_tree ≡ ok (found, s.this_bound_tree)
      → accepts w.shape x ≡ is_some found
      → Returns
          (λ (_, s'). Examined sys orig w n u x s')
          (examine d sys garbage found x (record s { tree_data = found }))
  unfolding examine
  examine-Examined garbage n u x s none h enough search free = returns (record {
    shape = w.shape;
    u' = u;
    no_more = omega arith;
    enough = enough;
    ready = h;
    held = free;
    grows = λ y e. e;
  })
  examine-Examined garbage n u x s (some m) h enough search free =
      let some_left = uncovered_some x free in
      Returns-mono
        (examine-Recorded garbage (n + 203 * (u - 1)) x s m
          (Ready-weaken sys orig w (n + 203 * (u - 1) + 203) (n + 203 * u) (parts s) (omega arith)
            h)
          search)
        (λ _ r. record {
          shape = r.shape;
          u' = u - 1;
          no_more = omega arith;
          enough = omega (arith, r.fewer);
          ready = r.ready;
          held = r.held;
          grows = r.grows;
        })

module _ (d : Disassembler) (sys : System) (orig : ℕ → ℕ)
    (sites : (u : d.Ud) → IsSite sys (d.insn_ptr u)) where
  -- From a well-formed state in which the program is recoverable: if each instruction that the
  -- disassembler names stands at an address below 2 ^ 56, not 0, in a page that can be made writable,
  -- and each structure has memory for 203 insertions a round, then the loop that empties the queue
  -- either ends or is still going after the rounds it was given: no read or write goes wrong and the
  -- process does not exit. When it ends the program is recoverable, and the lists and the tree are
  -- well formed.
  pub drain-Ready :
      (k n garbage : ℕ) (s : Analyzer d.Ud)
      → Ready sys orig (n + 203 * k) s
      → IsSafe (λ (_, s'). Ready sys orig n s') (drain d sys garbage k s)
  unfolding drain
  drain-Ready zero n garbage s h = going
  drain-Ready (suc k) n garbage s (w, h) =
      let (l, popped, stores, room) = Queued-pop w (n + 203 * suc k) s.address_list h.queue in
      let s₁ : Analyzer d.Ud = record s { address_list = some l } in
      let x = front (w.ahead ++ h.queue.later) in
      let found = found_in s.this_bound_tree w.shape x in
      let search = find_range-search s.this_bound_tree w.shape x h.is_tree in
      let v = forgotten w in
      let h₁ =
        Ready-queue sys orig w v (n + 203 * suc k) s (some l) refl h
          (Queued-forget w (n + 203 * suc k) s.address_list h.queue l stores room) in
      subst (IsSafe (λ (_, s'). Ready sys orig n s'))
        (sym (drain_round d sys garbage k x s h.queue.queue l found h.queue.there popped search))
        (elim (Bool-cases (x == 0)) [
          | inl last ↦
              rw last
                (ended (v, Ready-weaken sys orig v n (n + 203 * suc k) (parts s₁) (omega arith) h₁))
          | inr more ↦ rw more (
              Returns-IsSafe (Ready sys orig (n + 203 * k)) (Ready sys orig n)
                (examine-Ready d sys orig v sites garbage (n + 203 * k) x s₁ found
                  (Ready-weaken sys orig v (n + 203 * k + 203) (n + 203 * suc k) (parts s₁)
                    (omega arith) h₁)
                  search)
                (λ _ s'. drain-Ready k n garbage s'))
        ])
