-- ===== src/Analyzer/Ends.antt =====
-- The loop that empties the queue, in `wrapped_main` of elf/libaddr.cc and `trap_handler` of
-- data/trap/trap.c, ends: each address that it examines is in a range afterwards, so the addresses that
-- no range holds become fewer.
use counter_rop.Common.{
  ℕ, zero, suc, ◌+◌, ◌-◌, ◌*◌, ◌<◌, ◌≤◌, ◌≡◌, ◌≢◌, refl, false, Option, some, List, [], ◌∷◌, ◌++◌,
  arith, sym, subst, All, length, Bool-cases, inl, inr, ◌==◌, ==→ne, ==→eq,
}
use counter_rop.Common.Outcome.{Returns, returns, Returns-bind, Returns-mono}
use counter_rop.LinkedList.{LinkedList, list_insert}
use counter_rop.LinkedList.Chain.{Stores}
use counter_rop.LinkedList.Queue.{front, dequeue, list_insert-enqueue}
use counter_rop.BoundTree.Shape.{Shape}
use counter_rop.BoundTree.Measure.{uncovered}
use counter_rop.BoundTree.Refine.{find_range-search, found_in, accepts}
use counter_rop.BoundTree.Bounds.{found_in-accepts}
use counter_rop.Analyzer.{Analyzer, on_address_list}
use counter_rop.Analyzer.Armed.{IsSite}
use counter_rop.Analyzer.Drain.{
  forgotten, Queued-pop, Queued-forget, Ready-queue, Examined, examine-Examined, drain_round,
}
use counter_rop.Analyzer.Handler.{drain}
use counter_rop.Analyzer.Ready.{View, Queued, ReadyAs, Ready-weaken, parts}
use counter_rop.Analyzer.Steps.{Listed-suc, Recoverable-suc, on_queue}
use counter_rop.Analyzer.Trap.{System}
use counter_rop.Analyzer.Udis.{Disassembler}

-- The view without the address that was popped.
abbrev pub next_view : View → View
next_view w = record w { cap = w.cap - 1; ahead = dequeue w.ahead }

Queued-next :
    (w : View) (n : ℕ) (q : Option LinkedList) (h : Queued w n q) (l : LinkedList)
    → Stores l (dequeue (w.ahead ++ h.later))
    → n ≤ l.heap.room
    → front (w.ahead ++ h.later) ≢ 0
    → Queued (next_view w) n (some l)
Queued-next w n q h l stores room ne =
    let (later, same, shorter) = split w.ahead h.later ne in
    record {
      queue = l;
      there = refl;
      later = later;
      stores = subst (Stores l) same stores;
      room = room;
      bounded = omega (arith, h.bounded);
    }
  where
    split :
        (xs ys : List ℕ)
        → front (xs ++ ys) ≢ 0
        → (zs : List ℕ) × (dequeue (xs ++ ys) ≡ dequeue xs ++ zs)
          × (length (dequeue xs ++ zs) + 1 ≡ length (xs ++ ys))
    split [] [] ne = absurd (ne refl)
    split [] (y ∷ ys) ne = (ys, refl, omega arith)
    split (x ∷ xs) ys ne = (ys, refl, omega arith)

front_some : (xs : List ℕ) → front xs ≢ 0 → 0 < length xs
front_some [] ne = absurd (ne refl)
front_some (x ∷ xs) ne = omega arith

-- The loop stops at a 0 only after the addresses of the view.
none_ahead :
    (P : ℕ → Type 0) (xs ys : List ℕ) → All (λ x. x ≢ 0) xs → front (xs ++ ys) ≡ 0 → All P xs
none_ahead P [] ys h e = tt
none_ahead P (x ∷ xs) ys h e = absurd (h.0 e)

-- What the loop leaves: each address of the view is in a range, and no range was lost.
pub record Drained {Ud : Type 0} (sys : System) (orig : ℕ → ℕ) (w : View) (n : ℕ) (s' : Analyzer Ud)
    : Type 0 where
  pub cap : ℕ
  pub shape : Shape
  pub ready : ReadyAs sys orig (record { cap = cap; ahead = []; shape = shape }) n s'
  pub held : All (λ x. accepts shape x ≡ false) w.ahead
  pub grows : (x : ℕ) → accepts w.shape x ≡ false → accepts shape x ≡ false

All-front : (P : ℕ → Type 0) (xs ys : List ℕ) → P (front (xs ++ ys)) → All P (dequeue xs) → All P xs
All-front P [] ys p h = tt
All-front P (x ∷ xs) ys p h = (p, h)

All-dequeue : (P : ℕ → Type 0) (xs : List ℕ) → All P xs → All P (dequeue xs)
All-dequeue P [] h = tt
All-dequeue P (x ∷ xs) h = h.1

module _ (d : Disassembler) (sys : System) (orig : ℕ → ℕ)
    (sites : (u : d.Ud) → IsSite sys (d.insn_ptr u)) where
  Drained-from :
      (w : View) (n u x : ℕ) (later : List ℕ) (s s' : Analyzer d.Ud)
      → x ≡ front (w.ahead ++ later)
      → (e : Examined sys orig (next_view w) n u x s)
      → Drained sys orig (record (next_view w) { shape = e.shape }) n s'
      → Drained sys orig w n s'
  Drained-from w n u x later s s' first e h = record {
    cap = h.cap;
    shape = h.shape;
    ready = h.ready;
    held =
        All-front (λ y. accepts h.shape y ≡ false) w.ahead later
          (subst (λ y. accepts h.shape y ≡ false) first (h.grows x e.held)) h.held;
    grows = λ y held. h.grows y (e.grows y held);
  }

  -- From a well-formed state in which the program is recoverable: if each instruction that the
  -- disassembler names stands at an address below 2 ^ 56, not 0, in a page that can be made writable,
  -- if each structure has memory for 203 insertions for each address that no range holds, and if more
  -- rounds are given than the queue can become long, then the loop that empties the queue ends: no read
  -- or write goes wrong and the process does not exit. Afterwards a range holds each address that stood
  -- in the queue, if none of them is 0, and each address that a range held before; the program is
  -- recoverable, and the lists and the tree are well formed.
  pub drain-Drained :
      (k n u garbage : ℕ) (w : View) (s : Analyzer d.Ud)
      → ReadyAs sys orig w (n + 203 * u) s
      → uncovered w.shape ≤ u
      → w.cap < k + n
      → All (λ x. x ≢ 0) w.ahead
      → Returns (λ (_, s'). Drained sys orig w n s') (drain d sys garbage k s)
  unfolding drain
  drain-Drained zero n u garbage w s h enough fuel filled = absurd (omega (arith, h.queue.bounded))
  drain-Drained (suc k) n u garbage w s h enough fuel filled =
      let room = n + 203 * u in
      let (l, popped, stores, left) = Queued-pop w room s.address_list h.queue in
      let s₁ : Analyzer d.Ud = record s { address_list = some l } in
      let x = front (w.ahead ++ h.queue.later) in
      let found = found_in s.this_bound_tree w.shape x in
      let search = find_range-search s.this_bound_tree w.shape x h.is_tree in
      let v = next_view w in
      subst (Returns (λ (_, s'). Drained sys orig w n s'))
        (sym (drain_round d sys garbage k x s h.queue.queue l found h.queue.there popped search))
        (elim (Bool-cases (x == 0)) [
          | inl last ↦ rw last (
              returns (record {
                cap = w.cap;
                shape = w.shape;
                ready = Ready-weaken sys orig (forgotten w) n room (parts s₁) (omega arith) (
                    Ready-queue sys orig w (forgotten w) room s (some l) refl h
                      (Queued-forget w room s.address_list h.queue l stores left));
                held =
                    none_ahead (λ y. accepts w.shape y ≡ false) w.ahead h.queue.later filled
                      (==→eq x 0 last);
                grows = λ y e. e;
              }))
          | inr more ↦ rw more (
              Returns-bind
                (examine-Examined d sys orig v sites garbage n u x s₁ found
                  (Ready-queue sys orig w v room s (some l) refl h
                    (Queued-next w room s.address_list h.queue l stores left (==→ne x 0 more)))
                  enough search (sym (found_in-accepts s.this_bound_tree w.shape x)))
                (λ _ s₂ e.
                  Returns-mono
                    (drain-Drained k n e.u' garbage (record v { shape = e.shape }) s₂ e.ready
                      e.enough
                      (omega (
                        arith,
                        h.queue.bounded,
                        front_some (w.ahead ++ h.queue.later) (==→ne x 0 more),
                      ))
                      (All-dequeue (λ y. y ≢ 0) w.ahead filled))
                    (λ _ r. Drained-from w n u x h.queue.later s₂ _ refl e r)))
        ])

-- The view of a queue that was empty before an address was put on it.
abbrev pub only : ℕ → ℕ → Shape → View
only n a t = record { cap = n + 1; ahead = a ∷ []; shape = t }

pub queue_first-Ready :
    {Ud : Type 0} (sys : System) (orig : ℕ → ℕ) (w : View) (n a : ℕ) (q : LinkedList)
    (s : Analyzer Ud)
    → ReadyAs sys orig w (suc n) s
    → s.address_list ≡ some q
    → Stores q []
    → n < q.heap.room
    → Returns
        (λ (_, s'). ReadyAs sys orig (only n a w.shape) n s')
        (on_address_list (list_insert a) s)
queue_first-Ready sys orig w n a q s h there empty room =
    let (l, run, stores, left) = list_insert-enqueue q a [] empty (omega arith) in
    subst (Returns (λ (_, s'). ReadyAs sys orig (only n a w.shape) n s'))
      (sym (on_queue sys orig w (list_insert a) s q l _ there run))
      (returns (record {
        program = Recoverable-suc sys orig w n s h;
        queue = record {
          queue = l;
          there = refl;
          later = [];
          stores = stores;
          room = omega arith;
          bounded = omega arith;
        };
        valid = Listed-suc n s.valid_address_list h.valid;
        is_tree = h.is_tree;
        tree_room = omega (arith, h.tree_room);
      }))
