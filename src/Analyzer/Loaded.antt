-- ===== src/Analyzer/Loaded.antt =====
-- The analysis before the program runs: the globals of elf/libaddr.cc, and `wrapped_main` up to the call of
-- `main`.
use counter_rop.Common.{
  ℕ, suc, ◌+◌, ◌*◌, ◌<◌, ◌≤◌, ◌≡◌, ◌≢◌, refl, true, List, inl, [], arith, sym, subst, true≢false,
}
use counter_rop.Common.Heap.{Ptr}
use counter_rop.Common.Outcome.{ok, Cmd, pure, then_with, ◌>>◌, ◌>>=◌, modify}
use counter_rop.Common.Word.{word_mod}
use counter_rop.LinkedList.{list_insert}
use counter_rop.LinkedList.Queue.{list_new-Stores}
use counter_rop.HashTable.Map.{hashtable_new-Maps}
use counter_rop.BoundTree.{new_tree}
use counter_rop.BoundTree.Measure.{uncovered, uncovered_words}
use counter_rop.BoundTree.Shape.{leaf, new_tree-IsTree, new_tree_room}
use counter_rop.Analyzer.{Analyzer, Registers, on_address_list}
use counter_rop.Analyzer.Armed.{IsSite}
use counter_rop.Analyzer.Closed.{Explored-weaken, work}
use counter_rop.Analyzer.Explore.{Explored}
use counter_rop.Analyzer.Frame.{
  Frame, IsIdle, Frame-IsIdle, Frame-trans, alone, Returns-Ensures, queue-Frames, drain-Frames,
}
use counter_rop.Analyzer.Handler.{drain, delete_address_list, wrapped_main}
use counter_rop.Analyzer.Rule.{contains-enqueue_self, length-enqueue}
use counter_rop.Analyzer.Start.{start, start_runs, globals, num_slots}
use counter_rop.Analyzer.Trap.{System}
use counter_rop.Analyzer.Udis.{Disassembler}
use counter_rop.Analyzer.Visited.{AllTrapped}
use counter_rop.Analyzer.Worklist.{World}
use counter_rop.Analyzer.Analysed.{
  Returns-run, blank, asked, insert-Explored, Analysed, drain-Analysed,
}

module _ (d : Disassembler) (sys : System) (orig : ℕ → ℕ) where
  start-Explored :
      (garbage : Ptr) (room : ℕ) (registers : Registers) (memory : ℕ → ℕ) (u : d.Ud)
      → (s : Analyzer d.Ud) × (start (λ _. true) garbage room registers memory u ≡ ok s)
        × Explored d sys memory room (blank d memory u) s
        × IsIdle s
  start-Explored garbage room registers memory u =
      let (l, listed, stores, list_left) = list_new-Stores room in
      let (t, tabled, maps, table_left) = hashtable_new-Maps num_slots room (omega arith) in
      (
        globals l l l t (new_tree garbage room) registers memory u,
        start_runs sys garbage room registers memory u l t listed tabled,
        record {
          holds = record {
            list = l;
            there = refl;
            queue = stores;
            valid = stores;
            armed = record {
              maps = maps;
              stores = stores;
              bytes = λ a. inl refl;
              originals = λ a v e. cc;
              listed = λ a. refl;
            };
            queue_room = omega arith;
            valid_room = omega arith;
            list_room = omega arith;
            table_room = omega arith;
          };
          memory_is = refl;
          ud_is = refl;
          restorable = tt;
          is_tree = new_tree-IsTree garbage room;
          tree_room = omega (arith, new_tree_room garbage room);
        },
        record { no_trap = refl; no_register = refl },
      )

module _ (d : Disassembler) (sys : System) (garbage : ℕ) (orig : ℕ → ℕ)
    (sites : (u : d.Ud) → IsSite sys (d.insn_ptr u)) where
  -- What `wrapped_main` does up to the call of `main`.
  abbrev pub to_main : (d.Ud → d.Ud) → ℕ → ℕ → Cmd (Analyzer d.Ud) (Unit {0})
  to_main init rounds x = do
    _ ← on_address_list (list_insert x)
    modify (λ s. record s { ud_obj = init s.ud_obj })
    drain d sys garbage rounds

  -- What `wrapped_main` does from the call of `main` on.
  abbrev pub from_main : Cmd (Analyzer d.Ud) (Unit {0}) → Cmd (Analyzer d.Ud) ℕ
  from_main og_main = do og_main; delete_address_list d sys garbage; pure 0

  wrapped_main_runs :
      (init : d.Ud → d.Ud) (rounds x r : ℕ) (s s₀ s₁ : Analyzer d.Ud)
      → on_address_list (list_insert x) s ≡ ok (r, s₀)
      → drain d sys garbage rounds (record s₀ { ud_obj = init s₀.ud_obj }) ≡ ok (tt, s₁)
      → (og_main : Cmd (Analyzer d.Ud) (Unit {0}))
      → wrapped_main d sys garbage init og_main rounds x s ≡ from_main og_main s₁
  unfolding wrapped_main
  wrapped_main_runs init rounds x r s s₀ s₁ inserted drained og_main = rw (inserted, drained) refl

  to_main_runs :
      (init : d.Ud → d.Ud) (rounds x r : ℕ) (s s₀ s₁ : Analyzer d.Ud)
      → on_address_list (list_insert x) s ≡ ok (r, s₀)
      → drain d sys garbage rounds (record s₀ { ud_obj = init s₀.ud_obj }) ≡ ok (tt, s₁)
      → to_main init rounds x s ≡ ok (tt, s₁)
  to_main_runs init rounds x r s s₀ s₁ inserted drained = rw (inserted, drained) refl

  -- The same from any state that holds what was found.
  pub wrapped_main-Analysed :
      (out : List ℕ) (init : d.Ud → d.Ud) (n rounds x : ℕ) (a : World d) (s : Analyzer d.Ud)
      → Explored d sys orig (suc (n + 203 * uncovered a.shape)) a s
      → AllTrapped out a.memory a.found.sites
      → suc (work d sys orig garbage sites a) < rounds
      → x ≢ 0
      → (s₁ : Analyzer d.Ud) × Analysed d sys garbage orig sites out n x
          (asked d x (init s.ud_obj) a)
          s₁
        × Frame s s₁
        × (to_main init rounds x s ≡ ok (tt, s₁))
        × ((og_main : Cmd (Analyzer d.Ud) (Unit {0}))
            → wrapped_main d sys garbage init og_main rounds x s ≡ from_main og_main s₁)
  wrapped_main-Analysed out init n rounds x a s h trapped fuel ne =
      let ((r, s₀), inserted, ((same, h₀), f₀)) = Returns-run (
        Returns-Ensures (insert-Explored d sys orig (n + 203 * uncovered a.shape) x a s h)
          (queue-Frames (list_insert x) s)) in
      let u₀ = init s₀.ud_obj in
      let s₀' : Analyzer d.Ud = record s₀ { ud_obj = u₀ } in
      let ((_, s₁), drained, (h₁, f₁)) = Returns-run (
        Returns-Ensures
          (drain-Analysed d sys garbage orig sites out rounds n x (asked d x u₀ a) s₀' (h₀ u₀)
            trapped (contains-enqueue_self x a.found.queue) ne
            (omega (arith, length-enqueue x a.found.queue)))
          (drain-Frames d sys garbage rounds s₀')) in
      (
        s₁,
        subst (λ v. Analysed d sys garbage orig sites out n x (asked d x (init v) a) s₁) same h₁,
        Frame-trans (Frame-trans f₀ (alone refl refl refl)) f₁,
        to_main_runs init rounds x r s s₀ s₁ inserted drained,
        wrapped_main_runs init rounds x r s s₀ s₁ inserted drained,
      )

module _ (d : Disassembler) (sys : System) (garbage : ℕ)
    (sites : (u : d.Ud) → IsSite sys (d.insn_ptr u)) where
  -- When the library was just loaded, in a process that has memory for its globals: let each
  -- instruction that the disassembler names stand at an address below 2 ^ 56, not 0, in a page that
  -- can be made writable, let `main` not be at 0, and let there be memory for one insertion, `n` more
  -- and 203 for each word, and more rounds than 101 for each word and one. Then `wrapped_main` comes
  -- to the call of the program's `main`, whatever that is, with no flag of the handler up, and in a
  -- state in which the analysis is complete: it has run as the loop does without structures in memory
  -- from the address of `main` alone; the sites are the calls through memory and the jumps through
  -- memory or a register that it met, and each has a trap byte in memory; what it took for the target
  -- of each other call or jump that it met, a call through a register among them, was followed if it
  -- is not 0, or stands behind a 0 in the queue; the ranges hold no addresses but those that a walk
  -- passed; and `main` is held by a range, or stands behind a 0 in the queue.
  pub start-Analysed :
      (init : d.Ud → d.Ud) (garbage_root : Ptr) (room : ℕ) (registers : Registers) (memory : ℕ → ℕ)
      (u : d.Ud) (n rounds func_address : ℕ)
      → suc (n + 203 * word_mod) ≤ room
      → 101 * word_mod + 1 < rounds
      → func_address ≢ 0
      → (s₁ : Analyzer d.Ud) × Analysed d sys garbage memory sites [] n func_address
          (asked d func_address (init u) (blank d memory u))
          s₁
        × IsIdle s₁
        × (then_with
              (start (λ _. true) garbage_root room registers memory u)
              (to_main d sys garbage memory sites init rounds func_address)
            ≡ ok (tt, s₁))
        × ((og_main : Cmd (Analyzer d.Ud) (Unit {0}))
            → then_with
                (start (λ _. true) garbage_root room registers memory u)
                (wrapped_main d sys garbage init og_main rounds func_address)
              ≡ from_main d sys garbage memory sites og_main s₁)
  start-Analysed init garbage_root room registers memory u n rounds x left fuel ne =
      let a = blank d memory u in
      let (s, started, h, idle) =
        start-Explored d sys memory garbage_root room registers memory u in
      let (s₁, analysed, frame, reached, runs) =
        wrapped_main-Analysed d sys garbage memory sites [] init n rounds x a s
          (Explored-weaken d sys memory (suc (n + 203 * uncovered leaf)) room a s
            (omega (arith, uncovered_words leaf)) h)
          (λ y inside listed. absurd (true≢false (sym listed)))
          (omega (arith, uncovered_words leaf)) ne in
      (
        s₁,
        subst (λ v. Analysed d sys garbage memory sites [] n x (asked d x (init v) a) s₁) h.ud_is
            analysed,
        Frame-IsIdle frame idle,
        rw started reached,
        λ og_main. rw started (runs og_main),
      )
