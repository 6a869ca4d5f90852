-- ===== src/Analyzer/Worklist.antt =====
-- The loop that empties the queue, in `wrapped_main` of elf/libaddr.cc and `trap_handler` of
-- data/trap/trap.c, without lists, tables and trees in memory.
use counter_rop.Common.{
  ℕ, ◌≡◌, ◌≢◌, true, false, ◌⊎◌, inl, inr, List, [], ◌∷◌, if◌then◌else◌, Bool-cases, ◌==◌, ==→eq,
  subst, sym, ◌∙◌, true≢false, arith,
}
use counter_rop.Common.Heap.{Ptr}
use counter_rop.Common.Word.{slt, add64, sub64}
use counter_rop.LinkedList.Chain.{contains}
use counter_rop.LinkedList.Queue.{front, dequeue}
use counter_rop.BoundTree.{no_bound}
use counter_rop.BoundTree.Shape.{Shape, leaf, node, graft}
use counter_rop.BoundTree.Measure.{accepts-graft, accepts-graft_self}
use counter_rop.BoundTree.Refine.{accepts}
use counter_rop.Analyzer.Effect.{Discovered}
use counter_rop.Analyzer.Rule.{survey-contains}
use counter_rop.Analyzer.Survey.{Surveyed, survey}
use counter_rop.Analyzer.Udis.{Disassembler}

-- The bound that `boundFind` computes on its way to a place for the address.
abbrev pub bound_on : Shape → ℕ → ℕ → ℕ
bound_on leaf bound x = bound
bound_on (node p lo hi l r) bound x =
    if slt x lo
    then bound_on l (sub64 lo 1) x
    else if slt hi x
    then bound_on r (add64 x no_bound) x
    else bound

abbrev pub bound_at : Shape → ℕ → ℕ
bound_at leaf x = add64 x no_bound
bound_at t x = bound_on t 0 x

module _ (d : Disassembler) where
  pub record World : Type 0 where
    pub found : Discovered
    pub shape : Shape
    pub memory : ℕ → ℕ
    pub ud : d.Ud

module _ (d : Disassembler) (garbage : ℕ) where
  abbrev pub next_address : World d → ℕ
  next_address a = front a.found.queue

  abbrev pub popped : World d → World d
  popped a = record a { found = record a.found { queue = dequeue a.found.queue } }

  -- The walk from the address at the head of the queue.
  abbrev pub walk : World d → Surveyed d
  walk a =
      let x = next_address a in
      survey d 101 (bound_at a.shape x) a.memory (d.set_input_buffer x 100 a.ud) garbage true x
        (popped a).found

  -- The range that was walked along becomes a node at the place `at` of memory.
  abbrev pub walked : Ptr → World d → World d
  walked at a = record {
    found = (walk a).found;
    shape = graft a.shape at (next_address a) (walk a).last;
    memory = (walk a).memory;
    ud = (walk a).ud;
  }

  -- A run of the loop: it stops at a 0, which an empty queue returns too, passes over an address that
  -- a range holds, and walks from any other.
  pub data Explores : World d → World d → Type 0 where
    stops : {a : World d} → next_address a ≡ 0 → Explores a (popped a)
    passes :
        {a b : World d}
        → next_address a ≢ 0
        → accepts a.shape (next_address a) ≡ false
        → Explores (popped a) b
        → Explores a b
    walks :
        {a b : World d} (at : Ptr)
        → next_address a ≢ 0
        → accepts a.shape (next_address a) ≡ true
        → slt (walk a).last (next_address a) ≡ false
        → Explores (walked at a) b
        → Explores a b

  -- An address that stands in the queue at some time of the run.
  abbrev pub IsQueued : ℕ → {a b : World d} → Explores a b → Type 0
  IsQueued t (stops {a} e) = contains t a.found.queue ≡ true
  IsQueued t (passes {a} ne held e) = (contains t a.found.queue ≡ true) ⊎ IsQueued t e
  IsQueued t (walks {a} at ne free full e) = (contains t a.found.queue ≡ true) ⊎ IsQueued t e

  pub IsQueued-now :
      (t : ℕ) {a b : World d} (e : Explores a b) → contains t a.found.queue ≡ true → IsQueued t e
  IsQueued-now t (stops e) h = h
  IsQueued-now t (passes ne held e) h = inl h
  IsQueued-now t (walks at ne free full e) h = inl h

  -- A range that was there stays there.
  pub Explores-held :
      {a b : World d} (t : ℕ) → Explores a b → accepts a.shape t ≡ false → accepts b.shape t ≡ false
  Explores-held t (stops e) h = h
  Explores-held t (passes ne held e) h = Explores-held t e h
  Explores-held t (walks {a} at ne free full e) h =
      Explores-held t e (accepts-graft a.shape at (next_address a) (walk a).last t h)

  contains-front :
      (t : ℕ) (xs : List ℕ)
      → contains t xs ≡ true
      → (t ≡ front xs) ⊎ (contains t (dequeue xs) ≡ true)
  contains-front t [] h = absurd (true≢false (sym h))
  contains-front t (x ∷ xs) h = elim (Bool-cases (t == x)) [
    | inl same ↦ inl (==→eq t x same)
    | inr other ↦ inr (ground arith)
  ]

  -- Where the loop stops, an address that stood in the queue is held by a range, or stands behind the
  -- 0 that stopped the loop.
  abbrev pub IsSettled : ℕ → World d → Type 0
  IsSettled t b = (accepts b.shape t ≡ false) ⊎ (contains t b.found.queue ≡ true)

  -- The first address of the queue, where a range holds it afterwards, or one behind it.
  settle :
      (t : ℕ) (a : World d) {a' b : World d} (e : Explores a' b)
      → accepts a'.shape (next_address a) ≡ false
      → (contains t (dequeue a.found.queue) ≡ true → contains t a'.found.queue ≡ true)
      → (IsQueued t e → IsSettled t b)
      → contains t a.found.queue ≡ true
      → IsSettled t b
  settle t a {a'} {b} e held keeps rest q = elim (contains-front t a.found.queue q) [
    | inl first ↦
        inl (
          subst (λ x. accepts b.shape x ≡ false) (sym first)
            (Explores-held (next_address a) e held))
    | inr behind ↦ rest (IsQueued-now t e (keeps behind))
  ]

  pub Explores-settles :
      {a b : World d} (t : ℕ) → t ≢ 0 → (e : Explores a b) → IsQueued t e → IsSettled t b
  Explores-settles t ne (stops {a} last) q = elim (contains-front t a.found.queue q) [
    | inl first ↦ absurd (ne (first ∙ last))
    | inr behind ↦ inr behind
  ]
  Explores-settles t ne (passes {a} {b} more held e) (inr q) = Explores-settles t ne e q
  Explores-settles t ne (passes {a} {b} more held e) (inl q) =
      settle t a e held (λ h. h) (Explores-settles t ne e) q
  Explores-settles t ne (walks {a} {b} at more free full e) (inr q) = Explores-settles t ne e q
  Explores-settles t ne (walks {a} {b} at more free full e) (inl q) =
      settle t a e (accepts-graft_self a.shape at (next_address a) (walk a).last full)
        (survey-contains d 101 (bound_at a.shape (next_address a)) a.memory
          (d.set_input_buffer (next_address a) 100 a.ud) garbage true (next_address a)
          (popped a).found t)
        (Explores-settles t ne e) q
