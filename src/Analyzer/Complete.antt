-- ===== src/Analyzer/Complete.antt =====
-- What the loop that empties the queue, in `wrapped_main` of elf/libaddr.cc and `trap_handler` of
-- data/trap/trap.c, has done with each instruction that it looked at.
use counter_rop.Common.{List, ℕ, ◌≡◌, ◌≢◌, true, false, ◌⊎◌, inl, inr}
use counter_rop.LinkedList.Chain.{contains}
use counter_rop.Analyzer.Effect.{arms_at}
use counter_rop.Analyzer.Rule.{survey-contains_site, survey-contains_valid}
use counter_rop.Analyzer.Udis.{Disassembler}
use counter_rop.Analyzer.Visit.{next_of, target_of}
use counter_rop.Analyzer.Visited.{
  IsVisited, Handled, AllTrapped, is_branch, is_call, survey-Handled, survey-AllTrapped,
}
use counter_rop.Analyzer.Worklist.{
  World, Explores, stops, passes, walks, IsSettled, IsQueued-now, bound_at, next_address, popped,
  Explores-settles,
}

module _ (d : Disassembler) (garbage : ℕ) where
  -- One of the walks of the run looks at the instruction `v`, where the variable `offset` is `h`.
  abbrev pub IsWalked : d.Ud → ℕ → {a b : World d} → Explores d garbage a b → Type 0
  IsWalked v h (stops e) = ⊥
  IsWalked v h (passes ne held e) = IsWalked v h e
  IsWalked v h (walks {a} at ne free full e) =
      IsVisited d v h 101 (bound_at a.shape (next_address d garbage a)) a.memory
        (d.set_input_buffer (next_address d garbage a) 100 a.ud) garbage true
      ⊎ IsWalked v h e

  -- A site is listed; another call or jump was followed, if its target
  -- is not 0, or waits behind a 0 in the queue; the address behind a direct call is a valid one.
  pub record Followed (v : d.Ud) (h : ℕ) (b : World d) : Type 0 where
    pub site :
        arms_at (d.insn_mnemonic v) (d.insn_opr v).kind ≡ true
        → contains (d.insn_ptr v) b.found.sites ≡ true
    pub target :
        arms_at (d.insn_mnemonic v) (d.insn_opr v).kind ≡ false
        → is_branch (d.insn_mnemonic v) ≡ true
        → target_of d h v ≢ 0
        → IsSettled d garbage (target_of d h v) b
    pub next :
        arms_at (d.insn_mnemonic v) (d.insn_opr v).kind ≡ false
        → is_call (d.insn_mnemonic v) ≡ true
        → contains (next_of d v) b.found.valid ≡ true

  pub Explores-site :
      {a b : World d} (t : ℕ)
      → Explores d garbage a b
      → contains t a.found.sites ≡ true
      → contains t b.found.sites ≡ true
  Explores-site t (stops e) h = h
  Explores-site t (passes ne held e) h = Explores-site t e h
  Explores-site t (walks {a} at ne free full e) h =
      let x = next_address d garbage a in
      Explores-site t e (
        survey-contains_site d 101 (bound_at a.shape x) a.memory (d.set_input_buffer x 100 a.ud)
          garbage true x (popped d garbage a).found t h)

  Explores-valid :
      {a b : World d} (t : ℕ)
      → Explores d garbage a b
      → contains t a.found.valid ≡ true
      → contains t b.found.valid ≡ true
  Explores-valid t (stops e) h = h
  Explores-valid t (passes ne held e) h = Explores-valid t e h
  Explores-valid t (walks {a} at ne free full e) h =
      let x = next_address d garbage a in
      Explores-valid t e (
        survey-contains_valid d 101 (bound_at a.shape x) a.memory (d.set_input_buffer x 100 a.ud)
          garbage true x (popped d garbage a).found t h)

  -- Each site has a trap byte at the end, if it was so in the beginning.
  pub Explores-AllTrapped :
      {a b : World d} (out : List ℕ)
      → Explores d garbage a b
      → AllTrapped out a.memory a.found.sites
      → AllTrapped out b.memory b.found.sites
  Explores-AllTrapped out (stops e) h = h
  Explores-AllTrapped out (passes ne held e) h = Explores-AllTrapped out e h
  Explores-AllTrapped out (walks {a} at ne free full e) h =
      let x = next_address d garbage a in
      Explores-AllTrapped out e (
        survey-AllTrapped d out 101 (bound_at a.shape x) a.memory (d.set_input_buffer x 100 a.ud)
          garbage true x (popped d garbage a).found h)

  Handled-Followed :
      (v : d.Ud) (h : ℕ) {a b : World d}
      → Explores d garbage a b
      → Handled d v h a.found
      → Followed v h b
  Handled-Followed v h e p = record {
    site = λ s. Explores-site (d.insn_ptr v) e (p.site s);
    target = λ s b ne.
        Explores-settles d garbage (target_of d h v) ne e
          (IsQueued-now d garbage (target_of d h v) e (p.target s b));
    next = λ s c. Explores-valid (next_of d v) e (p.next s c);
  }

  pub Explores-Followed :
      {a b : World d} (v : d.Ud) (h : ℕ) (e : Explores d garbage a b)
      → IsWalked v h e
      → Followed v h b
  Explores-Followed v h (stops e) w = absurd w
  Explores-Followed v h (passes ne held e) w = Explores-Followed v h e w
  Explores-Followed v h (walks {a} at ne free full e) (inr w) = Explores-Followed v h e w
  Explores-Followed v h (walks {a} at ne free full e) (inl w) =
      let x = next_address d garbage a in
      Handled-Followed v h e (
        survey-Handled d v h 101 (bound_at a.shape x) a.memory (d.set_input_buffer x 100 a.ud)
          garbage true x (popped d garbage a).found w)
