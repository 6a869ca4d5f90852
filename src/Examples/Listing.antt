-- ===== src/Examples/Listing.antt =====
-- What the programs basic.c and testUdis.c print and return.
use counter_rop.Common.{
  ℕ, zero, suc, ◌<◌, ◌≡◌, ◌≢◌, refl, List, [], ◌∷◌, ◌++◌, ◌==◌, Bool-cases, inl, inr, ==→ne, ==→eq,
  append_assoc, append-nil, arith, sym, ◌∙◌,
}
use counter_rop.Common.Outcome.{ok, Returns, returns, Returns-bind, Returns-mono}
use counter_rop.Examples.{
  Output, Printing, line, basic_main, test_func0, test_func1, print_loop, test_udis_main,
}

-- `main` of basic.c prints an empty line and returns 7.
pub basic_main_lem : (out : Output) → basic_main out ≡ ok (7, out ++ 10 ∷ [])
unfolding basic_main test_func0 test_func1
basic_main_lem out = refl

module _ {U : Type 0} (set_up : U → U) (disassemble : U → ℕ × U) (insn_asm : U → List ℕ) where
  -- The instructions that are read from `u` on, up to the end of the input.
  pub data Reads : U → List U → Type 0 where
    ends : (u : U) → (disassemble u).0 ≡ 0 → Reads u []
    reads :
        (u : U) (us : List U)
        → (disassemble u).0 ≢ 0
        → Reads (disassemble u).1 us
        → Reads u ((disassemble u).1 ∷ us)

  -- Each instruction stands between a tab and the end of its line.
  unfoldable pub lines : List U → Output
  lines [] = []
  lines (u ∷ us) = (b'\t' ∷ insn_asm u) ++ (b'\n' ∷ lines us)

  module _ (remaining : U → ℕ)
      (shrinks : (u : U) → (disassemble u).0 ≢ 0 → remaining (disassemble u).1 < remaining u) where
    print_loop-lines :
        (k : ℕ) (s : Printing U)
        → remaining s.ud_obj < k
        → Returns
            (λ (_, s'). (us : List U) × Reads s.ud_obj us × (s'.out ≡ s.out ++ lines us))
            (print_loop set_up disassemble insn_asm k s)
    unfolding print_loop lines
    print_loop-lines zero s fuel = absurd (omega arith)
    print_loop-lines (suc k) s fuel =
        let u = (disassemble s.ud_obj).1 in
        elim (Bool-cases ((disassemble s.ud_obj).0 == 0)) [
          | inl last ↦ rw last (
              returns
                ([], ends s.ud_obj (==→eq (disassemble s.ud_obj).0 0 last), sym (append-nil s.out)))
          | inr more ↦
              let some_left = ==→ne (disassemble s.ud_obj).0 0 more in
              rw more (
                Returns-mono
                  (print_loop-lines k (record { ud_obj = u; out = s.out ++ line (insn_asm u) })
                    (omega (arith, shrinks s.ud_obj some_left)))
                  (λ _ (us, all, e).
                    (u ∷ us, reads s.ud_obj us some_left all, e ∙ simp append_assoc)))
        ]

    -- If each instruction that is read leaves less of the input, and the rounds are more than what there
    -- is of it, `main` of testUdis.c ends and returns 0, and has printed the text of each instruction
    -- that is read up to the end of the input, in their order, each between a tab and a line end.
    pub test_udis_main-listing :
        (rounds : ℕ) (s : Printing U)
        → remaining (set_up s.ud_obj) < rounds
        → Returns
            (λ (n, s').
              (n ≡ 0) × (us : List U) × Reads (set_up s.ud_obj) us × (s'.out ≡ s.out ++ lines us))
            (test_udis_main set_up disassemble insn_asm rounds s)
    unfolding test_udis_main
    test_udis_main-listing rounds s fuel =
        Returns-bind (print_loop-lines rounds (record s { ud_obj = set_up s.ud_obj }) fuel)
          (λ _ s' (us, all, e). returns (refl, us, all, e))
