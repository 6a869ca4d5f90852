-- ===== src/Examples.antt =====
-- The programs beside the analyser: basic.c, which it is tried on, and testUdis.c, which prints what the
-- disassembler udis86 reads from the standard input.
pub mod Listing
use counter_rop.Common.{ℕ, zero, suc, ◌+◌, ◌==◌, if◌then◌else◌, List, [], ◌∷◌, ◌++◌}
use counter_rop.Common.Outcome.{out_of_fuel, Cmd, pure, modify, ◌>>=◌, ◌>>◌}

-- What was printed.
abbrev pub Output : Type 0
Output = List ℕ

abbrev pub print : Output → Cmd Output (Unit {0})
print text = modify (λ out. out ++ text)

unfoldable pub test_func0 : Cmd Output ℕ
test_func0 = pure 3

unfoldable pub test_func1 : Cmd Output ℕ
test_func1 = do print (10 ∷ []); pure 4

-- The first values of `a` and `b` are overwritten.
unfoldable pub basic_main : Cmd Output ℕ
basic_main = do a ← test_func1; b ← test_func0; pure (a + b)

-- `"\t%s\n"`.
abbrev pub line : List ℕ → Output
line text = 9 ∷ text ++ 10 ∷ []

pub record Printing (U : Type 0) : Type 0 where
  pub ud_obj : U
  pub out : Output

-- `set_up` is what `ud_init` and the three functions after it make of `ud_obj`, `disassemble` is
-- `ud_disassemble`, and `insn_asm` the text of the current instruction.
module _ {U : Type 0} (set_up : U → U) (disassemble : U → ℕ × U) (insn_asm : U → List ℕ) where
  unfoldable pub print_loop : ℕ → Cmd (Printing U) (Unit {0})
  print_loop zero s = out_of_fuel
  print_loop (suc k) s =
      let (size, u) = disassemble s.ud_obj in
      if size == 0
      then pure tt (record s { ud_obj = u })
      else print_loop k (record { ud_obj = u; out = s.out ++ line (insn_asm u) })

  unfoldable pub test_udis_main : ℕ → Cmd (Printing U) ℕ
  test_udis_main rounds = do
    modify (λ s. record s { ud_obj = set_up s.ud_obj })
    print_loop rounds
    pure 0
