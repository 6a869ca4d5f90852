-- ===== src/Tests/Printers.antt =====
-- testUdis.c on an input of two instructions.
use counter_rop.Common.{ℕ, ◌<◌, ◌≡◌, ◌≢◌, refl, List, [], ◌∷◌, arith, length}
use counter_rop.Common.Outcome.{Returns, Outcome, ok, fault, exits, out_of_fuel}
use counter_rop.Examples.{Printing, print_loop, test_udis_main}
use counter_rop.Examples.Listing.{Reads, lines, test_udis_main-listing}

-- The texts of the instructions that are left, and of the current one.
record Input : Type 0 where
  left : List (List ℕ)
  current : List ℕ

abbrev read_from : List (List ℕ) → Input → ℕ × Input
read_from [] u = (0, u)
read_from (x ∷ xs) u = (1, record { left = xs; current = x })

abbrev read : Input → ℕ × Input
read u = read_from u.left u

abbrev size_of : Input → ℕ
size_of u = length u.left

shorter : (u : Input) → (read u).0 ≢ 0 → size_of (read u).1 < size_of u
shorter u more = from u.left u more
  where
    from :
        (xs : List (List ℕ)) (u : Input)
        → (read_from xs u).0 ≢ 0
        → size_of (read_from xs u).1 < length xs
    from [] u more = absurd (more refl)
    from (x ∷ xs) u more = omega arith

-- "nop" and "ret".
abbrev nop_ret : Printing Input
nop_ret = record {
  ud_obj = record { left = (110 ∷ 111 ∷ 112 ∷ []) ∷ (114 ∷ 101 ∷ 116 ∷ []) ∷ []; current = [] };
  out = [];
}

test_udis_main-listing_example :
    Returns
      (λ (n, s').
        (n ≡ 0)
        × (us : List Input) × Reads (λ u. u) read (λ u. u.current) nop_ret.ud_obj us
        × (s'.out ≡ lines (λ u. u) read (λ u. u.current) us))
      (test_udis_main (λ u. u) read (λ u. u.current) 3 nop_ret)
test_udis_main-listing_example =
    test_udis_main-listing (λ u. u) read (λ u. u.current) size_of shorter 3 nop_ret (omega arith)

-- What is printed for the two instructions.
text_of : Outcome (ℕ × Printing Input) → List ℕ
text_of (ok (_, s)) = s.out
text_of fault = []
text_of (exits n) = []
text_of out_of_fuel = []

prints_two_lines :
    text_of (test_udis_main (λ u. u) read (λ u. u.current) 3 nop_ret)
    ≡ 9 ∷ 110 ∷ 111 ∷ 112 ∷ 10 ∷ 9 ∷ 114 ∷ 101 ∷ 116 ∷ 10 ∷ []
unfolding text_of test_udis_main print_loop
prints_two_lines = refl
