-- ===== src/Common/Outcome.antt =====
-- Outcomes of C code that reads and writes a state.
use Prim.Native.Nat.{ℕ}
use mathlib.Core.Path.{◌≡◌, refl}
use mathlib.Core.Bool.{Bool, true, false}
use counter_rop.Common.Tests.{if◌then◌else◌}

-- `fault` is undefined behaviour: a read or write through a null or dangling pointer.
-- `exits n` is the end of the process by `exit(n)`. `out_of_fuel` is the model's own.
pub data Outcome (A : Type 0) : Type 0 where
  ok : A → Outcome A
  fault : Outcome A
  exits : ℕ → Outcome A
  out_of_fuel : Outcome A

abbrev pub Cmd : Type 0 → Type 0 → Type 0
Cmd S A = S → Outcome (A × S)

abbrev pub pure : {S A : Type 0} → A → Cmd S A
pure a s = ok (a, s)

abbrev pub and_then : {S A B : Type 0} → Outcome (A × S) → (A → Cmd S B) → Outcome (B × S)
and_then (ok (a, s)) k = k a s
and_then fault k = fault
and_then (exits n) k = exits n
and_then out_of_fuel k = out_of_fuel

pub and_then_assoc :
    {S A B C : Type 0} (r : Outcome (A × S)) (k : A → Cmd S B) (l : B → Cmd S C)
    → and_then r (λ a s. and_then (k a s) l) ≡ and_then (and_then r k) l
and_then_assoc (ok (a, s)) k l = refl
and_then_assoc fault k l = refl
and_then_assoc (exits n) k l = refl
and_then_assoc out_of_fuel k l = refl

infixl 5 ◌>>=◌ ◌>>◌
abbrev pub ◌>>=◌ : {S A B : Type 0} → Cmd S A → (A → Cmd S B) → Cmd S B
m >>= k = λ s. and_then (m s) k

abbrev pub ◌>>◌ : {S B : Type 0} → Cmd S (Unit {0}) → Cmd S B → Cmd S B
m >> k = m >>= λ _. k

-- An outcome without a state.
abbrev pub then_with : {A B : Type 0} → Outcome A → (A → Outcome B) → Outcome B
then_with (ok a) k = k a
then_with fault k = fault
then_with (exits n) k = exits n
then_with out_of_fuel k = out_of_fuel

abbrev pub get : {S : Type 0} → Cmd S S
get s = ok (s, s)

abbrev pub modify : {S : Type 0} → (S → S) → Cmd S (Unit {0})
modify f s = ok (tt, f s)

abbrev pub fail : {S A : Type 0} → Cmd S A
fail s = fault

abbrev pub exit_with : {S A : Type 0} → ℕ → Cmd S A
exit_with n s = exits n

-- A run that ends well, in a result and a state with the property.
pub data Returns {A : Type 0} (P : A → Type 0) : Outcome A → Type 0 where
  returns : {a : A} → P a → Returns P (ok a)

module _ {S A : Type 0} {P : A × S → Type 0} where
  pub Returns-bind :
      {B : Type 0} {Q : B × S → Type 0} {r : Outcome (A × S)} {k : A → Cmd S B}
      → Returns P r
      → ((a : A) (s : S) → P (a, s) → Returns Q (k a s))
      → Returns Q (and_then r k)
  Returns-bind (returns {a} p) next = next a.0 a.1 p

pub Returns-mono :
    {A : Type 0} {P Q : A → Type 0} {r : Outcome A}
    → Returns P r
    → ((a : A) → P a → Q a)
    → Returns Q r
Returns-mono (returns p) weaken = returns (weaken _ p)

pub Returns-if :
    {S A : Type 0} {P : A × S → Type 0} (b : Bool) (x y : Cmd S A) (s : S)
    → Returns P (x s)
    → Returns P (y s)
    → Returns P ((if b then x else y) s)
Returns-if true x y s left right = left
Returns-if false x y s left right = right

-- A run that ends well in a state with the property, or that has used up the rounds it was given.
pub data IsSafe {A : Type 0} (P : A → Type 0) : Outcome A → Type 0 where
  ended : {a : A} → P a → IsSafe P (ok a)
  going : IsSafe P out_of_fuel

pub Returns-IsSafe :
    {S A B : Type 0} {r : Outcome (A × S)} {k : A → Cmd S B} (Q P : S → Type 0)
    → Returns (λ (_, s). Q s) r
    → ((a : A) (s : S) → Q s → IsSafe (λ (_, s). P s) (k a s))
    → IsSafe (λ (_, s). P s) (and_then r k)
Returns-IsSafe Q P (returns {a} p) next = next a.0 a.1 p

pub Returns-to : {A : Type 0} {P : A → Type 0} {r : Outcome A} → Returns P r → IsSafe P r
Returns-to (returns p) = ended p

pub IsSafe-then :
    {S A B : Type 0} {r : Outcome (A × S)} {k : A → Cmd S B} (Q P : S → Type 0)
    → IsSafe (λ (_, s). Q s) r
    → ((a : A) (s : S) → Q s → Returns (λ (_, s). P s) (k a s))
    → IsSafe (λ (_, s). P s) (and_then r k)
IsSafe-then Q P (ended {a} p) next = Returns-to (next a.0 a.1 p)
IsSafe-then Q P going next = going

pub IsSafe-bind :
    {S A B : Type 0} {r : Outcome (A × S)} {k : A → Cmd S B} (Q P : S → Type 0)
    → IsSafe (λ (_, s). Q s) r
    → ((a : A) (s : S) → Q s → IsSafe (λ (_, s). P s) (k a s))
    → IsSafe (λ (_, s). P s) (and_then r k)
IsSafe-bind Q P (ended {a} p) next = next a.0 a.1 p
IsSafe-bind Q P going next = going

-- A command on a part of a state.
abbrev pub put_back : {S T A : Type 0} → (T → S → S) → S → Outcome (A × T) → Outcome (A × S)
put_back put s (ok (a, t)) = ok (a, put t s)
put_back put s fault = fault
put_back put s (exits n) = exits n
put_back put s out_of_fuel = out_of_fuel

abbrev pub zoom : {S T A : Type 0} → (S → T) → (T → S → S) → Cmd T A → Cmd S A
zoom part put m s = put_back put s (m (part s))
