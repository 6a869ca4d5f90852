-- ===== src/Analyzer/Stays.antt =====
-- Runs of the analyser that stay ready, one after another: the steps of `printDis` of elf/libaddr.cc.
use counter_rop.Common.{ℕ, suc, ◌≤◌, ◌≡◌, refl, Bool, true, false, ◌∙◌, arith, if◌then◌else◌}
use counter_rop.Common.Outcome.{
  Cmd, Returns, returns, Returns-bind, Returns-mono, pure, ◌>>=◌, ◌>>◌,
}
use counter_rop.Analyzer.{Analyzer}
use counter_rop.Analyzer.Armed.{IsSite}
use counter_rop.Analyzer.PrintDis.{arm}
use counter_rop.Analyzer.Ready.{View, parts, Ready-weaken, ReadyAs, Keeps, Keeps-trans}
use counter_rop.Analyzer.Steps.{unchanged, Stays, arm-Ready}
use counter_rop.Analyzer.Trap.{System}

module _ {Ud : Type 0} (sys : System) (orig : ℕ → ℕ) (w : View) {A : Type 0} (P : A → Type 0) where
  -- A run that stays ready and returns what has the property.
  abbrev pub Gives : ℕ → Analyzer Ud → A × Analyzer Ud → Type 0
  Gives n s (a, s') = ReadyAs sys orig w n s' × Keeps s s' × (s'.ud_obj ≡ s.ud_obj) × P a

  -- A run that stays ready, followed by another one.
  pub Gives-bind :
      {B : Type 0} (i j n : ℕ) (m : Cmd (Analyzer Ud) B) (k : B → Cmd (Analyzer Ud) A)
      → ((s : Analyzer Ud) → ReadyAs sys orig w i s → Returns (Stays sys orig w j s) (m s))
      → ((b : B) (s : Analyzer Ud) → ReadyAs sys orig w j s → Returns (Gives n s) (k b s))
      → (s : Analyzer Ud) → ReadyAs sys orig w i s
      → Returns (Gives n s) ((m >>= k) s)
  Gives-bind i j n m k first next s h =
      Returns-bind (first s h)
        (λ b s' p. Returns-mono (next b s' p.0) (λ q r. (r.0, Keeps-trans p.1 r.1, r.2 ∙ p.2, r.3)))

  pub Gives-pure :
      (n m : ℕ) (a : A)
      → n ≤ m
      → P a
      → (s : Analyzer Ud) → ReadyAs sys orig w m s
      → Returns (Gives n s) (pure a s)
  Gives-pure n m a less p s h =
      returns (Ready-weaken sys orig w n m (parts s) less h, unchanged refl refl refl, refl, p)

  pub Gives-if :
      (n i : ℕ) (b : Bool) (x y : Cmd (Analyzer Ud) A)
      → ((s : Analyzer Ud) → ReadyAs sys orig w i s → Returns (Gives n s) (x s))
      → ((s : Analyzer Ud) → ReadyAs sys orig w i s → Returns (Gives n s) (y s))
      → (s : Analyzer Ud) → ReadyAs sys orig w i s
      → Returns (Gives n s) ((if b then x else y) s)
  Gives-if n i true x y left right = left
  Gives-if n i false x y left right = right

  pub arm_and :
      (n base : ℕ) (a : A)
      → IsSite sys base
      → P a
      → (s : Analyzer Ud) → ReadyAs sys orig w (suc (suc n)) s
      → Returns (Gives n s) ((arm sys base >> pure a) s)
  arm_and n base a site p =
      Gives-bind (suc (suc n)) (suc n) n (arm sys base) (λ _. pure a)
        (λ s. arm-Ready sys orig w (suc n) base s site)
        (λ _. Gives-pure n (suc n) a (omega arith) p)
