-- ===== src/Files/Pick.antt =====
-- `find_in_dir` of elf/libaddr.cc: which entries of a directory it returns.
use counter_rop.Common.{
  ◌≡◌, refl, true, false, Option, some, List, [], ◌∷◌, ◌++◌, append_assoc, append-nil, ◌==◌, ==→eq,
  Bool-cases, inl, inr, ◌∙◌, sym, ap, arith, true≢false,
}
use counter_rop.Common.Outcome.{ok}
use counter_rop.Files.{Text, is_prefix, has_substr, dir_loop, find_in_dir}

-- The one text stands in the other.
pub record Occurs (substr path : Text) : Type 0 where
  pub before : Text
  pub after : Text
  pub parts : path ≡ before ++ (substr ++ after)

-- `ys` is `xs` without the entries that do not have the property, in the same order.
pub data Picks {A : Type 0} (P : A → Type 0) : List A → List A → Type 0 where
  nothing : Picks P [] []
  taken : {x : A} {xs ys : List A} → P x → Picks P xs ys → Picks P (x ∷ xs) (x ∷ ys)
  left : {x : A} {xs ys : List A} → ¬ (P x) → Picks P xs ys → Picks P (x ∷ xs) ys

is_prefix_sound : (s p : Text) → is_prefix s p ≡ true → (after : Text) × (p ≡ s ++ after)
unfolding is_prefix
is_prefix_sound [] p h = (p, refl)
is_prefix_sound (c ∷ s) [] h = absurd (true≢false (sym h))
is_prefix_sound (c ∷ s) (d ∷ p) h =
    let same : (c == d) ≡ true = ground arith in
    let (after, e) = is_prefix_sound s p (ground arith) in (after, cc (==→eq c d same, e))

is_prefix_complete : (s after : Text) → is_prefix s (s ++ after) ≡ true
unfolding is_prefix
is_prefix_complete [] after = refl
is_prefix_complete (c ∷ s) after = ground (arith, is_prefix_complete s after)

prefix-Occurs : (s p : Text) → is_prefix s p ≡ true → Occurs s p
prefix-Occurs s p h =
    let (after, e) = is_prefix_sound s p h in record { before = []; after = after; parts = e }

has_substr_sound : (s p : Text) → has_substr s p ≡ true → Occurs s p
unfolding has_substr
has_substr_sound s [] h = prefix-Occurs s [] h
has_substr_sound s (c ∷ p) h = elim (Bool-cases (is_prefix s (c ∷ p))) [
  | inl here ↦ prefix-Occurs s (c ∷ p) here
  | inr later ↦
      let o = has_substr_sound s p (ground arith) in
      record { before = c ∷ o.before; after = o.after; parts = ap (λ t. c ∷ t) o.parts }
]

has_substr-here : (s p : Text) → is_prefix s p ≡ true → has_substr s p ≡ true
unfolding has_substr
has_substr-here s [] h = h
has_substr-here s (c ∷ p) h = ground arith

has_substr_complete : (s before after : Text) → has_substr s (before ++ (s ++ after)) ≡ true
unfolding has_substr
has_substr_complete s [] after = has_substr-here s (s ++ after) (is_prefix_complete s after)
has_substr_complete s (c ∷ before) after = ground (arith, has_substr_complete s before after)

has_substr-none : (s p : Text) → has_substr s p ≡ false → ¬ (Occurs s p)
has_substr-none s p h o =
    true≢false (sym (has_substr_complete s o.before o.after) ∙ ap (has_substr s) (sym o.parts) ∙ h)

dir_loop-Picks :
    (s : Text) (entries res : List Text)
    → (found : List Text) × (dir_loop s entries res ≡ res ++ found) × Picks (Occurs s) entries found
unfolding dir_loop
dir_loop-Picks s [] res = ([], sym (append-nil res), nothing)
dir_loop-Picks s (p ∷ entries) res = elim (Bool-cases (has_substr s p)) [
  | inl within ↦
      let (found, run, picks) = dir_loop-Picks s entries (res ++ p ∷ []) in
      (
        p ∷ found,
        rw within (run ∙ append_assoc res (p ∷ []) found),
        taken (has_substr_sound s p within) picks,
      )
  | inr without ↦
      let (found, run, picks) = dir_loop-Picks s entries res in
      (found, rw without run, left (has_substr-none s p without) picks)
]

find_in_dir_lem :
    (opendir : Text → Option (List Text)) (dir substr : Text) (entries : List Text)
    → opendir dir ≡ some entries
    → find_in_dir opendir dir substr ≡ ok (dir_loop substr entries [])
unfolding find_in_dir
find_in_dir_lem opendir dir substr entries e = rw (e, find_in_dir)

-- If the directory can be opened, `find_in_dir` returns those of its entries in which the text stands,
-- in the order of the directory, and no other.
pub find_in_dir-Picks :
    (opendir : Text → Option (List Text)) (dir substr : Text) (entries : List Text)
    → opendir dir ≡ some entries
    → (found : List Text) × (find_in_dir opendir dir substr ≡ ok found)
      × Picks (Occurs substr) entries found
find_in_dir-Picks opendir dir substr entries e =
    let (found, run, picks) = dir_loop-Picks substr entries [] in
    (found, find_in_dir_lem opendir dir substr entries e ∙ ap ok run, picks)
