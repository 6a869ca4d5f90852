-- ===== src/Files/Copy.antt =====
-- `print_proc_maps` and `file_readline` of elf/libaddr.cc: what is read of a file.
use counter_rop.Common.{
  ℕ, zero, suc, ◌+◌, ◌<◌, ◌≤◌, ◌≡◌, ◌≢◌, refl, ◌==◌, if◌then◌else◌, Bool, true, false, some, [],
  ◌∷◌, ◌++◌, append_assoc, append-nil, All, length, not, ◌∙◌, sym, ap, arith, Bool-cases, inl, inr,
  Option,
}
use counter_rop.Common.Outcome.{ok}
use counter_rop.Files.{
  Text, line_of, after_line, has_newline, getline, printed, copy_loop, print_proc_maps, is_space,
  skip_spaces, first_word, file_readline,
}

-- The text is empty, or its last line has an end.
unfoldable pub ends_line : Text → Bool
ends_line [] = true
ends_line (c ∷ []) = c == 10
ends_line (c ∷ d ∷ cs) = ends_line (d ∷ cs)

line_and_rest : (cs : Text) → line_of cs ++ after_line cs ≡ cs
unfolding line_of after_line
line_and_rest [] = refl
line_and_rest (c ∷ cs) = ground (arith, line_and_rest cs)

printed-All : (cs : Text) → All (λ c. c ≢ 0) cs → printed cs ≡ cs
unfolding printed
printed-All [] h = refl
printed-All (c ∷ cs) h = ground (arith, h.0, printed-All cs h.1)

line_nonzero : (cs : Text) → All (λ c. c ≢ 0) cs → All (λ c. c ≢ 0) (line_of cs)
unfolding line_of
line_nonzero [] h = tt
line_nonzero (c ∷ cs) h = elim (Bool-cases (c == 10)) [
  | inl last ↦ rw last (h.0, tt)
  | inr other ↦ rw other (h.0, line_nonzero cs h.1)
]

rest_nonzero : (cs : Text) → All (λ c. c ≢ 0) cs → All (λ c. c ≢ 0) (after_line cs)
unfolding after_line
rest_nonzero [] h = tt
rest_nonzero (c ∷ cs) h = elim (Bool-cases (c == 10)) [
  | inl last ↦ rw last h.1
  | inr other ↦ rw other (rest_nonzero cs h.1)
]

rest_shorter : (cs : Text) → length (after_line cs) ≤ length cs
unfolding after_line
rest_shorter [] = omega arith
rest_shorter (c ∷ cs) = ground (arith, rest_shorter cs)

rest_smaller : (c : ℕ) (cs : Text) → length (after_line (c ∷ cs)) < length (c ∷ cs)
unfolding after_line
rest_smaller c cs = ground (arith, rest_shorter cs)

last_line : (cs : Text) → has_newline cs ≡ false → after_line cs ≡ []
unfolding has_newline after_line
last_line [] h = refl
last_line (c ∷ cs) h = ground (arith, last_line cs)

unended : (c : ℕ) (cs : Text) → has_newline (c ∷ cs) ≡ false → ends_line (c ∷ cs) ≡ false
unfolding has_newline ends_line
unended c [] h = ground arith
unended c (d ∷ cs) h = unended d cs (ground arith)

ended_after :
    (c : ℕ) (cs : Text)
    → has_newline (c ∷ cs) ≡ true
    → ends_line (after_line (c ∷ cs)) ≡ ends_line (c ∷ cs)
unfolding has_newline ends_line after_line
ended_after c [] h = ground arith
ended_after c (d ∷ cs) h = ground (arith, ended_after d cs)

whole_line : (cs : Text) → has_newline cs ≡ false → line_of cs ≡ cs ++ []
unfolding has_newline line_of
whole_line [] h = refl
whole_line (c ∷ cs) h = ground (arith, whole_line cs)

-- What is written after the text: the buffer that `getline` did not fill, if the last line has an end.
abbrev pub left_over : Text → Text → Text
left_over text garbage = if ends_line text then printed garbage else []

copy_end :
    (k : ℕ) (garbage output : Text)
    → copy_loop (suc k) garbage (record { rest = []; eof = true }) output ≡ ok output
unfolding copy_loop
copy_end k garbage output = refl

copy_empty :
    (k : ℕ) (garbage output : Text)
    → copy_loop (suc k) garbage (record { rest = []; eof = false }) output
      ≡ copy_loop k garbage (record { rest = []; eof = true }) (output ++ printed garbage)
unfolding copy_loop getline
copy_empty k garbage output = refl

left_over_empty : (garbage : Text) → left_over [] garbage ≡ printed garbage
unfolding ends_line
left_over_empty garbage = refl

copy_step :
    (k c : ℕ) (cs garbage output : Text)
    → All (λ c. c ≢ 0) (c ∷ cs)
    → copy_loop (suc k) garbage (record { rest = c ∷ cs; eof = false }) output
      ≡ copy_loop k garbage
          (record { rest = after_line (c ∷ cs); eof = not (has_newline (c ∷ cs)) })
          (output ++ line_of (c ∷ cs))
unfolding copy_loop getline
copy_step k c cs garbage output h =
    ap
      (λ l.
        copy_loop k garbage
          (record { rest = after_line (c ∷ cs); eof = not (has_newline (c ∷ cs)) }) (output ++ l))
      (printed-All (line_of (c ∷ cs)) (line_nonzero (c ∷ cs) h))

-- The text is written in two parts.
two_parts :
    (output cs more : Text)
    → (output ++ line_of cs) ++ (after_line cs ++ more) ≡ output ++ (cs ++ more)
two_parts output cs more =
    append_assoc output (line_of cs) (after_line cs ++ more)
    ∙ ap (λ t. output ++ t)
        (sym (append_assoc (line_of cs) (after_line cs) more)
          ∙ ap (λ t. t ++ more) (line_and_rest cs))

copies :
    (k : ℕ) (text garbage output : Text)
    → length text + 1 < k
    → All (λ c. c ≢ 0) text
    → copy_loop k garbage (record { rest = text; eof = false }) output
      ≡ ok (output ++ (text ++ left_over text garbage))
copies zero text garbage output fuel h = absurd (omega arith)
copies (suc zero) text garbage output fuel h = absurd (omega arith)
copies (suc (suc k)) [] garbage output fuel h =
    copy_empty (suc k) garbage output
    ∙ copy_end k garbage (output ++ printed garbage)
    ∙ ap (λ t. ok (output ++ t)) (sym (left_over_empty garbage))
copies (suc (suc k)) (c ∷ cs) garbage output fuel h =
    let text = c ∷ cs in
    let rest = after_line text in
    copy_step (suc k) c cs garbage output h ∙ elim (Bool-cases (has_newline text)) [
      | inl more ↦ rw more (
          copies (suc k) rest garbage (output ++ line_of text) (omega (arith, rest_smaller c cs))
            (rest_nonzero text h)
          ∙ ap ok (
              ap (λ b. (output ++ line_of text) ++ (rest ++ (if b then printed garbage else [])))
                (ended_after c cs more)
              ∙ two_parts output text (left_over text garbage)))
      | inr last ↦
          rw (last, last_line text last, unended c cs last)
            (copy_end k garbage (output ++ line_of text)
              ∙ ap (λ l. ok (output ++ l)) (whole_line text last))
    ]

-- If no character of the file is 0 and both files can be opened, `print_proc_maps` ends: it writes the
-- whole file, and then, if the file is empty or its last line has an end, what the buffer holds that
-- `getline` made at the end of the file and did not fill.
pub print_proc_maps-copies :
    (text garbage : Text)
    → All (λ c. c ≢ 0) text
    → print_proc_maps (some text) true garbage ≡ ok (text ++ left_over text garbage)
unfolding print_proc_maps
print_proc_maps-copies text garbage h = copies (length text + 2) text garbage [] (omega arith) h

skip_blank :
    (blank text : Text)
    → All (λ c. is_space c ≡ true) blank
    → skip_spaces (blank ++ text) ≡ skip_spaces text
unfolding skip_spaces
skip_blank [] text h = refl
skip_blank (c ∷ cs) text h = rw h.0 (skip_blank cs text h.1)

word_ends :
    (word rest : Text)
    → All (λ c. is_space c ≡ false) word
    → first_word rest ≡ []
    → first_word (word ++ rest) ≡ word ++ []
unfolding first_word
word_ends [] rest h e = e
word_ends (c ∷ cs) rest h e = rw h.0 (ap (λ t. c ∷ t) (word_ends cs rest h.1 e))

-- The text is empty, or begins with white space.
unfoldable pub starts_blank : Text → Bool
starts_blank [] = true
starts_blank (c ∷ cs) = is_space c

blank_start : (rest : Text) → starts_blank rest ≡ true → first_word rest ≡ []
unfolding starts_blank first_word
blank_start [] h = refl
blank_start (c ∷ cs) h = rw h refl

file_readline_lem :
    (open_file : Text → Option Text) (path text : Text)
    → open_file path ≡ some text
    → file_readline open_file path ≡ first_word (skip_spaces text)
unfolding file_readline
file_readline_lem open_file path text e = rw (e, file_readline)

skip_none : (c : ℕ) (cs : Text) → is_space c ≡ false → skip_spaces (c ∷ cs) ≡ c ∷ cs
unfolding skip_spaces
skip_none c cs h = rw h

-- If the file can be opened and is white space, then a word, and then nothing or more white space and
-- what follows it, then `file_readline` returns the word, and not the rest of the line.
pub file_readline-first_word :
    (open_file : Text → Option Text) (path blank word rest : Text) (c : ℕ)
    → open_file path ≡ some (blank ++ ((c ∷ word) ++ rest))
    → All (λ c. is_space c ≡ true) blank
    → All (λ c. is_space c ≡ false) (c ∷ word)
    → starts_blank rest ≡ true
    → file_readline open_file path ≡ c ∷ word
file_readline-first_word open_file path blank word rest c e spaces letters end =
    file_readline_lem open_file path (blank ++ ((c ∷ word) ++ rest)) e
    ∙ ap first_word
        (skip_blank blank ((c ∷ word) ++ rest) spaces ∙ skip_none c (word ++ rest) letters.0)
    ∙ word_ends (c ∷ word) rest letters (blank_start rest end)
    ∙ append-nil (c ∷ word)
