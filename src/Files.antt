-- ===== src/Files.antt =====
-- The functions of elf/libaddr.cc that read files and directories: `file_readline`, `find_in_dir` and
-- `print_proc_maps`. What the system has in a file or a directory is an argument.
pub mod Copy
pub mod Pick
use counter_rop.Common.{
  ℕ, zero, suc, ◌+◌, ◌==◌, ltb, ◌||◌, ◌&&◌, not, if◌then◌else◌, Bool, true, false, Option, none,
  some, is_some, List, [], ◌∷◌, ◌++◌, length,
}
use counter_rop.Common.Outcome.{Outcome, ok, fault, out_of_fuel}

-- A text is the list of its characters.
abbrev pub Text : Type 0
Text = List ℕ

abbrev pub is_space : ℕ → Bool
is_space c = (c == 32) || (ltb 8 c && ltb c 14)

unfoldable pub skip_spaces : Text → Text
skip_spaces [] = []
skip_spaces (c ∷ cs) = if is_space c then skip_spaces cs else c ∷ cs

unfoldable pub first_word : Text → Text
first_word [] = []
first_word (c ∷ cs) = if is_space c then [] else c ∷ first_word cs

-- `in >> str`. If the file cannot be opened, the string stays empty.
unfoldable pub file_readline : (Text → Option Text) → Text → Text
file_readline open_file path = elim (open_file path) [
  | none ↦ []
  | some text ↦ first_word (skip_spaces text)
]

unfoldable pub is_prefix : Text → Text → Bool
is_prefix [] path = true
is_prefix (c ∷ substr) [] = false
is_prefix (c ∷ substr) (d ∷ path) = (c == d) && is_prefix substr path

-- `path.find(substr) != string::npos`.
unfoldable pub has_substr : Text → Text → Bool
has_substr substr [] = is_prefix substr []
has_substr substr (c ∷ path) = is_prefix substr (c ∷ path) || has_substr substr path

-- The loop, over the entries that `readdir` returns; `res` is what was found so far.
unfoldable pub dir_loop : Text → List Text → List Text → List Text
dir_loop substr [] res = res
dir_loop substr (path ∷ entries) res =
    if has_substr substr path
    then dir_loop substr entries (res ++ path ∷ [])
    else dir_loop substr entries res

-- `opendir` returns a null pointer if it fails, and `readdir` is given it.
unfoldable pub find_in_dir : (Text → Option (List Text)) → Text → Text → Outcome (List Text)
find_in_dir opendir dir substr = elim (opendir dir) [
  | none ↦ fault
  | some entries ↦ ok (dir_loop substr entries [])
]

-- What is left to be read, and whether a read met the end.
pub record Stream : Type 0 where
  pub rest : Text
  pub eof : Bool

-- The characters up to the end of the line, with it.
unfoldable pub line_of : Text → Text
line_of [] = []
line_of (c ∷ cs) = if c == 10 then c ∷ [] else c ∷ line_of cs

unfoldable pub after_line : Text → Text
after_line [] = []
after_line (c ∷ cs) = if c == 10 then cs else after_line cs

unfoldable pub has_newline : Text → Bool
has_newline [] = false
has_newline (c ∷ cs) = (c == 10) || has_newline cs

-- With nothing left, `getline` makes a buffer and does not fill it: `garbage` is what it holds.
unfoldable pub getline : Text → Stream → Text × Stream
getline garbage input = elim input.rest [
  | [] ↦ (garbage, record { rest = []; eof = true })
  | c ∷ cs ↦
      (line_of (c ∷ cs), record { rest = after_line (c ∷ cs); eof = not (has_newline (c ∷ cs)) })
]

-- What `%s` prints of a buffer.
unfoldable pub printed : Text → Text
printed [] = []
printed (c ∷ cs) = if c == 0 then [] else c ∷ printed cs

-- The loop; `output` is what was written so far.
unfoldable pub copy_loop : ℕ → Text → Stream → Text → Outcome Text
copy_loop zero garbage input output = out_of_fuel
copy_loop (suc k) garbage input output =
    let (line, input') = getline garbage input in
    let rest = copy_loop k garbage input' (output ++ printed line) in
    if input.eof then ok output else rest

-- The files are `none` and `false` if they cannot be opened; the streams are used without a test.
unfoldable pub print_proc_maps : (maps : Option Text) (log : Bool) (garbage : Text) → Outcome Text
print_proc_maps none log garbage = fault
print_proc_maps (some text) false garbage = fault
print_proc_maps (some text) true garbage =
    copy_loop (length text + 2) garbage (record { rest = text; eof = false }) []
