-- ===== src/Symbols/Last.antt =====
-- Which symbol `find_address` of elf/libaddr.cc takes.
use counter_rop.Common.{
  ℕ, ◌≡◌, refl, Bool, true, ◌&&◌, Option, none, some, List, [], ◌∷◌, ◌++◌, map, if◌then◌else◌, ap,
  ◌∙◌, sym, arith, Bool-cases, inl, inr,
}
use counter_rop.Common.Word.{add64}
use counter_rop.Common.Outcome.{ok, exits}
use counter_rop.Symbols.{
  Symbol, Section, Loaded, callback, dl_iterate_phdr, is_symbols, is_func, same_name, symbol_loop,
  section_loop, find_address,
}

-- The symbols of the sections that hold symbols, in the order of the file.
abbrev pub symbols_of : List Section → List Symbol
symbols_of [] = []
symbols_of (sec ∷ sections) =
    (if is_symbols sec.kind then sec.symbols else []) ++ symbols_of sections

-- The symbols with the property.
abbrev pub filter : (Symbol → Bool) → List Symbol → List Symbol
filter p [] = []
filter p (x ∷ xs) = if p x then x ∷ filter p xs else filter p xs

abbrev pub last_or : ℕ → List ℕ → ℕ
last_or a [] = a
last_or a (x ∷ xs) = last_or x xs

abbrev pub names_function : List ℕ → Symbol → Bool
names_function func_name d = is_func d.kind && same_name d.name func_name

-- The addresses of the functions of that name, in the order of the file.
abbrev pub candidates : ℕ → List ℕ → List Symbol → List ℕ
candidates offset func_name symbols =
    map (λ d. add64 offset d.value) (filter (names_function func_name) symbols)

symbol_loop-last :
    (offset : ℕ) (func_name : List ℕ) (xs : List Symbol) (addr : ℕ)
    → symbol_loop offset func_name xs addr ≡ last_or addr (candidates offset func_name xs)
unfolding symbol_loop
symbol_loop-last offset func_name [] addr = refl
symbol_loop-last offset func_name (d ∷ xs) addr = ground (
  arith,
  symbol_loop-last offset func_name xs addr,
  symbol_loop-last offset func_name xs (add64 offset d.value),
)

symbol_loop-append :
    (offset : ℕ) (func_name : List ℕ) (xs ys : List Symbol) (addr : ℕ)
    → symbol_loop offset func_name (xs ++ ys) addr
      ≡ symbol_loop offset func_name ys (symbol_loop offset func_name xs addr)
unfolding symbol_loop
symbol_loop-append offset func_name [] ys addr = refl
symbol_loop-append offset func_name (d ∷ xs) ys addr = ground (
  arith,
  symbol_loop-append offset func_name xs ys addr,
  symbol_loop-append offset func_name xs ys (add64 offset d.value),
)

section_loop-symbols :
    (offset : ℕ) (func_name : List ℕ) (sections : List Section) (addr : ℕ)
    → section_loop offset func_name sections addr
      ≡ symbol_loop offset func_name (symbols_of sections) addr
unfolding section_loop symbol_loop
section_loop-symbols offset func_name [] addr = refl
section_loop-symbols offset func_name (sec ∷ sections) addr =
    elim (Bool-cases (is_symbols sec.kind)) [
      | inl table ↦ rw table (
          section_loop-symbols offset func_name sections
            (symbol_loop offset func_name sec.symbols addr)
          ∙ sym (symbol_loop-append offset func_name sec.symbols (symbols_of sections) addr))
      | inr other ↦ rw other (section_loop-symbols offset func_name sections addr)
    ]

-- The offset that `find_address` uses: it keeps the one of its first call, which is that of the first
-- loaded object, the program itself.
abbrev pub offset_after : List ℕ → Loaded → Loaded
offset_after [] s = s
offset_after (o ∷ os) s = if s.run then s else record { run = true; offset = o }

offset_after_run : (objects : List ℕ) (s : Loaded) → s.run ≡ true → offset_after objects s ≡ s
offset_after_run [] s ran = refl
offset_after_run (o ∷ os) s ran = ap (λ b. if b then s else record { run = true; offset = o }) ran

iterate-first :
    (objects : List ℕ) (s : Loaded)
    → dl_iterate_phdr callback objects s ≡ ok (0, offset_after objects s)
unfolding dl_iterate_phdr callback
iterate-first [] s = refl
iterate-first (o ∷ os) s = elim (Bool-cases s.run) [
  | inl ran ↦ ground (arith, iterate-first os s, offset_after_run os s ran)
  | inr first ↦ ground (
    arith,
    iterate-first os (record { run = true; offset = o }),
    offset_after_run os (record { run = true; offset = o }) refl,
  )
]

-- `find_address` returns the address of the last function of that name in the file, moved by the address
-- at which the first loaded object stood when it was called first, and 0 if there is none; it ends
-- the process with status 2 if the file cannot be opened.
pub find_address-last :
    (objects : List ℕ) (file : Option (List Section)) (func_name : List ℕ) (s : Loaded)
    → find_address objects file func_name s ≡ elim file [
      | none ↦ exits 2
      | some sections ↦ ok (
        last_or 0 (candidates (offset_after objects s).offset func_name (symbols_of sections)),
        offset_after objects s,
      )
    ]
unfolding find_address
find_address-last objects none func_name s = rw (iterate-first objects s) refl
find_address-last objects (some sections) func_name s = rw (iterate-first objects s) (
    ap (λ a. ok (a, offset_after objects s))
      (section_loop-symbols (offset_after objects s).offset func_name sections 0
        ∙ symbol_loop-last (offset_after objects s).offset func_name (symbols_of sections) 0))
