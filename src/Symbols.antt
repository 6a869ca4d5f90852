-- ===== src/Symbols.antt =====
-- `find_address` and `callback` of elf/libaddr.cc: where `main` of the analysed program is in memory.
-- The ELF file is what the library elf++ makes of it: a list of sections with their symbols.
pub mod Last
use counter_rop.Common.{
  ℕ, zero, suc, ◌≡◌, ◌+◌, refl, Bool, true, false, ◌||◌, ◌&&◌, not, Option, none, some, List, [],
  ◌∷◌, ◌++◌, map, ◌==◌, if◌then◌else◌, ap, ◌∙◌, sym, arith, Bool-cases, inl, inr,
}
use counter_rop.Common.Word.{add64}
use counter_rop.Common.Outcome.{
  Outcome, ok, exits, fault, out_of_fuel, Cmd, pure, get, ◌>>=◌, ◌>>◌, exit_with,
}

-- `elf::sht` and `elf::stt`, as far as `find_address` tells them apart.
pub data SectionType : Type 0 where
  symtab dynsym other_section : SectionType

pub data SymbolType : Type 0 where
  func other_symbol : SymbolType

-- A name is the list of its characters.
pub record Symbol : Type 0 where
  pub kind : SymbolType
  pub name : List ℕ
  pub value : ℕ

pub record Section : Type 0 where
  pub kind : SectionType
  pub symbols : List Symbol

-- The static `run` of `callback`, and the global `offset`.
pub record Loaded : Type 0 where
  pub run : Bool
  pub offset : ℕ

unfoldable pub callback : ℕ → Cmd Loaded ℕ
callback dlpi_addr s =
    if s.run then ok (0, s) else ok (0, record { run = true; offset = dlpi_addr })

-- `dl_iterate_phdr` calls the function for each loaded object, until it returns something else than 0.
unfoldable pub dl_iterate_phdr : (ℕ → Cmd Loaded ℕ) → List ℕ → Cmd Loaded ℕ
dl_iterate_phdr f [] = pure 0
dl_iterate_phdr f (o ∷ os) = do r ← f o; if r == 0 then dl_iterate_phdr f os else pure r

abbrev pub is_symbols : SectionType → Bool
is_symbols symtab = true
is_symbols dynsym = true
is_symbols other_section = false

abbrev pub is_func : SymbolType → Bool
is_func func = true
is_func other_symbol = false

abbrev pub same_name : List ℕ → List ℕ → Bool
same_name [] [] = true
same_name [] (y ∷ ys) = false
same_name (x ∷ xs) [] = false
same_name (x ∷ xs) (y ∷ ys) = (x == y) && same_name xs ys

-- The inner loop, over the symbols of a section; `addr` is what was found so far.
unfoldable pub symbol_loop : ℕ → List ℕ → List Symbol → ℕ → ℕ
symbol_loop offset func_name [] addr = addr
symbol_loop offset func_name (d ∷ symbols) addr =
    if not (is_func d.kind) || not (same_name d.name func_name)
    then symbol_loop offset func_name symbols addr
    else symbol_loop offset func_name symbols (add64 offset d.value)

-- The outer loop, over the sections.
unfoldable pub section_loop : ℕ → List ℕ → List Section → ℕ → ℕ
section_loop offset func_name [] addr = addr
section_loop offset func_name (sec ∷ sections) addr =
    if not (is_symbols sec.kind)
    then section_loop offset func_name sections addr
    else section_loop offset func_name sections (symbol_loop offset func_name sec.symbols addr)

-- `objects` are the loaded objects; `file` is `none` if the file cannot be opened.
unfoldable pub find_address : List ℕ → Option (List Section) → List ℕ → Cmd Loaded ℕ
find_address objects none func_name = do _ ← dl_iterate_phdr callback objects; exit_with 2
find_address objects (some sections) func_name = do
  _ ← dl_iterate_phdr callback objects
  s ← get
  pure (section_loop s.offset func_name sections 0)
