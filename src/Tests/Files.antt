-- ===== src/Tests/Files.antt =====
-- The functions of elf/libaddr.cc on files: `find_address` at a file with three symbols, and the functions
-- that read texts and directories.
use counter_rop.Common.{arith, refl, ℕ, ◌≡◌, List, [], ◌∷◌, some, false, true}
use counter_rop.Common.Outcome.{ok}
use counter_rop.Symbols.{Symbol, Section, symtab, other_section, func, find_address}
use counter_rop.Files.{
  Text, print_proc_maps, file_readline, find_in_dir, dir_loop, has_substr, is_prefix, printed,
}
use counter_rop.Files.Copy.{
  print_proc_maps-copies, file_readline-first_word, ends_line, starts_blank,
}
use counter_rop.Files.Pick.{Picks, Occurs, find_in_dir-Picks}
use counter_rop.Symbols.Last.{find_address-last}

-- "main".
abbrev main_name : List ℕ
main_name = 109 ∷ 97 ∷ 105 ∷ 110 ∷ []

abbrev symbol : List ℕ → ℕ → Symbol
symbol n v = record { kind = func; name = n; value = v }

-- Two functions `main` in a symbol table, and one in a section of another kind.
abbrev file : List Section
file =
    record {
      kind = symtab;
      symbols = symbol main_name 16 ∷ symbol (120 ∷ []) 32 ∷ symbol main_name 48 ∷ [];
    }
    ∷ record { kind = other_section; symbols = symbol main_name 64 ∷ [] }
    ∷ []

find_address-last_example :
    find_address (4096 ∷ 8192 ∷ []) (some file) main_name (record { run = false; offset = 0 })
    ≡ ok (4144, record { run = true; offset = 4096 })
find_address-last_example =
    find_address-last (4096 ∷ 8192 ∷ []) (some file) main_name (record { run = false; offset = 0 })

-- "ab" and a line end.
abbrev line : Text
line = 97 ∷ 98 ∷ 10 ∷ []

print_proc_maps-copies_example :
    print_proc_maps (some line) true (63 ∷ 0 ∷ 97 ∷ []) ≡ ok (97 ∷ 98 ∷ 10 ∷ 63 ∷ [])
unfolding printed ends_line
print_proc_maps-copies_example =
    print_proc_maps-copies line (63 ∷ 0 ∷ 97 ∷ []) (omega arith, (omega arith, (omega arith, tt)))

-- "  ab cd".
file_readline-first_word_example :
    file_readline (λ _. some (32 ∷ 32 ∷ 97 ∷ 98 ∷ 32 ∷ 99 ∷ 100 ∷ [])) [] ≡ 97 ∷ 98 ∷ []
unfolding starts_blank
file_readline-first_word_example =
    file_readline-first_word (λ _. some (32 ∷ 32 ∷ 97 ∷ 98 ∷ 32 ∷ 99 ∷ 100 ∷ [])) [] (32 ∷ 32 ∷ [])
      (98 ∷ []) (32 ∷ 99 ∷ 100 ∷ []) 97 refl (refl, (refl, tt)) (refl, (refl, tt)) refl

abbrev entries : List Text
entries = (97 ∷ 98 ∷ []) ∷ (99 ∷ []) ∷ (99 ∷ 98 ∷ 97 ∷ []) ∷ []

find_in_dir-Picks_example :
    (found : List Text) × (find_in_dir (λ _. some entries) [] (98 ∷ []) ≡ ok found)
    × Picks (Occurs (98 ∷ [])) entries found
find_in_dir-Picks_example = find_in_dir-Picks (λ _. some entries) [] (98 ∷ []) entries refl

finds_two :
    find_in_dir (λ _. some entries) [] (98 ∷ []) ≡ ok ((97 ∷ 98 ∷ []) ∷ (99 ∷ 98 ∷ 97 ∷ []) ∷ [])
unfolding find_in_dir dir_loop has_substr is_prefix
finds_two = refl
