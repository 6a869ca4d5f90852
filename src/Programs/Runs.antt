-- ===== src/Programs/Runs.antt =====
-- What the programs data/list/test_list.c, data/hashtable/hashtest.c and data/trap/trap_test.c print and
-- return.
use counter_rop.Common.{ℕ, ◌+◌, ◌<◌, ◌≤◌, ◌≡◌, ◌≢◌, ◌^◌, refl, true, none, List, [], ◌∷◌, arith}
use counter_rop.Common.Outcome.{ok}
use counter_rop.LinkedList.Queue.{
  list_new-Stores, list_insert-enqueue, list_pop-dequeue, list_delete_all,
}
use counter_rop.HashTable.Map.{hashtable_new-Maps, hashtable_insert-put_first, hashtable_find-Maps}
use counter_rop.HashTable.Delete.{hashtable_delete_all}
use counter_rop.Common.Word.{word_mod, add64, page_start}
use counter_rop.Analyzer.{Analyzer, poke}
use counter_rop.Analyzer.Handler.{load_bytes}
use counter_rop.Analyzer.Trap.{System, trap_setup, trap_byte}
use counter_rop.Programs.{
  key1, key2, key3, list_steps, test_list_main, table_steps, hashtest_main, trap_test_main,
}

-- With memory for three nodes, `main` of test_list.c prints the three keys in the order in which they
-- were inserted.
pub test_list_main_lem :
    (room : ℕ) → 3 ≤ room → test_list_main true room ≡ ok (key1 ∷ key2 ∷ key3 ∷ [])
unfolding test_list_main list_steps
test_list_main_lem room enough =
    let (l, made, s, r) = list_new-Stores room in
    let (l₁, one, s₁, r₁) = list_insert-enqueue l key1 [] s (omega arith) in
    let (l₂, two, s₂, r₂) = list_insert-enqueue l₁ key2 (key1 ∷ []) s₁ (omega arith) in
    let (l₃, three, s₃, r₃) = list_insert-enqueue l₂ key3 (key1 ∷ key2 ∷ []) s₂ (omega arith) in
    let (l₄, four, s₄, r₄) = list_pop-dequeue l₃ (key1 ∷ key2 ∷ key3 ∷ []) s₃ in
    let (l₅, five, s₅, r₅) = list_pop-dequeue l₄ (key2 ∷ key3 ∷ []) s₄ in
    let (l₆, six, s₆, r₆) = list_pop-dequeue l₅ (key3 ∷ []) s₅ in
    let (h, gone, _) = list_delete_all l₆ [] s₆ in
    rw (made, one, two, three, four, five, six, gone) refl

-- At two different addresses below 2 ^ 56, and with memory for two entries, `main` of hashtest.c prints
-- the byte of the second one.
pub hashtest_main_lem :
    (room val1 val2 : ℕ) (beyond : ℕ → List ℕ)
    → 2 ≤ room
    → val1 < 2 ^ 56
    → val2 < 2 ^ 56
    → val1 ≢ val2
    → hashtest_main true true room val1 val2 beyond ≡ ok 88
unfolding hashtest_main table_steps
hashtest_main_lem room val1 val2 beyond enough small1 small2 ne =
    let (t, made, maps, r) = hashtable_new-Maps 10000 room (omega arith) in
    let (t₁, one, maps₁, r₁) =
      hashtable_insert-put_first t (λ k. none) val1 79 (beyond val1) maps small1 (omega arith) in
    let (t₂, two, maps₂, r₂) =
      hashtable_insert-put_first t₁ _ val2 88 (beyond val2) maps₁ small2 (omega arith) in
    let found = hashtable_find-Maps t₂ _ val2 (beyond val2) maps₂ small2 in
    let (h, gone, _) = hashtable_delete_all t₂ maps₂.0 maps₂.1 in
    rw (made, one, two, found, gone) (ground arith)

-- If the four bytes of `a` are those of 100 and its page can be made writable, `main` of trap_test.c prints
-- 100 and returns 204: the trap byte stands in the lowest byte of `a`.
pub trap_test_main_lem :
    {Ud : Type 0} (sys : System) (val : ℕ) (s : Analyzer Ud)
    → val + 3 < word_mod
    → sys.mprotect (page_start val) ≡ true
    → s.memory val ≡ 100
    → s.memory (val + 1) ≡ 0
    → s.memory (val + 2) ≡ 0
    → s.memory (val + 3) ≡ 0
    → trap_test_main sys val s ≡ ok ((100, 204), record s { memory = poke s.memory val trap_byte })
unfolding trap_test_main trap_setup load_bytes
trap_test_main_lem sys val s small writable low second third high =
    let next1 : add64 val 1 ≡ val + 1 = omega arith in
    let next2 : add64 (add64 val 1) 1 ≡ val + 2 = omega arith in
    let next3 : add64 (add64 (add64 val 1) 1) 1 ≡ val + 3 = omega arith in
    rw (writable, next3, next2, next1) (ground arith)
