-- ===== src/Programs.antt =====
-- The small programs beside the sources: data/list/test_list.c, data/hashtable/hashtest.c and
-- data/trap/trap_test.c. What a program prints is what it returns here.
pub mod Runs
use counter_rop.Common.{ℕ, Bool, some, List, [], ◌∷◌}
use counter_rop.Common.Outcome.{Outcome, ok, Cmd, pure, get, ◌>>=◌, ◌>>◌, then_with}
use counter_rop.LinkedList.{LinkedList, list_new, list_insert, list_pop, list_delete}
use counter_rop.HashTable.{
  HashTable, hashtable_new, hashtable_insert, hashtable_find, hashtable_delete,
}
use counter_rop.Analyzer.{Analyzer}
use counter_rop.Analyzer.Handler.{load_bytes}
use counter_rop.Analyzer.Trap.{System, trap_setup}

abbrev pub key1 : ℕ
key1 = 0xffff_ffff_ffff_1234

abbrev pub key2 : ℕ
key2 = 0xffff_ffff_ffff_5678

abbrev pub key3 : ℕ
key3 = 0xffff_ffff_ffff_9876

unfoldable pub list_steps : Cmd LinkedList (List ℕ)
list_steps = do
  _ ← list_insert key1
  _ ← list_insert key2
  _ ← list_insert key3
  val1 ← list_pop
  val2 ← list_pop
  val3 ← list_pop
  pure (val1 ∷ val2 ∷ val3 ∷ [])

-- `main` of test_list.c, and the three values that it prints.
unfoldable pub test_list_main : (made : Bool) (room : ℕ) → Outcome (List ℕ)
test_list_main made room = then_with (list_new made room) (λ list.
    then_with (list_steps list)
      (λ (vals, list'). then_with (list_delete (some list')) (λ _. ok vals)))

-- `val1` and `val2` are the addresses of `val9` and of `val1`; `beyond` is what stands in memory behind
-- a variable.
unfoldable pub table_steps : (val1 val2 : ℕ) → (ℕ → List ℕ) → Cmd HashTable ℕ
table_steps val1 val2 beyond = do
  _ ← hashtable_insert val1 (beyond val1) 79
  _ ← hashtable_insert val2 (beyond val2) 88
  hashtable_find val2 (beyond val2)

-- `main` of hashtest.c, and the answer that it prints.
unfoldable pub hashtest_main : (made array : Bool) (room val1 val2 : ℕ) → (ℕ → List ℕ) → Outcome ℕ
hashtest_main made array room val1 val2 beyond =
    then_with (hashtable_new made array 10000 room) (λ ht.
      then_with (table_steps val1 val2 beyond ht)
        (λ (ans, ht'). then_with (hashtable_delete (some ht')) (λ _. ok ans)))

-- `main` of trap_test.c, with `a` at `val`: the byte that it prints, and what it returns.
unfoldable pub trap_test_main : {Ud : Type 0} → System → ℕ → Cmd (Analyzer Ud) (ℕ × ℕ)
trap_test_main sys val = do
  byte ← trap_setup sys val
  s ← get
  pure (byte, load_bytes 4 s.memory val)
