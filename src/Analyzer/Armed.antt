-- ===== src/Analyzer/Armed.antt =====
-- Trap bytes in the analysed program: what setting one keeps.
use counter_rop.Common.{
  false, is_some, true≢false, ==→eq, ◌⊎◌, subst, ℕ, ◌+◌, ◌<◌, ◌≤◌, ◌≡◌, ◌≢◌, ◌^◌, Bool, true, ◌||◌,
  Option, some, List, ◌∙◌, arith, ◌==◌, if◌then◌else◌, ap, sym, Bool-cases, inl, inr,
}
use counter_rop.Common.Word.{page_start}
use counter_rop.Common.Outcome.{ok, exits}
use counter_rop.LinkedList.{LinkedList, list_insert}
use counter_rop.LinkedList.Chain.{Stores, contains}
use counter_rop.LinkedList.Queue.{enqueue, list_insert-enqueue, contains-enqueue}
use counter_rop.HashTable.{HashTable, hashtable_insert}
use counter_rop.HashTable.Map.{
  Maps, put_first, put_first_present, put_first_absent, is_some-put_first,
  hashtable_insert-put_first,
}
use counter_rop.Analyzer.{Analyzer, poke}
use counter_rop.Analyzer.Trap.{System, trap_byte, trap_setup}
use counter_rop.Analyzer.PrintDis.{arm}

-- The byte at an address is the original one, or a trap byte whose original is known.
abbrev pub IsOrTrap : (ℕ → ℕ) → (ℕ → ℕ) → (ℕ → Option ℕ) → ℕ → Type 0
IsOrTrap orig memory m a = (memory a ≡ orig a) ⊎ ((is_some (m a) ≡ true) × (memory a ≡ trap_byte))

-- The program in memory is the original one but for trap bytes. The table has the original bytes `m` of
-- the addresses at which a trap byte was set, and the list has these addresses.
pub record ArmedIn (orig : ℕ → ℕ) (table : HashTable) (list : LinkedList) (memory : ℕ → ℕ)
    (m : ℕ → Option ℕ) (xs : List ℕ) : Type 0 where
  pub maps : Maps table m
  pub stores : Stores list xs
  pub bytes : (a : ℕ) → IsOrTrap orig memory m a
  pub originals : (a v : ℕ) → m a ≡ some v → v ≡ orig a
  pub listed : (a : ℕ) → contains a xs ≡ is_some (m a)

abbrev pub Armed : {Ud : Type 0} → (ℕ → ℕ) → Analyzer Ud → (ℕ → Option ℕ) → List ℕ → Type 0
Armed orig s m xs = ArmedIn orig s.original_start_bytes s.start_byte_list s.memory m xs

known_first :
    (m : ℕ → Option ℕ) (base v a : ℕ) → is_some (m a) ≡ true → is_some (put_first m base v a) ≡ true
known_first m base v a h = is_some-put_first m base v a ∙ ground arith

known_self : (m : ℕ → Option ℕ) (base v : ℕ) → is_some (put_first m base v base) ≡ true
known_self m base v = is_some-put_first m base v base ∙ ground arith

bytes_armed :
    (orig memory : ℕ → ℕ) (m : ℕ → Option ℕ) (base v a : ℕ)
    → IsOrTrap orig memory m a
    → IsOrTrap orig (poke memory base trap_byte) (put_first m base v) a
bytes_armed orig memory m base v a h = elim (Bool-cases (a == base)) [
  | inl same ↦ inr (
    subst (λ b. is_some (put_first m base v b) ≡ true) (sym (==→eq a base same))
        (known_self m base v),
    rw same,
  )
  | inr other ↦ elim h [
    | inl e ↦ inl (rw other e)
    | inr (known, e) ↦ inr (known_first m base v a known, rw other e)
  ]
]

pub unknown_original :
    (orig memory : ℕ → ℕ) (m : ℕ → Option ℕ) (a : ℕ)
    → IsOrTrap orig memory m a
    → is_some (m a) ≡ false
    → memory a ≡ orig a
unknown_original orig memory m a (inl e) absent = e
unknown_original orig memory m a (inr (known, e)) absent = absurd (true≢false (sym known ∙ absent))

originals_armed :
    (orig memory : ℕ → ℕ) (m : ℕ → Option ℕ) (base : ℕ)
    → IsOrTrap orig memory m base
    → ((a v : ℕ) → m a ≡ some v → v ≡ orig a)
    → (a v : ℕ) → put_first m base (memory base) a ≡ some v
    → v ≡ orig a
originals_armed orig memory m base h old a v e = elim (Bool-cases (is_some (m base))) [
  | inl present ↦ old a v (sym (put_first_present m base (memory base) a present) ∙ e)
  | inr absent ↦ ground (
    arith,
    put_first_absent m base (memory base) a absent,
    unknown_original orig memory m base h absent,
    old a v,
  )
]

module _ {Ud : Type 0} (sys : System) (orig : ℕ → ℕ) (s : Analyzer Ud) (m : ℕ → Option ℕ)
    (xs : List ℕ) where
  -- `trapSetup` returns the byte at the address and puts the trap byte there; it ends the process with
  -- status 2 if the page cannot be made writable.
  pub trap_setup_lem :
      (address : ℕ)
      → trap_setup sys address s ≡ (
          if sys.mprotect (page_start address)
          then ok (s.memory address, record s { memory = poke s.memory address trap_byte })
          else exits 2)
  unfolding trap_setup
  trap_setup_lem address = ground arith

  arm_step :
      (base : ℕ) (l : LinkedList) (t : HashTable) (r : ℕ) (b : Bool)
      → sys.mprotect (page_start base) ≡ true
      → list_insert base s.start_byte_list ≡ ok (r, l)
      → hashtable_insert base (sys.beyond base) (s.memory base) s.original_start_bytes ≡ ok (b, t)
      → arm sys base s
        ≡ ok (
          tt,
          record s {
            start_byte_list = l;
            original_start_bytes = t;
            memory = poke s.memory base trap_byte;
          },
        )
  unfolding arm trap_setup
  arm_step base l t r b writable listed stored = ground arith

  -- The two structures after `arm`, and what is left of their memory.
  pub arm_outcome :
      (base : ℕ)
      → Armed orig s m xs
      → base < 2 ^ 56
      → sys.mprotect (page_start base) ≡ true
      → 0 < s.start_byte_list.heap.room
      → 0 < s.original_start_bytes.heap.room
      → (l : LinkedList) × (t : HashTable) × (arm sys base s
          ≡ ok (
            tt,
            record s {
              start_byte_list = l;
              original_start_bytes = t;
              memory = poke s.memory base trap_byte;
            },
          ))
        × Armed orig
            (record s {
              start_byte_list = l;
              original_start_bytes = t;
              memory = poke s.memory base trap_byte;
            })
            (put_first m base (s.memory base))
            (enqueue base xs)
        × (s.start_byte_list.heap.room ≤ l.heap.room + 1)
        × (s.original_start_bytes.heap.room ≤ t.heap.room + 1)
  arm_outcome base h small writable list_room table_room =
      let (l, listed, stores, list_left) =
        list_insert-enqueue s.start_byte_list base xs h.stores list_room in
      let (t, put, maps, table_left) =
        hashtable_insert-put_first s.original_start_bytes m base (s.memory base) (sys.beyond base)
          h.maps small table_room in
      (
        l,
        t,
        arm_step base l t _ _ writable listed put,
        record {
          maps = maps;
          stores = stores;
          bytes = λ a. bytes_armed orig s.memory m base (s.memory base) a (h.bytes a);
          originals = originals_armed orig s.memory m base (h.bytes base) h.originals;
          listed = λ a.
              contains-enqueue a base xs
              ∙ ap (λ b. (base == a) || b) (h.listed a)
              ∙ sym (is_some-put_first m base (s.memory base) a);
        },
        list_left,
        table_left,
      )

  -- From a recoverable state, at an address below 2 ^ 56 whose page can be made writable, and with memory
  -- left for the list and for the table, arming a site succeeds, whether it is armed already or not, puts
  -- a trap byte there, and the program stays recoverable: the table keeps the byte that stood there first.
  pub arm-Armed :
      (base : ℕ)
      → Armed orig s m xs
      → base < 2 ^ 56
      → sys.mprotect (page_start base) ≡ true
      → 0 < s.start_byte_list.heap.room
      → 0 < s.original_start_bytes.heap.room
      → (s' : Analyzer Ud) × (arm sys base s ≡ ok (tt, s'))
        × Armed orig s' (put_first m base (s.memory base)) (enqueue base xs)
        × (s'.memory base ≡ trap_byte)
  arm-Armed base h small writable list_room table_room =
      let (l, t, run, armed, _, _) = arm_outcome base h small writable list_room table_room in
      (_, run, armed, ground arith)

-- An address that `shutdown` can restore.
abbrev pub IsSite : System → ℕ → Type 0
IsSite sys a = (a ≢ 0) × (a < 2 ^ 56) × (sys.mprotect (page_start a) ≡ true)
