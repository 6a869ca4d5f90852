-- ===== src/Analyzer/Recover.antt =====
-- `trap_handler` of data/trap/trap.c at a trap byte that the analyser set.
use counter_rop.Common.{
  ℕ, ◌+◌, ◌-◌, ◌<◌, ◌≡◌, ◌≢◌, ne→==, ◌^◌, Bool, true, Option, some, List, ◌∙◌, arith, sym, ap, ◌==◌,
  Bool-cases, inl, inr, is_some, ==→eq, Option-cases,
}
use counter_rop.Common.Word.{sub64}
use counter_rop.Common.Outcome.{ok}
use counter_rop.HashTable.{hashtable_find}
use counter_rop.LinkedList.Chain.{contains}
use counter_rop.HashTable.Lookup.{value_or_zero}
use counter_rop.HashTable.Map.{hashtable_find-Maps}
use counter_rop.Analyzer.{Analyzer, poke}
use counter_rop.Analyzer.Armed.{Armed, IsOrTrap}
use counter_rop.Analyzer.Handler.{nested_trap, trap_handler}
use counter_rop.Analyzer.Trap.{System}
use counter_rop.Analyzer.Udis.{Disassembler}

-- Where the program stands that ran into a trap byte.
abbrev pub trap_address : {Ud : Type 0} → Analyzer Ud → ℕ
trap_address s = sub64 s.registers.rip 1

-- The state in which the byte at the address of the trap is put back.
abbrev pub stepped_back : {Ud : Type 0} → (ℕ → ℕ) → Analyzer Ud → Analyzer Ud
stepped_back orig s = record s {
  registers = record s.registers { rip = trap_address s };
  memory = poke s.memory (trap_address s) (orig (trap_address s));
}

pub held_value :
    (orig : ℕ → ℕ) (m : ℕ → Option ℕ) (a : ℕ)
    → ((a v : ℕ) → m a ≡ some v → v ≡ orig a)
    → is_some (m a) ≡ true
    → value_or_zero (m a) ≡ orig a
held_value orig m a old known = elim (Option-cases (m a)) [
  | inl unknown ↦ ground arith
  | inr (v, e) ↦ rw e (old a v e)
]

pub bytes_restored :
    (orig memory : ℕ → ℕ) (m : ℕ → Option ℕ) (b a : ℕ)
    → IsOrTrap orig memory m a
    → IsOrTrap orig (poke memory b (orig b)) m a
bytes_restored orig memory m b a h = elim (Bool-cases (a == b)) [
  | inl same ↦ inl (rw same (ap orig (sym (==→eq a b same))))
  | inr other ↦ rw other h
]

flag_down : (n : ℕ) → n + 1 - 1 ≡ n
flag_down n = omega arith

module _ (d : Disassembler) (sys : System) (garbage : ℕ) (orig : ℕ → ℕ) where
  nested_runs :
      (s : Analyzer d.Ud)
      → hashtable_find (trap_address s) (sys.beyond (trap_address s)) s.original_start_bytes
        ≡ ok (orig (trap_address s), s.original_start_bytes)
      → nested_trap d sys garbage s
        ≡ ok (tt, record (stepped_back orig s) { trap_flag = s.trap_flag + 1 - 1 })
  unfolding nested_trap
  nested_runs s found = rw found

  -- From a state in which the program is recoverable: a trap while another one is handled, at an
  -- address below 2 ^ 56 at which the analyser set a trap byte, puts the original byte back, lets the
  -- program go on at that address, and changes nothing else; the program stays recoverable.
  pub nested_trap-restores :
      (s : Analyzer d.Ud) (m : ℕ → Option ℕ) (xs : List ℕ)
      → Armed orig s m xs
      → s.trap_flag ≢ 0
      → trap_address s < 2 ^ 56
      → contains (trap_address s) xs ≡ true
      → (rounds : ℕ) (is_sigtrap : Bool)
      → (trap_handler d sys garbage rounds is_sigtrap s ≡ ok (tt, stepped_back orig s))
        × Armed orig (stepped_back orig s) m xs
  unfolding trap_handler
  nested_trap-restores s m xs h busy small member rounds is_sigtrap =
      let held =
        held_value orig m (trap_address s) h.originals (sym (h.listed (trap_address s)) ∙ member) in
      let found =
        hashtable_find-Maps s.original_start_bytes m (trap_address s) (sys.beyond (trap_address s))
          h.maps small
        ∙ ap (λ v. ok (v, s.original_start_bytes)) held in
      (
        rw (ne→== s.trap_flag 0 busy) (
            nested_runs s found
            ∙ ap (λ n. ok (tt, record (stepped_back orig s) { trap_flag = n }))
                (flag_down s.trap_flag)),
        record {
          maps = h.maps;
          stores = h.stores;
          bytes = λ a. bytes_restored orig s.memory m (trap_address s) a (h.bytes a);
          originals = h.originals;
          listed = h.listed;
        },
      )
