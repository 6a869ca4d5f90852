-- ===== src/LinkedList/Chain.antt =====
-- What a well-formed list of data/list/list.c looks like in memory: the nodes in order, linked both
-- ways, and nothing else.
use counter_rop.Common.{
  ℕ, ◌+◌, ◌<◌, ◌≡◌, ◌≢◌, refl, Bool, true, false, ◌||◌, Option, none, some, List, [], ◌∷◌, ◌++◌,
  map, arith, ◌==◌, length,
}
use counter_rop.Common.Heap.{Ptr, null, update}
use counter_rop.LinkedList.{ListNode, list_node, LinkedList}

-- The nodes, from head to tail: where each stands and the address that it stores.
abbrev pub Nodes : Type 0
Nodes = List (Ptr × ℕ)

abbrev pub Cells : Type 0
Cells = Ptr → Option ListNode

abbrev pub first : Nodes → Ptr
first [] = null
first ((p, _) ∷ _) = p

abbrev pub last : Ptr → Nodes → Ptr
last d [] = d
last d ((p, _) ∷ r) = last p r

abbrev pub has : Ptr → Nodes → Bool
has p [] = false
has p ((q, _) ∷ r) = (p == q) || has p r

abbrev pub addresses : Nodes → List ℕ
addresses = map λ n. n.1

abbrev pub contains : ℕ → List ℕ → Bool
contains a [] = false
contains a (x ∷ r) = (x == a) || contains a r

abbrev pub Distinct : Nodes → Type 0
Distinct [] = Unit {0}
Distinct ((p, _) ∷ r) = (has p r ≡ false) × Distinct r

abbrev pub Below : Ptr → Nodes → Type 0
Below n [] = Unit {0}
Below n ((p, _) ∷ r) = (p < n) × Below n r

-- `prev` is what the first node has behind it.
abbrev pub Chain : Cells → (prev : Ptr) → Nodes → Type 0
Chain c prev [] = Unit {0}
Chain c prev ((p, a) ∷ r) = (p ≢ null) × (c p ≡ some (list_node a (first r) prev)) × Chain c p r

pub record Holds (l : LinkedList) (ns : Nodes) : Type 0 where
  pub head_first : l.head ≡ first ns
  pub tail_last : l.tail ≡ last null ns
  pub chain : Chain l.heap.cell null ns
  pub distinct : Distinct ns
  pub below : Below l.heap.fresh ns
  pub sized : length ns < l.heap.fresh
  pub exact : (p : Ptr) → has p ns ≡ false → l.heap.cell p ≡ none

-- The list stores these addresses, oldest first.
abbrev pub Stores : LinkedList → List ℕ → Type 0
Stores l xs = (ns : Nodes) × Holds l ns × (addresses ns ≡ xs)

pub Chain-frame :
    (c : Cells) (p : Ptr) (v : Option ListNode) (d : Ptr) (ns : Nodes)
    → Chain c d ns
    → has p ns ≡ false
    → Chain (update c p v) d ns
Chain-frame c p v d [] h out = tt
Chain-frame c p v d ((q, a) ∷ r) h out =
    (h.0, ground arith, Chain-frame c p v q r h.2 (ground arith))

pub Below-fresh : (n : Ptr) (ns : Nodes) → Below n ns → has n ns ≡ false
Below-fresh n [] b = refl
Below-fresh n ((p, a) ∷ r) b = ground (arith, Below-fresh n r b.1)

pub has-last : (d p : Ptr) (a : ℕ) (r : Nodes) → has (last d ((p, a) ∷ r)) ((p, a) ∷ r) ≡ true
has-last d p a [] = ground arith
has-last d p a ((q, b) ∷ r) = ground (arith, has-last p q b r)

-- A write to a node of the list spares a cell that is none of its nodes.
pub update_spares :
    (c : Cells) (p q : Ptr) (v : Option ListNode) (ns : Nodes)
    → has p ns ≡ false
    → has q ns ≡ true
    → update c q v p ≡ c p
update_spares c p q v ns out member = ground arith

pub has-append : (p : Ptr) (ms ns : Nodes) → has p (ms ++ ns) ≡ (has p ms || has p ns)
has-append p [] ns = refl
has-append p ((q, a) ∷ ms) ns = ground (arith, has-append p ms ns)

pub not_has_left : (p : Ptr) (ms ns : Nodes) → has p (ms ++ ns) ≡ false → has p ms ≡ false
not_has_left p ms ns out = ground (arith, has-append p ms ns)

pub last-snoc : (d p a : ℕ) (ns : Nodes) → last d (ns ++ (p, a) ∷ []) ≡ p
last-snoc d p a [] = refl
last-snoc d p a ((q, b) ∷ ns) = last-snoc q p a ns

pub Distinct-snoc :
    (p a : ℕ) (ns : Nodes) → Distinct ns → has p ns ≡ false → Distinct (ns ++ (p, a) ∷ [])
Distinct-snoc p a [] d out = (refl, tt)
Distinct-snoc p a ((q, b) ∷ ns) d out =
    (ground (arith, has-append q ns ((p, a) ∷ [])), Distinct-snoc p a ns d.1 (ground arith))

pub Below-snoc : (n a : ℕ) (ns : Nodes) → Below n ns → Below (n + 1) (ns ++ (n, a) ∷ [])
Below-snoc n a [] b = (omega arith, tt)
Below-snoc n a ((q, b) ∷ ns) h = (omega arith, Below-snoc n a ns h.1)

pub has-first : (p a : ℕ) (r : Nodes) → has p ((p, a) ∷ r) ≡ true
has-first p a r = ground arith
