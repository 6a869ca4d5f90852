-- ===== src/LinkedList/Find.antt =====
-- `list_find` on a well-formed list.
use counter_rop.Common.{ℕ, zero, suc, ◌<◌, ◌≡◌, refl, [], ◌∷◌, arith, length, if◌then◌else◌}
use counter_rop.Common.Outcome.{ok}
use counter_rop.Common.Heap.{null}
use counter_rop.LinkedList.{LinkedList, load, find_loop, list_find, list_node}
use counter_rop.LinkedList.Chain.{Nodes, Chain, Holds, first, addresses, contains}

pub load_chain :
    (l : LinkedList) (d p a : ℕ) (r : Nodes)
    → Chain l.heap.cell d ((p, a) ∷ r)
    → load p l ≡ ok (list_node a (first r) d, l)
unfolding load
load_chain l d p a r h = ground arith

find_loop-contains :
    (l : LinkedList) (a d k : ℕ) (ns : Nodes)
    → Chain l.heap.cell d ns
    → length ns < k
    → find_loop k (first ns) a l ≡ ok ((if contains a (addresses ns) then 1 else 0), l)
unfolding find_loop
find_loop-contains l a d zero ns h fuel = absurd (omega arith)
find_loop-contains l a d (suc k) [] h fuel = refl
find_loop-contains l a d (suc k) ((p, b) ∷ r) h fuel =
    ground (arith, load_chain l d p b r h, find_loop-contains l a p k r h.2)

pub list_find-Holds :
    (l : LinkedList) (a : ℕ) (ns : Nodes)
    → Holds l ns
    → list_find a l ≡ ok ((if contains a (addresses ns) then 1 else 0), l)
unfolding list_find
list_find-Holds l a ns h =
    simp h.head_first (find_loop-contains l a null l.heap.fresh ns h.chain h.sized)
