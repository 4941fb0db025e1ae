-- ===== src/Container/Tests.antt =====
-- Runs of the map of kernel/src/container/vecmap.rs with a search from the front.
use Prim.Native.Nat.{Ordering, compare}
use aurora_os.Prelude.{
  ℕ, suc, ◌==◌, ◌<◌, ◌≡◌, refl, arith, List, [], ◌∷◌, All, none, some, if◌then◌else◌, inl, inr,
  le-or-gt, true,
}
use aurora_os.KResult.{ok}
use aurora_os.Container.VecMap.{
  MapNode, Place, found, missing, BinarySearch, insert, remove, remove_gt, remove_lt,
}
use aurora_os.Container.VecMap.Sorted.{IsSorted, find}
use aurora_os.Container.VecMap.Nearest.{RemovesNext, RemovesPrevious, removes_nearest}
use aurora_os.Container.VecMap.Laws.{Finds, SearchLaws, insert_updates, remove_deletes}

abbrev Node : Type 0
Node = MapNode ℕ ℕ

abbrev key_itself : ℕ → ℕ
key_itself k = k

abbrev next_place : Place → Place
next_place (found i) = found (suc i)
next_place (missing i) = missing (suc i)

abbrev at_place : Ordering → Place → Place
at_place Ordering.lt p = next_place p
at_place Ordering.eq p = found 0
at_place Ordering.gt p = missing 0

abbrev from_front : (Node → Ordering) → List Node → Place
from_front f [] = missing 0
from_front f (n ∷ ns) = at_place (f n) (from_front f ns)

instance abbrev search_from_front : BinarySearch Node
search_from_front = record { binary_search_by = from_front }

All-above : (k j : ℕ) (ns : List Node) → k < j → All (λ n. j < n.key) ns → All (λ n. k < n.key) ns
All-above k j [] lt h = tt
All-above k j (n ∷ ns) lt (h, hs) = (omega (arith, lt, h), All-above k j ns lt hs)

pushed :
    (k : ℕ) (n : Node) (ns : List Node) (p : Place)
    → n.key < k
    → Finds key_itself k ns p
    → Finds key_itself k (n ∷ ns) (next_place p)
pushed k n ns p lt (inl (pre, x, post, e, e', r)) = inl (n ∷ pre, x, post, rw e refl, rw e' refl, r)
pushed k n ns p lt (inr (pre, post, e, e', b, a)) =
    inr (n ∷ pre, post, rw e refl, rw e' refl, (lt, b), a)

from_front-Finds :
    (k : ℕ) (ns : List Node)
    → IsSorted key_itself ns
    → Finds key_itself k ns (from_front (λ n. compare n.key k) ns)
unfolding IsSorted
from_front-Finds k [] s = inr ([], [], refl, refl, tt, tt)
from_front-Finds k (n ∷ ns) (h, s) = elim (le-or-gt k n.key) [
  | inl le ↦ elim (le-or-gt n.key k) [
    | inl le' ↦
        let same : compare n.key k ≡ Ordering.eq = ground arith in
        inl ([], n, ns, rw same refl, refl, omega arith)
    | inr gt ↦
        let above : compare n.key k ≡ Ordering.gt = ground arith in
        inr ([], n ∷ ns, rw above refl, refl, tt, (gt, All-above k n.key ns gt h))
  ]
  | inr lt ↦
      let below : compare n.key k ≡ Ordering.lt = ground arith in
      rw below (pushed k n ns _ lt (from_front-Finds k ns s))
]

abbrev front_laws : SearchLaws key_itself search_from_front
front_laws = record { finds = from_front-Finds }

abbrev two_nodes : List Node
two_nodes = record { key = 3; value = 30 } ∷ (record { key = 5; value = 50 } ∷ [])

two_nodes-IsSorted : IsSorted key_itself two_nodes
unfolding IsSorted
two_nodes-IsSorted = ((omega arith, tt), (tt, tt))

insert_updates_example :
    (nodes' : List Node) × (insert key_itself true 4 40 two_nodes ≡ ok (none, nodes'))
    × IsSorted key_itself nodes'
    × ((k : ℕ)
        → find key_itself k nodes'
          ≡ (if 4 == k then some (record { key = 4; value = 40 }) else find key_itself k two_nodes))
unfolding find
insert_updates_example = insert_updates key_itself front_laws 4 two_nodes two_nodes-IsSorted 40

remove_deletes_example :
    (nodes' : List Node) × (remove key_itself 5 two_nodes ≡ ok (some 50, nodes'))
    × IsSorted key_itself nodes'
    × ((k : ℕ) → find key_itself k nodes' ≡ (if 5 == k then none else find key_itself k two_nodes))
unfolding find
remove_deletes_example = remove_deletes key_itself front_laws 5 two_nodes two_nodes-IsSorted

removes_nearest_example :
    RemovesNext key_itself 4 two_nodes (remove_gt key_itself 4 two_nodes)
    × RemovesPrevious key_itself 4 two_nodes (remove_lt key_itself 4 two_nodes)
removes_nearest_example = removes_nearest key_itself front_laws 4 two_nodes two_nodes-IsSorted
