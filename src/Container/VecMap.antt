-- ===== src/Container/VecMap.antt =====
-- kernel/src/container/vecmap.rs: a map as a vector of nodes that is sorted by key. A key is
-- compared by its rank, a number. The binary search is that of the library for slices.
pub mod Sorted
pub mod Laws
pub mod Nearest
use Prim.Native.Nat.{Ordering, compare}
use aurora_os.Prelude.{
  ℕ, zero, suc, ◌-◌, ◌==◌, List, [], ◌∷◌, Bool, Option, none, some, get_elem?, map, if◌then◌else◌,
}
use aurora_os.KResult.{KResult, ok, err, panic, ◌>>=◌}
use aurora_os.Container.Vec

pub record MapNode (K V : Type 0) : Type 0 where
  pub key : K
  pub value : V

-- `Ok` and `Err` of a binary search.
pub data Place : Type 0 where
  found missing : ℕ → Place

-- `binary_search_by` of slices.
pub record BinarySearch (A : Type 0) : Type 0 where
  pub binary_search_by : (A → Ordering) → List A → Place

module _ {K V : Type 0} (rank : K → ℕ) ⦃bs : BinarySearch (MapNode K V)⦄ where
  unfoldable pub search : K → List (MapNode K V) → Place
  search key = bs.binary_search_by (λ node. compare (rank node.key) (rank key))

  unfoldable pub get : K → List (MapNode K V) → KResult (Option V)
  get key nodes = elim (search key nodes) [
    | found index ↦ elim (get_elem? nodes index) [ none ↦ panic | some node ↦ ok (some node.value) ]
    | missing index ↦ ok none
  ]

  -- The old value of the key, and the map; an error leaves the map as it is.
  unfoldable pub insert :
      Bool → K → V → List (MapNode K V) → KResult (Option V × List (MapNode K V))
  insert room key value nodes =
      let node : MapNode K V = record { key = key; value = value } in
      elim (search key nodes) [
        | found index ↦ do (old, nodes') ← Vec.replace index node nodes; ok (some old.value, nodes')
        | missing index ↦ do nodes' ← Vec.insert room index node nodes; ok (none, nodes')
      ]

  unfoldable pub remove : K → List (MapNode K V) → KResult (Option V × List (MapNode K V))
  remove key nodes = elim (search key nodes) [
    | found index ↦ do (old, nodes') ← Vec.remove index nodes; ok (some old.value, nodes')
    | missing index ↦ ok (none, nodes)
  ]

  -- The result of a removal of a node, if there was one.
  abbrev removed :
      List (MapNode K V)
      → Option (MapNode K V × List (MapNode K V))
      → KResult (Option (MapNode K V) × List (MapNode K V))
  removed nodes none = ok (none, nodes)
  removed nodes (some (node, nodes')) = ok (some node, nodes')

  unfoldable pub remove_gt :
      K → List (MapNode K V) → KResult (Option (MapNode K V) × List (MapNode K V))
  remove_gt key nodes = elim (search key nodes) [
    | found index ↦ do (node, nodes') ← Vec.remove index nodes; ok (some node, nodes')
    | missing index ↦ removed nodes (Vec.try_remove index nodes)
  ]

  unfoldable pub remove_lt :
      K → List (MapNode K V) → KResult (Option (MapNode K V) × List (MapNode K V))
  remove_lt key nodes = elim (search key nodes) [
    | found index ↦ do (node, nodes') ← Vec.remove index nodes; ok (some node, nodes')
    | missing index ↦
        if index == 0
        then ok (none, nodes)
        else (do (node, nodes') ← Vec.remove (index - 1) nodes; ok (some node, nodes'))
  ]
