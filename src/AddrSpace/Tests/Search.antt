-- ===== src/AddrSpace/Tests/Search.antt =====
-- A search from the front in a list of regions.
use Prim.Native.Nat.{Ordering, compare}
use aurora_os.Prelude.{ℕ, suc, ◌<◌, ◌≡◌, refl, List, [], ◌∷◌, inl, inr, arith, le-or-gt}
use aurora_os.Container.VecMap.{Place, found, missing, BinarySearch}
use aurora_os.AddrSpace.{MappedRegion}
use aurora_os.AddrSpace.Regions.{vec_storage}
use aurora_os.AddrSpace.Order.{SearchLaws, InOrder, Finds, at, between, After}

abbrev next_place : Place → Place
next_place (found i) = found (suc i)
next_place (missing i) = missing (suc i)

abbrev at_place : Ordering → Place → Place
at_place Ordering.lt p = next_place p
at_place Ordering.eq p = found 0
at_place Ordering.gt p = missing 0

abbrev from_front : (MappedRegion → Ordering) → List MappedRegion → Place
from_front f [] = missing 0
from_front f (r ∷ rs) = at_place (f r) (from_front f rs)

instance abbrev pub search_from_front : BinarySearch MappedRegion
search_from_front = record { binary_search_by = from_front }

pub After-above : (k j : ℕ) (rs : List MappedRegion) → k < j → After j rs → After k rs
After-above k j [] lt h = tt
After-above k j (r ∷ rs) lt (h, hs) = (omega (arith, lt, h), After-above k j rs lt hs)

pub pushed :
    (k : ℕ) (r : MappedRegion) (rs : List MappedRegion) (p : Place)
    → r.address < k
    → Finds k rs p
    → Finds k (r ∷ rs) (next_place p)
pushed k r rs p lt (at pre post x e e' q) = at (r ∷ pre) post x (rw e refl) (rw e' refl) q
pushed k r rs p lt (between pre post e e' b a) =
    between (r ∷ pre) post (rw e refl) (rw e' refl) (lt, b) a

pub from_front-Finds :
    (k : ℕ) (rs : List MappedRegion)
    → InOrder rs
    → Finds k rs (from_front (λ r. compare r.address k) rs)
unfolding InOrder
from_front-Finds k [] s = between [] [] refl refl tt tt
from_front-Finds k (r ∷ rs) (h, s) = elim (le-or-gt k r.address) [
  | inl le ↦ elim (le-or-gt r.address k) [
    | inl le' ↦
        let same : compare r.address k ≡ Ordering.eq = ground arith in
        at [] rs r (rw same refl) refl (omega arith)
    | inr gt ↦
        let above : compare r.address k ≡ Ordering.gt = ground arith in
        between [] (r ∷ rs) (rw above refl) refl tt (gt, After-above k r.address rs gt h)
  ]
  | inr lt ↦
      let below : compare r.address k ≡ Ordering.lt = ground arith in
      rw below (pushed k r rs _ lt (from_front-Finds k rs s))
]

abbrev pub front_laws : SearchLaws search_from_front
front_laws = record { finds = from_front-Finds }
