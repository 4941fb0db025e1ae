-- ===== src/Container/BinaryHeap/Places.antt =====
-- Reading and writing places of a list, for kernel/src/container/binary_heap.rs.
use mathlib.Core.List.{Perm}
use mathlib.Core.List.Perm
use aurora_os.Prelude.{
  ℕ, zero, suc, ◌<◌, ◌≡◌, ◌==◌, refl, ap, ◌∙◌, arith, List, [], ◌∷◌, some, length, get_elem?, set,
  if◌then◌else◌,
}
use aurora_os.KResult.{ok}
use aurora_os.Container.BinaryHeap.{at, swap}

module _ {T : Type 0} where
  pub get_elem?_inside : (xs : List T) (i : ℕ) → i < length xs → (x : T) × (get_elem? xs i ≡ some x)
  get_elem?_inside [] i h = absurd (omega arith)
  get_elem?_inside (x ∷ xs) zero h = (x, refl)
  get_elem?_inside (x ∷ xs) (suc i) h = get_elem?_inside xs i (omega arith)

  pub length-set : (xs : List T) (i : ℕ) (v : T) → length (set xs i v) ≡ length xs
  length-set [] i v = refl
  length-set (x ∷ xs) zero v = refl
  length-set (x ∷ xs) (suc i) v = ap suc (length-set xs i v)

  get_elem?-set :
      (xs : List T) (i c : ℕ) (v : T)
      → i < length xs
      → get_elem? (set xs i v) c ≡ (if i == c then some v else get_elem? xs c)
  get_elem?-set [] i c v h = absurd (omega arith)
  get_elem?-set (x ∷ xs) zero zero v h = refl
  get_elem?-set (x ∷ xs) zero (suc c) v h = ground arith
  get_elem?-set (x ∷ xs) (suc i) zero v h = ground arith
  get_elem?-set (x ∷ xs) (suc i) (suc c) v h = ground (arith, get_elem?-set xs i c v)

  -- A write trades what stood at the place for what is written.
  set-Perm :
      (xs : List T) (i : ℕ) (x v : T) → get_elem? xs i ≡ some x → Perm (x ∷ set xs i v) (v ∷ xs)
  set-Perm [] i x v e = cc
  set-Perm (y ∷ xs) zero x v e = let same : y ≡ x = cc in rw same (Perm.swap v x xs)
  set-Perm (y ∷ xs) (suc i) x v e =
      Perm.trans (Perm.swap y x (set xs i v))
        (Perm.trans (Perm.cons y (set-Perm xs i x v e)) (Perm.swap v y xs))

  module _ (xs : List T) (i j : ℕ) (x y : T) (hi : i < length xs) (hj : j < length xs)
      (ei : get_elem? xs i ≡ some x) (ej : get_elem? xs j ≡ some y) where
    abbrev pub swapped : List T
    swapped = set (set xs i y) j x

    pub swap-ok : swap xs i j ≡ ok swapped
    unfolding swap at
    swap-ok = rw (swap, at, ei, ej) refl

    pub length-swapped : length swapped ≡ length xs
    length-swapped = length-set (set xs i y) j x ∙ length-set xs i y

    pub get_elem?-swapped :
        (c : ℕ)
        → get_elem? swapped c
          ≡ (if j == c then some x else if i == c then some y else get_elem? xs c)
    get_elem?-swapped c =
        rw (get_elem?-set (set xs i y) j c x (rw length-set hj), get_elem?-set xs i c y hi) refl

    pub swapped-Perm : Perm swapped xs
    swapped-Perm =
        let read : get_elem? (set xs i y) j ≡ some y =
          rw (get_elem?-set xs i j y hi) (ground (arith, ej)) in
        Perm.cons_inv (Perm.trans (set-Perm (set xs i y) j y x read) (set-Perm xs i x y ei))
