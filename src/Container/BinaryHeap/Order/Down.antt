-- ===== src/Container/BinaryHeap/Order/Down.antt =====
-- What the loop of pop restores.
use mathlib.Core.List.Perm
use aurora_os.Prelude.{
  ℕ, zero, suc, ◌+◌, ◌-◌, ◌*◌, ◌/◌, ◌≤◌, ◌<◌, ◌≡◌, ◌≢◌, ◌⊎◌, refl, arith, List, Option, none, some,
  true, Bool-cases, inl, inr, ltb, leb, ltb→lt, length, get_elem?,
}
use aurora_os.KResult.{KResult, ok}
use aurora_os.Container.BinaryHeap.{Ord, sift_down, largest_child, larger}
use aurora_os.Container.BinaryHeap.Places.{
  get_elem?_inside, swapped, swap-ok, length-swapped, swapped-Perm,
}
use aurora_os.Container.BinaryHeap.Order.{OrdersBy, key, key-swapped, below-ok, Sifts, Sifts-Perm}

two_children : (i c : ℕ) → 0 < c → (c - 1) / 2 ≡ i → (c ≡ i * 2 + 1) ⊎ (c ≡ i * 2 + 2)
two_children i c p e = omega arith

module _ {T : Type 0} (rank : T → ℕ) where
  -- The element at `i` may be less than those below it.
  pub record Sinking (xs : List T) (i : ℕ) : Type 0 where
    pub others :
        (c : ℕ)
        → 0 < c
        → c < length xs
        → (c - 1) / 2 ≢ i
        → key rank xs ((c - 1) / 2) ≤ key rank xs c
    pub around :
        (c : ℕ)
        → 0 < c
        → c < length xs
        → (c - 1) / 2 ≡ i
        → 0 < i
        → key rank xs ((i - 1) / 2) ≤ key rank xs c

  -- A child that no other child is greater than.
  record IsLargest (xs : List T) (i m : ℕ) : Type 0 where
    inside : m < length xs
    child : (m ≡ 2 * i + 1) ⊎ (m ≡ 2 * i + 2)
    first : (c : ℕ) → 0 < c → c < length xs → (c - 1) / 2 ≡ i → key rank xs m ≤ key rank xs c

  data Largest (xs : List T) (i : ℕ) : KResult (Option ℕ) → Type 0 where
    leaf : length xs ≤ 2 * i + 1 → Largest xs i (ok none)
    child : (m : ℕ) → IsLargest xs i m → Largest xs i (ok (some m))

  module _ ⦃ord : Ord T⦄ (orders : OrdersBy ord rank) where
    largest_child-Largest : (xs : List T) (i : ℕ) → Largest xs i (largest_child xs i)
    unfolding largest_child larger
    largest_child-Largest xs i = elim (Bool-cases (leb (length xs) (i * 2 + 1))) [
      | inl none_left ↦
          let none_right : leb (length xs) (i * 2 + 2) ≡ true = ground arith in
          rw (largest_child, larger, none_left, none_right) (Largest.leaf (ground arith))
      | inr left ↦ elim (Bool-cases (leb (length xs) (i * 2 + 2))) [
        | inl none_right ↦
            rw (largest_child, larger, left, none_right)
              (Largest.child (i * 2 + 1) (record {
                inside = ground arith;
                child = inl (omega arith);
                first = λ c p q r. let same : c ≡ i * 2 + 1 = ground arith in rw same (omega arith);
              }))
        | inr right ↦
            let hl : i * 2 + 1 < length xs = ground arith in
            let hr : i * 2 + 2 < length xs = ground arith in
            let (x, ex) = get_elem?_inside xs (i * 2 + 1) hl in
            let (y, ey) = get_elem?_inside xs (i * 2 + 2) hr in
            rw
              (
                largest_child,
                larger,
                left,
                right,
                below-ok rank orders xs (i * 2 + 2) (i * 2 + 1) y x ey ex,
              )
              (elim (Bool-cases (ltb (key rank xs (i * 2 + 1)) (key rank xs (i * 2 + 2)))) [
                | inl l ↦ rw l (
                    Largest.child (i * 2 + 1) (record {
                      inside = hl;
                      child = inl (omega arith);
                      first = λ c p q r. elim (two_children i c p r) [
                        | inl e ↦ rw e (omega arith)
                        | inr e ↦ rw e (ground arith)
                      ];
                    }))
                | inr l ↦ rw l (
                    Largest.child (i * 2 + 2) (record {
                      inside = hr;
                      child = inr (omega arith);
                      first = λ c p q r. elim (two_children i c p r) [
                        | inl e ↦ rw e (ground arith)
                        | inr e ↦ rw e (omega arith)
                      ];
                    }))
              ])
      ]
    ]

    Sinking-swapped :
        (xs : List T) (i m : ℕ) (x y : T) (hi : i < length xs) (largest : IsLargest xs i m)
        (ex : get_elem? xs i ≡ some x) (ey : get_elem? xs m ≡ some y)
        → Sinking xs i
        → key rank xs m < key rank xs i
        → Sinking (swapped xs i m x y hi largest.inside ex ey) m
    Sinking-swapped xs i m x y hi largest ex ey v lower =
        let at = key-swapped rank xs i m x y hi largest.inside ex ey in
        let size = length-swapped xs i m x y hi largest.inside ex ey in
        let middle : (m - 1) / 2 ≡ i = omega (arith, largest.child) in
        let over : 0 < i → key rank xs ((i - 1) / 2) ≤ key rank xs m =
          λ z. v.around m (omega (arith, largest.child)) largest.inside middle z in
        record {
          others = λ c p q r.
              ground (arith, size, at c, at ((c - 1) / 2), v.others c, largest.first c, over);
          around = λ c p q r t. ground (arith, size, middle, at c, at ((m - 1) / 2), v.others c);
        }

    pub sift_down-Sifts :
        (fuel : ℕ) (xs : List T) (i : ℕ)
        → length xs ≤ i + fuel
        → i < length xs
        → Sinking xs i
        → Sifts rank xs (sift_down fuel xs i)
    unfolding sift_down
    sift_down-Sifts zero xs i f hi v = absurd (omega arith)
    sift_down-Sifts (suc fuel) xs i f hi v =
        sunk (λ ys m. sift_down-Sifts fuel ys m) (largest_child xs i) refl
          (largest_child-Largest xs i)
      where
        sunk :
            ((ys : List T) (m : ℕ)
              → length ys ≤ m + fuel
              → m < length ys
              → Sinking ys m
              → Sifts rank ys (sift_down fuel ys m))
            → (r : KResult (Option ℕ)) → largest_child xs i ≡ r
            → Largest xs i r
            → Sifts rank xs (sift_down (suc fuel) xs i)
        sunk deeper r e (leaf none_below) =
            rw (sift_down, e)
              (xs, refl, (λ c p q. v.others c p q (omega (arith, none_below, q))), Perm.rfl)
        sunk deeper r e (child m largest) =
            let (x, ex) = get_elem?_inside xs i hi in
            let (y, ey) = get_elem?_inside xs m largest.inside in
            rw (sift_down, e, below-ok rank orders xs i m x y ex ey)
              (elim (Bool-cases (ltb (key rank xs m) (key rank xs i))) [
                | inl lower ↦
                    let size = length-swapped xs i m x y hi largest.inside ex ey in
                    rw (lower, swap-ok xs i m x y hi largest.inside ex ey)
                      (Sifts-Perm rank xs _ _ (swapped-Perm xs i m x y hi largest.inside ex ey) (
                        deeper _ m (omega (arith, size, f, largest.child)) (rw size largest.inside)
                          (Sinking-swapped xs i m x y hi largest ex ey v (ltb→lt _ _ lower))))
                | inr settled ↦
                    rw settled
                      (xs, refl, (λ c p q. ground (arith, v.others c, largest.first c)), Perm.rfl)
              ])
