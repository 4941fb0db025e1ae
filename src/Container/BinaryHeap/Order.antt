-- ===== src/Container/BinaryHeap/Order.antt =====
-- The heap order of kernel/src/container/binary_heap.rs, and what the loop of push restores.
pub mod Down
use mathlib.Core.List.{Perm}
use mathlib.Core.List.Perm
use aurora_os.Prelude.{
  ℕ, zero, suc, ◌+◌, ◌-◌, ◌*◌, ◌/◌, ◌≤◌, ◌<◌, ◌≡◌, ◌≢◌, ◌==◌, refl, sym, ap, ◌∙◌, arith, List, [],
  ◌∷◌, Option, none, some, Bool, true, false, Bool-cases, inl, inr, ltb, ltb→lt, length, get_elem?,
  set, if◌then◌else◌,
}
use aurora_os.KResult.{KResult, ok}
use aurora_os.Container.BinaryHeap.{Ord, at, below, swap, sift_up, parent}
use aurora_os.Container.BinaryHeap.Places.{
  get_elem?_inside, swapped, swap-ok, length-swapped, get_elem?-swapped, swapped-Perm,
}

-- The order of the elements is that of a number, with the greatest element at the least number.
abbrev pub OrdersBy : {T : Type 0} → Ord T → (T → ℕ) → Type 0
OrdersBy {T} ord rank = (a b : T) → ord.lt a b ≡ ltb (rank b) (rank a)

module _ {T : Type 0} (rank : T → ℕ) where
  abbrev rank_of : Option T → ℕ
  rank_of none = 0
  rank_of (some x) = rank x

  abbrev pub key : List T → ℕ → ℕ
  key xs i = rank_of (get_elem? xs i)

  -- No element is greater than the one above it.
  abbrev pub IsHeap : List T → Type 0
  IsHeap xs = (c : ℕ) → 0 < c → c < length xs → key xs ((c - 1) / 2) ≤ key xs c

  -- The element at `i` may be greater than the one above it.
  pub record Rising (xs : List T) (i : ℕ) : Type 0 where
    pub inside : i < length xs
    pub others : (c : ℕ) → 0 < c → c < length xs → c ≢ i → key xs ((c - 1) / 2) ≤ key xs c
    pub around :
        (c : ℕ) → 0 < c → c < length xs → (c - 1) / 2 ≡ i → 0 < i → key xs ((i - 1) / 2) ≤ key xs c

  -- The loop ends in a heap of the same elements.
  abbrev pub Sifts : List T → KResult (List T) → Type 0
  Sifts xs r = (ys : List T) × (r ≡ ok ys) × IsHeap ys × Perm ys xs

  pub Sifts-Perm : (xs ys : List T) (r : KResult (List T)) → Perm ys xs → Sifts ys r → Sifts xs r
  Sifts-Perm xs ys r p (zs, e, heap, q) = (zs, e, heap, Perm.trans q p)

  module _ (xs : List T) (i j : ℕ) (x y : T) (hi : i < length xs) (hj : j < length xs)
      (ei : get_elem? xs i ≡ some x) (ej : get_elem? xs j ≡ some y) where
    pub key-swapped :
        (c : ℕ)
        → key (swapped xs i j x y hi hj ei ej) c
          ≡ (if j == c then key xs i else if i == c then key xs j else key xs c)
    key-swapped c = rw (get_elem?-swapped xs i j x y hi hj ei ej c, ei, ej) (ground arith)

  module _ ⦃ord : Ord T⦄ (orders : OrdersBy ord rank) where
    pub below-ok :
        (xs : List T) (i j : ℕ) (x y : T)
        → get_elem? xs i ≡ some x
        → get_elem? xs j ≡ some y
        → below xs i j ≡ ok (ltb (key xs j) (key xs i))
    unfolding below at
    below-ok xs i j x y ei ej = rw (below, at, ei, ej) (ap ok (orders x y))

    -- A swap with the element above leaves only that place in doubt.
    Rising-swapped :
        (xs : List T) (i : ℕ) (x y : T) (hp : (suc i - 1) / 2 < length xs) (v : Rising xs (suc i))
        (ex : get_elem? xs ((suc i - 1) / 2) ≡ some x) (ey : get_elem? xs (suc i) ≡ some y)
        → key xs (suc i) < key xs ((suc i - 1) / 2)
        → Rising (swapped xs ((suc i - 1) / 2) (suc i) x y hp v.inside ex ey) ((suc i - 1) / 2)
    Rising-swapped xs i x y hp v ex ey lower =
        let p = (suc i - 1) / 2 in
        let at = key-swapped xs p (suc i) x y hp v.inside ex ey in
        let size = length-swapped xs p (suc i) x y hp v.inside ex ey in
        record {
          inside = rw size hp;
          others = λ c q r s. ground (arith, size, at c, at ((c - 1) / 2), v.others c, v.around c);
          around =
              λ c q r s t. ground (arith, size, at c, at ((p - 1) / 2), v.others c, v.others p);
        }

    pub sift_up-Sifts :
        (fuel : ℕ) (xs : List T) (i : ℕ) → i < fuel → Rising xs i → Sifts xs (sift_up fuel xs i)
    unfolding sift_up
    sift_up-Sifts zero xs i f v = absurd (omega arith)
    sift_up-Sifts (suc fuel) xs zero f v =
        (xs, refl, (λ c p q. v.others c p q (omega arith)), Perm.rfl)
    sift_up-Sifts (suc fuel) xs (suc i) f v =
        let p = (suc i - 1) / 2 in
        let hp : p < length xs = omega (arith, v.inside) in
        let (x, ex) = get_elem?_inside xs p hp in
        let (y, ey) = get_elem?_inside xs (suc i) v.inside in
        let up : parent (suc i) ≡ some p = ground arith in
        rw (sift_up, up, below-ok xs p (suc i) x y ex ey)
          (elim (Bool-cases (ltb (key xs (suc i)) (key xs p))) [
            | inl lower ↦
                rw (lower, swap-ok xs p (suc i) x y hp v.inside ex ey)
                  (Sifts-Perm xs _ _ (swapped-Perm xs p (suc i) x y hp v.inside ex ey) (
                    sift_up-Sifts fuel _ p (omega arith)
                      (Rising-swapped xs i x y hp v ex ey (ltb→lt _ _ lower))))
            | inr settled ↦ rw settled (xs, refl, (λ c q r. ground (arith, v.others c)), Perm.rfl)
          ])
