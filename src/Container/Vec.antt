-- ===== src/Container/Vec.antt =====
-- kernel/src/container/vec.rs: the operations on an index, on a vector as the list of its elements.
-- Whether the heap has room for one more element is a parameter of `insert`.
use aurora_os.Prelude.{
  ℕ, suc, ◌≡◌, refl, ap, arith, List, [], ◌∷◌, ◌++◌, Bool, Option, none, some, leb, if◌then◌else◌,
  length, get_elem?, set, take, drop, length-append, leb_iff, true, take-append_length,
  drop-append_length,
}
use aurora_os.KResult.{KResult, ok, err, panic, out_of_mem}

module _ {ℓ} {A : Type ℓ} where
  unfoldable pub try_remove : ℕ → List A → Option (A × List A)
  try_remove index xs = elim (get_elem? xs index) [
    | none ↦ none
    | some out ↦ some (out, take index xs ++ drop (suc index) xs)
  ]

  unfoldable pub remove : ℕ → List A → KResult (A × List A)
  unfolding try_remove
  remove index xs = elim (try_remove index xs) [ none ↦ panic | some r ↦ ok r ]

  unfoldable pub insert : Bool → ℕ → A → List A → KResult (List A)
  insert room index object xs =
      if leb index (length xs)
      then (if room then ok (take index xs ++ (object ∷ drop index xs)) else err out_of_mem)
      else panic

  unfoldable pub replace : ℕ → A → List A → KResult (A × List A)
  replace index object xs = elim (get_elem? xs index) [
    | none ↦ panic
    | some out ↦ ok (out, set xs index object)
  ]

  pub get_elem?-middle :
      (pre post : List A) (x : A) → get_elem? (pre ++ (x ∷ post)) (length pre) ≡ some x
  get_elem?-middle [] post x = refl
  get_elem?-middle (y ∷ pre) post x = get_elem?-middle pre post x

  get_elem?-end : (xs : List A) → get_elem? xs (length xs) ≡ none
  get_elem?-end [] = refl
  get_elem?-end (x ∷ xs) = get_elem?-end xs

  pub try_remove-end : (xs : List A) → try_remove (length xs) xs ≡ none
  unfolding try_remove
  try_remove-end xs = rw (try_remove, get_elem?-end xs) refl

  set-middle :
      (pre post : List A) (x y : A) → set (pre ++ (x ∷ post)) (length pre) y ≡ pre ++ (y ∷ post)
  set-middle [] post x y = refl
  set-middle (z ∷ pre) post x y = ap (λ (l : List A). z ∷ l) (set-middle pre post x y)

  pub drop-middle : (pre post : List A) (x : A) → drop (suc (length pre)) (pre ++ (x ∷ post)) ≡ post
  drop-middle [] post x = refl
  drop-middle (y ∷ pre) post x = drop-middle pre post x

  -- The operations at the place after `pre`.
  module _ (pre post : List A) (x y : A) where
    pub try_remove-middle : try_remove (length pre) (pre ++ (x ∷ post)) ≡ some (x, pre ++ post)
    unfolding try_remove
    try_remove-middle =
        rw
          (
            try_remove,
            get_elem?-middle pre post x,
            take-append_length pre (x ∷ post),
            drop-middle pre post x,
          )
          refl

    pub remove-middle : remove (length pre) (pre ++ (x ∷ post)) ≡ ok (x, pre ++ post)
    unfolding remove
    remove-middle = rw (remove, try_remove-middle) refl

    pub replace-middle : replace (length pre) y (pre ++ (x ∷ post)) ≡ ok (x, pre ++ (y ∷ post))
    unfolding replace
    replace-middle = rw (replace, get_elem?-middle pre post x, set-middle pre post x y) refl

    pub insert-middle : insert true (length pre) y (pre ++ post) ≡ ok (pre ++ (y ∷ post))
    unfolding insert
    insert-middle =
        let fits : leb (length pre) (length (pre ++ post)) ≡ true =
          (leb_iff _ _).1 (omega (arith, length-append pre post)) in
        rw (fits, take-append_length pre post, drop-append_length pre post) refl
