-- ===== src/Container/HashMap.antt =====
-- The view that the rest of the kernel has of kernel/src/container/hash_map.rs: keys with their
-- values, in no order that matters. The table behind it (cells, hashes, rehashing) is not modelled;
-- whether the heap has room for it is a parameter of `insert`.
use aurora_os.Prelude.{
  ℕ, ◌≡◌, refl, List, [], ◌∷◌, Bool, Option, none, some, ◌==◌, ==_iff, if◌then◌else◌, arith,
  Bool-cases, inl, inr, subst, if_cases,
}

module _ {ℓ} {V : Type ℓ} where
  unfoldable pub get : ℕ → List (ℕ × V) → Option V
  get k [] = none
  get k ((j, v) ∷ m) = if j == k then some v else get k m

  -- Writes over the value of the key, or adds the key.
  unfoldable pub put : ℕ → V → List (ℕ × V) → List (ℕ × V)
  put k v [] = (k, v) ∷ []
  put k v ((j, w) ∷ m) = if j == k then (k, v) ∷ m else (j, w) ∷ put k v m

  -- `none` is the error of a table that could not grow; the old table stays.
  unfoldable pub insert : Bool → ℕ → V → List (ℕ × V) → Option (List (ℕ × V))
  insert room k v m = if room then some (put k v m) else none

  unfoldable pub remove : ℕ → List (ℕ × V) → List (ℕ × V)
  remove k [] = []
  remove k ((j, v) ∷ m) = let rest = remove k m in if j == k then rest else (j, v) ∷ rest

  pub get-put :
      (k j : ℕ) (v : V) (m : List (ℕ × V))
      → get j (put k v m) ≡ (if k == j then some v else get j m)
  unfolding get put
  get-put k j v [] = refl
  get-put k j v ((i, w) ∷ m) = ground (arith, get-put k j v m)

  pub get-remove :
      (k j : ℕ) (m : List (ℕ × V)) → get j (remove k m) ≡ (if k == j then none else get j m)
  unfolding get remove
  get-remove k j [] = ground arith
  get-remove k j ((i, w) ∷ m) = ground (arith, get-remove k j m)

-- A property of every key with its value.
module _ {ℓ κ} {V : Type ℓ} (P : ℕ → V → Type κ) where
  abbrev pub AllEntries : List (ℕ × V) → Type κ
  AllEntries [] = Unit {κ}
  AllEntries ((k, v) ∷ m) = P k v × AllEntries m

  pub AllEntries-get : (k : ℕ) (v : V) (m : List (ℕ × V)) → AllEntries m → get k m ≡ some v → P k v
  unfolding get
  AllEntries-get k v [] h e = cc
  AllEntries-get k v ((j, w) ∷ m) h e = elim (Bool-cases (j == k)) [
    | inl hit ↦
        let value : w ≡ v = ground arith in
        subst (λ i. P i v) ((==_iff j k).0 hit) (subst (λ u. P j u) value h.0)
    | inr miss ↦ AllEntries-get k v m h.1 (rw miss at e)
  ]

  pub AllEntries-put :
      (k : ℕ) (v : V) (m : List (ℕ × V)) → P k v → AllEntries m → AllEntries (put k v m)
  unfolding put
  AllEntries-put k v [] p h = (p, tt)
  AllEntries-put k v ((j, w) ∷ m) p h =
      if_cases AllEntries (j == k) (λ _. (p, h.1)) (λ _. (h.0, AllEntries-put k v m p h.1))

  pub AllEntries-remove : (k : ℕ) (m : List (ℕ × V)) → AllEntries m → AllEntries (remove k m)
  unfolding remove
  AllEntries-remove k [] h = tt
  AllEntries-remove k ((j, w) ∷ m) h =
      let rest = AllEntries-remove k m h.1 in
      if_cases AllEntries (j == k) (λ _. rest) (λ _. (h.0, rest))

pub AllEntries-map {ℓ κ λ'} :
    {V : Type ℓ} (P : ℕ → V → Type κ) (Q : ℕ → V → Type λ') (m : List (ℕ × V))
    → ((k : ℕ) (v : V) → P k v → Q k v)
    → AllEntries P m
    → AllEntries Q m
AllEntries-map P Q [] f h = tt
AllEntries-map P Q ((k, v) ∷ m) f h = (f k v h.0, AllEntries-map P Q m f h.1)
