-- ===== src/Container/VecMap/Sorted.antt =====
-- Sorted lists of nodes, and the nodes of a key in them.
use aurora_os.Prelude.{
  ℕ, ◌==◌, ◌<◌, ◌≡◌, refl, ap, arith, List, [], ◌∷◌, ◌++◌, All, Option, none, some, if◌then◌else◌,
}
use aurora_os.Container.VecMap.{MapNode}

module _ {ℓ κ} {A : Type ℓ} (P : A → Type κ) where
  pub All-middle :
      (pre post : List A) (x : A) → All P (pre ++ (x ∷ post)) → P x × All P (pre ++ post)
  All-middle [] post x (h, hs) = (h, hs)
  All-middle (y ∷ pre) post x (h, hs) = let (h', hs') = All-middle pre post x hs in (h', (h, hs'))

  All-insert : (pre post : List A) (x : A) → P x → All P (pre ++ post) → All P (pre ++ (x ∷ post))
  All-insert [] post x h hs = (h, hs)
  All-insert (y ∷ pre) post x h (h', hs) = (h', All-insert pre post x h hs)

module _ {K V : Type 0} (rank : K → ℕ) where
  unfoldable pub IsSorted : List (MapNode K V) → Type 0
  IsSorted [] = Unit
  IsSorted (n ∷ ns) = All (λ n'. rank n.key < rank n'.key) ns × IsSorted ns

  -- The nodes before and after the place of a rank.
  abbrev pub Before : ℕ → List (MapNode K V) → Type 0
  Before k = All (λ n. rank n.key < k)

  abbrev pub After : ℕ → List (MapNode K V) → Type 0
  After k = All (λ n. k < rank n.key)

  -- The node of a rank: the contents of the map.
  unfoldable pub find : ℕ → List (MapNode K V) → Option (MapNode K V)
  find k [] = none
  find k (n ∷ ns) = if rank n.key == k then some n else find k ns

  pub find-here :
      (k : ℕ) (pre post : List (MapNode K V)) (x : MapNode K V)
      → Before k pre
      → rank x.key ≡ k
      → find k (pre ++ (x ∷ post)) ≡ some x
  unfolding find
  find-here k [] post x b e = ground arith
  find-here k (n ∷ pre) post x (h, b) e = rw (find-here k pre post x b e) (ground arith)

  pub find-After : (k : ℕ) (ns : List (MapNode K V)) → After k ns → find k ns ≡ none
  unfolding find
  find-After k [] a = refl
  find-After k (n ∷ ns) (h, a) = rw (find-After k ns a) (ground arith)

  pub find-none :
      (k : ℕ) (pre post : List (MapNode K V))
      → Before k pre
      → After k post
      → find k (pre ++ post) ≡ none
  unfolding find
  find-none k [] post b a = find-After k post a
  find-none k (n ∷ pre) post (h, b) a = rw (find-none k pre post b a) (ground arith)

  pub find-other :
      (k : ℕ) (pre post : List (MapNode K V)) (x : MapNode K V)
      → ¬ (rank x.key ≡ k)
      → find k (pre ++ (x ∷ post)) ≡ find k (pre ++ post)
  unfolding find
  find-other k [] post x ne = ground arith
  find-other k (n ∷ pre) post x ne =
      ap (λ (o : Option (MapNode K V)). if rank n.key == k then some n else o)
        (find-other k pre post x ne)

  pub IsSorted-split :
      (pre post : List (MapNode K V)) (x : MapNode K V)
      → IsSorted (pre ++ (x ∷ post))
      → Before (rank x.key) pre × After (rank x.key) post × IsSorted (pre ++ post)
  unfolding IsSorted
  IsSorted-split [] post x (h, s) = (tt, h, s)
  IsSorted-split (n ∷ pre) post x (h, s) =
      let (l, h') = All-middle _ pre post x h in
      let (b, a, s') = IsSorted-split pre post x s in ((l, b), a, (h', s'))

  pub IsSorted-join :
      (k : ℕ) (pre post : List (MapNode K V)) (x : MapNode K V)
      → IsSorted (pre ++ post)
      → Before k pre
      → After k post
      → rank x.key ≡ k
      → IsSorted (pre ++ (x ∷ post))
  unfolding IsSorted
  IsSorted-join k [] post x s b a e = (rw e a, s)
  IsSorted-join k (n ∷ pre) post x (h, s) (l, b) a e =
      (All-insert _ pre post x (omega (arith, l, e)) h, IsSorted-join k pre post x s b a e)
