-- ===== src/Container/VecMap/Laws.antt =====
-- The map of kernel/src/container/vecmap.rs as a finite map from ranks to nodes.
use mathlib.Core.Option
use Prim.Native.Nat.{compare}
use aurora_os.Prelude.{
  ℕ, ◌==◌, ◌≡◌, ◌⊎◌, refl, sym, ap, ◌∙◌, arith, List, ◌∷◌, ◌++◌, Option, none, some, if◌then◌else◌,
  length, true, inl, inr, Bool-cases, ==_iff,
}
use aurora_os.KResult.{ok}
use aurora_os.Container.Vec.{get_elem?-middle, remove-middle, replace-middle, insert-middle}
use aurora_os.Container.VecMap.{
  MapNode, Place, found, missing, BinarySearch, search, get, insert, remove,
}
use aurora_os.Container.VecMap.Sorted.{
  IsSorted, Before, After, find, find-here, find-none, find-other, IsSorted-split, IsSorted-join,
}

module _ {K V : Type 0} (rank : K → ℕ) where
  -- What a search for a rank answers: the place of its node, or the place for one.
  abbrev pub Finds : ℕ → List (MapNode K V) → Place → Type 0
  Finds k nodes place =
      ((pre : List (MapNode K V)) × (x : MapNode K V) × (post : List (MapNode K V)) × (place
          ≡ found (length pre))
        × (nodes ≡ pre ++ (x ∷ post))
        × (rank x.key ≡ k))
      ⊎ ((pre : List (MapNode K V)) × (post : List (MapNode K V)) × (place ≡ missing (length pre))
          × (nodes ≡ pre ++ post)
          × Before rank k pre
          × After rank k post)

  find-at :
      (k : ℕ) (pre post : List (MapNode K V)) (x : MapNode K V)
      → Before rank (rank x.key) pre
      → find rank k (pre ++ (x ∷ post))
        ≡ (if rank x.key == k then some x else find rank k (pre ++ post))
  find-at k pre post x b = elim (Bool-cases (rank x.key == k)) [
    | inl h ↦
        let same : rank x.key ≡ k = (==_iff (rank x.key) k).0 h in
        rw h (find-here rank k pre post x (rw same at b) same)
    | inr h ↦ rw h (find-other rank k pre post x (λ e. ground arith))
  ]

  find-replace :
      (k : ℕ) (pre post : List (MapNode K V)) (x y : MapNode K V)
      → Before rank (rank y.key) pre
      → rank x.key ≡ rank y.key
      → find rank k (pre ++ (y ∷ post))
        ≡ (if rank y.key == k then some y else find rank k (pre ++ (x ∷ post)))
  find-replace k pre post x y b e = elim (Bool-cases (rank y.key == k)) [
    | inl h ↦ find-at k pre post y b ∙ rw h refl
    | inr h ↦ rw h (
        find-other rank k pre post y (λ q. ground arith)
        ∙ sym (find-other rank k pre post x (λ q. ground arith)))
  ]

  -- The map without the node of a rank.
  find-without :
      (k : ℕ) (pre post : List (MapNode K V)) (x : MapNode K V)
      → Before rank (rank x.key) pre
      → After rank (rank x.key) post
      → find rank k (pre ++ post)
        ≡ (if rank x.key == k then none else find rank k (pre ++ (x ∷ post)))
  find-without k pre post x b a = elim (Bool-cases (rank x.key == k)) [
    | inl h ↦
        let same : rank x.key ≡ k = (==_iff (rank x.key) k).0 h in
        rw h (find-none rank k pre post (rw same at b) (rw same at a))
    | inr h ↦ rw h (sym (find-other rank k pre post x (λ e. ground arith)))
  ]

-- The documented behaviour of binary_search_by on a sorted slice.
pub record SearchLaws {K V : Type 0} (rank : K → ℕ) (bs : BinarySearch (MapNode K V)) : Type 0 where
  pub finds :
      (k : ℕ) (nodes : List (MapNode K V))
      → IsSorted rank nodes
      → Finds rank k nodes (bs.binary_search_by (λ node. compare (rank node.key) k) nodes)

module _ {K V : Type 0} (rank : K → ℕ) ⦃bs : BinarySearch (MapNode K V)⦄ (laws : SearchLaws rank bs)
    (key : K) (nodes : List (MapNode K V)) (sorted : IsSorted rank nodes) where
  pub located : Finds rank (rank key) nodes (search rank key nodes)
  unfolding search
  located = laws.finds (rank key) nodes sorted

  -- The value that the map has for the key.
  abbrev pub current : Option V
  current = Option.map (λ node. node.value) (find rank (rank key) nodes)

  pub get-find : get rank key nodes ≡ ok current
  unfolding get
  get-find = elim located [
    | inl (pre, x, post, e, e', r) ↦
        let (b, a, s) = IsSorted-split rank pre post x (rw e' at sorted) in
        rw
          (
            get,
            e,
            e',
            get_elem?-middle pre post x,
            find-here rank (rank key) pre post x (rw r at b) r,
          )
          refl
    | inr (pre, post, e, e', b, a) ↦ rw (get, e, e', find-none rank (rank key) pre post b a) refl
  ]

  -- With a binary search that behaves as documented on sorted slices, an insertion into a sorted
  -- map, when there is room for a node, answers with the value that stood under the key, if any,
  -- and leaves a sorted map that has the new node under the rank of the key and under every other
  -- rank what it had.
  pub insert_updates :
      (value : V)
      → (nodes' : List (MapNode K V)) × (insert rank true key value nodes ≡ ok (current, nodes'))
        × IsSorted rank nodes'
        × ((k : ℕ)
            → find rank k nodes' ≡ (
                if rank key == k
                then some (record { key = key; value = value })
                else find rank k nodes))
  unfolding insert
  insert_updates value = elim located [
    | inl (pre, x, post, e, e', r) ↦
        let node : MapNode K V = record { key = key; value = value } in
        let (b, a, s) = IsSorted-split rank pre post x (rw e' at sorted) in
        let b' : Before rank (rank key) pre = rw r at b in
        (
          pre ++ (node ∷ post),
          rw
              (
                insert,
                e,
                e',
                replace-middle pre post x node,
                find-here rank (rank key) pre post x b' r,
              )
              refl,
          IsSorted-join rank (rank key) pre post node s b' (rw r at a) refl,
          λ k. rw e' (find-replace rank k pre post x node b' r),
        )
    | inr (pre, post, e, e', b, a) ↦
        let node : MapNode K V = record { key = key; value = value } in
        (
          pre ++ (node ∷ post),
          rw (insert, e, e', insert-middle pre post node, find-none rank (rank key) pre post b a)
              refl,
          IsSorted-join rank (rank key) pre post node (rw e' at sorted) b a refl,
          λ k. rw e' (find-at rank k pre post node b),
        )
  ]

  -- With a binary search that behaves as documented on sorted slices, a removal from a sorted map
  -- does not panic; it answers with the value that stood under the key, if any, and leaves a
  -- sorted map that has no node under the rank of the key and under every other rank what it had.
  pub remove_deletes :
      (nodes' : List (MapNode K V)) × (remove rank key nodes ≡ ok (current, nodes'))
      × IsSorted rank nodes'
      × ((k : ℕ) → find rank k nodes' ≡ (if rank key == k then none else find rank k nodes))
  unfolding remove
  remove_deletes = elim located [
    | inl (pre, x, post, e, e', r) ↦
        let (b, a, s) = IsSorted-split rank pre post x (rw e' at sorted) in
        (
          pre ++ post,
          rw
              (
                remove,
                e,
                e',
                remove-middle pre post x,
                find-here rank (rank key) pre post x (rw r at b) r,
              )
              refl,
          s,
          λ k. rw (e', ← r) (find-without rank k pre post x b a),
        )
    | inr (pre, post, e, e', b, a) ↦
        let absent : find rank (rank key) nodes ≡ none =
          rw e' (find-none rank (rank key) pre post b a) in
        (
          nodes,
          rw (remove, e, absent) refl,
          sorted,
          λ k. elim (Bool-cases (rank key == k)) [
            | inl h ↦
                rw h (ap (λ (j : ℕ). find rank j nodes) (sym ((==_iff (rank key) k).0 h)) ∙ absent)
            | inr h ↦ rw h refl
          ],
        )
  ]
