-- ===== src/Container/VecMap/Nearest.antt =====
-- remove_gt and remove_lt of kernel/src/container/vecmap.rs.
use aurora_os.Prelude.{
  ℕ, ◌-◌, ◌≤◌, ◌==◌, ◌≡◌, refl, ap, ◌∙◌, arith, subst, List, [], ◌∷◌, ◌++◌, append_assoc,
  append-nil, suc, Option, none, some, length, length-append, inl, inr, last_of, false,
}
use aurora_os.KResult.{KResult, ok}
use aurora_os.Container.Vec.{remove-middle, try_remove-middle, try_remove-end}
use aurora_os.Container.VecMap.{MapNode, missing, BinarySearch, search, remove_gt, remove_lt}
use aurora_os.Container.VecMap.Sorted.{IsSorted, Before, After, All-middle, IsSorted-split}
use aurora_os.Container.VecMap.Laws.{SearchLaws, located}

module _ {K V : Type 0} (rank : K → ℕ) where
  -- The first node whose rank is not below `k` is taken out, or there is none.
  pub data RemovesNext (k : ℕ) (nodes : List (MapNode K V))
      : KResult (Option (MapNode K V) × List (MapNode K V)) → Type 0 where
    next :
        (pre post : List (MapNode K V)) (x : MapNode K V)
        → nodes ≡ pre ++ (x ∷ post)
        → Before rank k pre
        → k ≤ rank x.key
        → IsSorted rank (pre ++ post)
        → RemovesNext k nodes (ok (some x, pre ++ post))
    no_next : Before rank k nodes → RemovesNext k nodes (ok (none, nodes))

  -- The last node whose rank is not above `k` is taken out, or there is none.
  pub data RemovesPrevious (k : ℕ) (nodes : List (MapNode K V))
      : KResult (Option (MapNode K V) × List (MapNode K V)) → Type 0 where
    previous :
        (pre post : List (MapNode K V)) (x : MapNode K V)
        → nodes ≡ pre ++ (x ∷ post)
        → After rank k post
        → rank x.key ≤ k
        → IsSorted rank (pre ++ post)
        → RemovesPrevious k nodes (ok (some x, pre ++ post))
    no_previous : After rank k nodes → RemovesPrevious k nodes (ok (none, nodes))

module _ {K V : Type 0} (rank : K → ℕ) ⦃bs : BinarySearch (MapNode K V)⦄ (laws : SearchLaws rank bs)
    (key : K) (nodes : List (MapNode K V)) (sorted : IsSorted rank nodes) where
  remove_gt-next : RemovesNext rank (rank key) nodes (remove_gt rank key nodes)
  unfolding remove_gt
  remove_gt-next = elim (located rank laws key nodes sorted) [
    | inl (pre, x, post, e, e', r) ↦
        let (b, a, s) = IsSorted-split rank pre post x (rw e' at sorted) in
        rw (remove_gt, e, e', remove-middle pre post x x)
          (next pre post x refl (rw r at b) (omega (arith, r)) s)
    | inr (pre, [], e, e', b, a) ↦
        let all : nodes ≡ pre = e' ∙ append-nil pre in
        rw (remove_gt, e, all, try_remove-end pre) (no_next b)
    | inr (pre, x ∷ post, e, e', b, (lt, a)) ↦
        let (b', a', s) = IsSorted-split rank pre post x (rw e' at sorted) in
        rw (remove_gt, e, e', try_remove-middle pre post x x)
          (next pre post x refl b (omega (arith, lt)) s)
  ]

  remove_lt-previous : RemovesPrevious rank (rank key) nodes (remove_lt rank key nodes)
  unfolding remove_lt
  remove_lt-previous = elim (located rank laws key nodes sorted) [
    | inl (pre, x, post, e, e', r) ↦
        let (b, a, s) = IsSorted-split rank pre post x (rw e' at sorted) in
        rw (remove_lt, e, e', remove-middle pre post x x)
          (previous pre post x refl (rw r at a) (omega (arith, r)) s)
    | inr ([], post, e, e', b, a) ↦ rw (remove_lt, e, e') (no_previous a)
    | inr (y ∷ pre, post, e, e', b, a) ↦
        let (init, x, q) = last_of y pre in
        let cut : nodes ≡ init ++ (x ∷ post) =
          e' ∙ ap (λ (l : List (MapNode K V)). l ++ post) q ∙ append_assoc init (x ∷ []) post in
        let place : search rank key nodes ≡ missing (suc (length init)) =
          e ∙ ap missing (ap length q ∙ omega (arith, length-append init (x ∷ []))) in
        let (lt, b') = All-middle _ init [] x (subst (Before rank (rank key)) q b) in
        let (c, d, s) = IsSorted-split rank init post x (rw cut at sorted) in
        let other : (suc (length init) == 0) ≡ false = ground arith in
        let before : suc (length init) - 1 ≡ length init = omega arith in
        rw (remove_lt, place, cut, other, before, remove-middle init post x x)
          (previous init post x refl a (omega (arith, lt)) s)
  ]

  -- With a binary search that behaves as documented on sorted slices, remove_gt and remove_lt of a
  -- sorted map do not panic: the one takes out the first node whose key has at least the rank of
  -- the key that is asked for, the other the last whose key has at most that rank, and both keep
  -- the other nodes, sorted; if there is none they answer with nothing and keep the map.
  pub removes_nearest :
      RemovesNext rank (rank key) nodes (remove_gt rank key nodes)
      × RemovesPrevious rank (rank key) nodes (remove_lt rank key nodes)
  removes_nearest = (remove_gt-next, remove_lt-previous)
