-- ===== src/AddrSpace/Asked.antt =====
-- is_region_free, the test of a mapping with a given address.
mod Sides
use aurora_os.Prelude.{
  ℕ, suc, ◌+◌, ◌-◌, ◌*◌, ◌≤◌, ◌<◌, ◌≡◌, ◌==◌, ◌↔◌, refl, sym, ap, subst, ◌∙◌, some, List, [], ◌∷◌,
  ◌++◌, Bool, true, false, not, ◌&&◌, ◌||◌, inl, inr, arith, All, length, length-append, get_elem?,
  ltb,
}
use aurora_os.BitUtils.{page_size, IsUsize}
use aurora_os.Container.Vec.{get_elem?-middle}
use aurora_os.Container.VecMap.{BinarySearch, found, missing}
use aurora_os.AddrSpace.{MappedRegion, RegionPadding, contains_address, max_map_addr}
use aurora_os.AddrSpace.Regions.{binary_search_address}
use aurora_os.AddrSpace.Free.{is_region_free, region_start, region_end, holds_none}
use aurora_os.AddrSpace.IsWf.{
  IsWf, IsWfFrom, IsRegion, IsPaged, first, past, Free, bytes_aligned-paged,
}
use aurora_os.AddrSpace.Order.{
  SearchLaws, at, between, Before, After, IsWfFrom-InOrder, IsWfFrom-IsRegion, IsWfFrom-After,
  All-at, not_absent, head-eq, tail-eq,
}
use aurora_os.AddrSpace.Effects.{
  CallLaws, IsPadding, Chosen, region_of, Same, Unchanged, Stored, Taken, Maps, MapsMemory, Mapped,
}
use aurora_os.AddrSpace.Asked.Sides.{
  and-left, and-right, StartsAt, IsWfFrom-sides, sides-other, sides_unique, Free-sides,
}

contains_address_iff :
    (a : ℕ) (r : MappedRegion)
    → IsRegion r
    → (contains_address a r ≡ true) ↔ ((first r ≤ a) × (a < past r))
unfolding contains_address
contains_address_iff a r w =
    let size =
      (bytes_aligned-paged r.size (omega (arith, w.nonempty, w.below_end)) w.size_paged).0 in
    let start =
      (bytes_aligned-paged r.padding.start (omega (arith, w.fits, w.nonempty, w.below_end))
        w.start_paged).0 in
    let end = (bytes_aligned-paged r.padding.end (omega (arith, w.below_end)) w.end_paged).0 in
    rw (size, start, end) (ground (arith, w.fits, w.nonempty, w.below_end))

-- The end that is_region_free looks at: the size counts in pages of pages.
abbrev pub looked_end : ℕ → ℕ → RegionPadding → ℕ
looked_end address size padding = address + size * page_size + padding.end

module _ (address size : ℕ) (padding : RegionPadding) (p : IsPadding padding) (paged : IsPaged size)
    (word : IsUsize size) (below : looked_end address size padding ≤ max_map_addr)
    (fits : padding.start ≤ address) where
  region_start_lem : region_start address padding ≡ some (address - padding.start)
  unfolding region_start
  region_start_lem =
      rw (bytes_aligned-paged padding.start p.start_word p.start_paged).0 (ground arith)

  region_end_lem : region_end address size padding ≡ some (looked_end address size padding)
  unfolding region_end
  region_end_lem =
      rw
        (
          (bytes_aligned-paged size word paged).0,
          (bytes_aligned-paged padding.end p.end_word p.end_paged).0,
        )
        (ground arith)

  -- The test of the region before the start.
  abbrev before_free : ℕ → List MappedRegion → Bool
  before_free index regions =
      (index == 0) || holds_none (get_elem? regions (index - 1)) (address - padding.start)

  abbrev after_free : ℕ → List MappedRegion → Bool
  after_free index regions =
      (index == length regions)
      || holds_none (get_elem? regions index) (looked_end address size padding)

  shift :
      (n : ℕ) (r : MappedRegion) (regions : List MappedRegion)
      → before_free (suc (suc n)) (r ∷ regions) ≡ before_free (suc n) regions
  shift n r regions =
      let one : suc (suc n) - 1 ≡ suc n = omega arith in
      let zero' : suc n - 1 ≡ n = omega arith in rw (one, zero') (ground arith)

  before_free-past :
      (lo : ℕ) (pre post : List MappedRegion)
      → IsWfFrom lo (pre ++ post)
      → Before (address - padding.start) pre
      → before_free (length pre) (pre ++ post) ≡ true
      → All (λ (r : MappedRegion). past r ≤ (address - padding.start)) pre
  unfolding IsWfFrom
  before_free-past lo [] post w b e = tt
  before_free-past lo (r ∷ []) post (w, _, _) (lt, _) e =
      (ground (arith, contains_address_iff (address - padding.start) r w, w.fits), tt)
  before_free-past lo (r ∷ (q ∷ pre)) post (w, _, ws) (lt, b) e =
      let rest =
        before_free-past (past r) (q ∷ pre) post ws b
          (sym (shift (length pre) r (q ∷ (pre ++ post))) ∙ e) in
      (omega (arith, ws.1, b.0, ws.0.fits), rest)

  past-before_free :
      (lo : ℕ) (pre post : List MappedRegion)
      → IsWfFrom lo (pre ++ post)
      → All (λ (r : MappedRegion). past r ≤ (address - padding.start)) pre
      → before_free (length pre) (pre ++ post) ≡ true
  unfolding IsWfFrom
  past-before_free lo [] post w b = refl
  past-before_free lo (r ∷ []) post (w, _, _) (le, _) =
      ground (arith, contains_address_iff (address - padding.start) r w)
  past-before_free lo (r ∷ (q ∷ pre)) post (w, _, ws) (le, b) =
      let rest = past-before_free (past r) (q ∷ pre) post ws b in
      shift (length pre) r (q ∷ (pre ++ post)) ∙ rest

  is_region_free_between :
      ⦃bs : BinarySearch MappedRegion⦄ (pre post : List MappedRegion)
      → binary_search_address (address - padding.start) (pre ++ post) ≡ missing (length pre)
      → is_region_free (pre ++ post) address size padding
        ≡ (before_free (length pre) (pre ++ post) && after_free (length pre) (pre ++ post))
  unfolding is_region_free binary_search_address
  is_region_free_between pre post e =
      let small : ltb max_map_addr (looked_end address size padding) ≡ false = ground arith in
      rw (is_region_free, region_start_lem, region_end_lem, small, e) refl

  is_region_free_found :
      ⦃bs : BinarySearch MappedRegion⦄ (regions : List MappedRegion) (index : ℕ)
      → binary_search_address (address - padding.start) regions ≡ found index
      → is_region_free regions address size padding ≡ false
  unfolding is_region_free binary_search_address
  is_region_free_found regions index e =
      let small : ltb max_map_addr (looked_end address size padding) ≡ false = ground arith in
      rw (is_region_free, region_start_lem, region_end_lem, small, e) refl

  after_free_cons :
      (pre post : List MappedRegion) (r : MappedRegion)
      → after_free (length pre) (pre ++ (r ∷ post))
        ≡ not (contains_address (looked_end address size padding) r)
  after_free_cons pre post r =
      let inside : (length pre == length (pre ++ (r ∷ post))) ≡ false =
        ground (arith, length-append pre (r ∷ post)) in
      rw (inside, get_elem?-middle pre post r) refl

  module _ ⦃bs : BinarySearch MappedRegion⦄ (search : SearchLaws bs) where
    -- For a list of regions that is well-formed (of whole pages, in the order of their addresses,
    -- apart with their paddings, each with something from its address on, below the end of the
    -- lower half), and an address behind its padding with a size and paddings of whole pages,
    -- where the address, the size times the page size and the padding at the end together are at
    -- most the end of the lower half: if the first region that does not end before the start has
    -- its address behind the start and ends at or before that sum, then is_region_free accepts.
    pub is_region_free_overlaps :
        (pre post : List MappedRegion) (r : MappedRegion)
        → IsWf (pre ++ (r ∷ post))
        → All (λ (x : MappedRegion). past x ≤ (address - padding.start)) pre
        → (address - padding.start) < r.address
        → past r ≤ looked_end address size padding
        → is_region_free (pre ++ (r ∷ post)) address size padding ≡ true
    unfolding binary_search_address
    is_region_free_overlaps pre post r wf free lt inside =
        let (b, a) = IsWfFrom-sides 0 (address - padding.start) pre post r wf free lt in
        elim (search.finds (address - padding.start) (pre ++ (r ∷ post))
          (IsWfFrom-InOrder 0 _ wf)) [
            | at pre' post' r' e split same ↦
                absurd (
                  sides-other (address - padding.start) pre (r ∷ post) b a pre' post' r' split same)
            | between pre' post' e split b' a' ↦
                let (one, two) =
                  sides_unique (address - padding.start) pre (r ∷ post) pre' post' b a b' a'
                    split in
                let place : binary_search_address (address - padding.start) (pre ++ (r ∷ post))
                    ≡ missing (length pre) =
                  e ∙ ap (λ (l : List MappedRegion). missing (length l)) (sym one) in
                let lower = past-before_free 0 pre (r ∷ post) wf free in
                let upper : not (contains_address (looked_end address size padding) r) ≡ true =
                  ground (
                    arith,
                    contains_address_iff (looked_end address size padding) r
                        (IsWfFrom-IsRegion 0 pre post r wf),
                  ) in
                is_region_free_between pre (r ∷ post) place
                ∙ rw (lower, after_free_cons pre post r, upper) refl
          ]

    -- For a list of regions that is well-formed (of whole pages, in the order of their addresses,
    -- apart with their paddings, each with something from its address on, below the end of the
    -- lower half), and an address behind its padding with a size and paddings of whole pages,
    -- where the address, the size times the page size and the padding at the end together are at
    -- most the end of the lower half: if no region has its address behind the start and its end,
    -- with its padding, at or before that sum, then what is_region_free accepts is apart from all
    -- regions. The start is the address less the padding in front of it.
    pub is_region_free-Free :
        (regions : List MappedRegion)
        → IsWf regions
        → All
            (λ (r : MappedRegion). ¬ (
              ((address - padding.start) < r.address) × (past r ≤ looked_end address size padding)))
            regions
        → is_region_free regions address size padding ≡ true
        → Free (address - padding.start) (address + size + padding.end) regions
    unfolding binary_search_address
    is_region_free-Free regions wf outside e =
        elim (search.finds (address - padding.start) regions (IsWfFrom-InOrder 0 _ wf)) [
          | at pre post r place split same ↦
              absurd (true_not_false (sym e ∙ is_region_free_found regions (length pre) place))
          | between pre post place split b a ↦
              let tests =
                sym (
                  is_region_free_between pre post (
                    subst
                      (λ (l : List MappedRegion).
                        binary_search_address (address - padding.start) l ≡ missing (length pre))
                      split place))
                ∙ rw split at e in
              let lower = before_free-past 0 pre post (rw split at wf) b (and-left _ _ tests) in
              rw split (
                Free-sides 0 (address - padding.start) (address + size + padding.end) pre post
                  (rw split at wf) lower
                  (upper pre post (rw split at wf) (rw split at outside) a (and-right _ _ tests)))
        ]
      where
        true_not_false : ¬ (true ≡ false)
        true_not_false h = cc

        upper :
            (pre post : List MappedRegion)
            → IsWf (pre ++ post)
            → All
                (λ (r : MappedRegion). ¬ (
                  ((address - padding.start) < r.address)
                  × (past r ≤ looked_end address size padding)))
                (pre ++ post)
            → After (address - padding.start) post
            → after_free (length pre) (pre ++ post) ≡ true
            → StartsAt (address + size + padding.end) post
        upper pre [] wf outside a e = tt
        upper pre (r ∷ post) wf outside (lt, _) e =
            let away = All-at _ pre post r outside in
            let seen = sym (after_free_cons pre post r) ∙ e in
            ground (
              arith,
              contains_address_iff (looked_end address size padding) r
                  (IsWfFrom-IsRegion 0 pre post r wf),
            )
