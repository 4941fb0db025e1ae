-- ===== src/AddrSpace/Find.antt =====
-- Where find_map_address puts a mapping.
use native.Mathlib.Nat.{mod-lt}
use aurora_os.Prelude.{
  ℕ, ◌+◌, ◌-◌, ◌*◌, ◌/◌, ◌%◌, ◌==◌, ◌≤◌, ◌<◌, ◌≡◌, ◌∙◌, ap, inl, inr, refl, arith, List, [], ◌∷◌,
  if◌then◌else◌, Bool-cases, leb, ltb, none, some, leb→le, ltb→lt,
}
use aurora_os.BitUtils.{page_size, usize_mod, IsUsize}
use aurora_os.AddrSpace.{
  MappedRegion, RegionPadding, max_map_addr, Outcome, ok, err, no_available_region, overflow,
}
use aurora_os.AddrSpace.Free.{
  positions, count_positions, select_position, iter_free_regions, region_size, find_map_address,
}
use aurora_os.AddrSpace.IsWf.{IsPaged, IsWf, Free, bytes_aligned-paged}
use aurora_os.AddrSpace.Gaps.{IsGaps, Holds, free_from-IsGaps, Holds-Free, Free-Holds}

module _ (wanted : ℕ) where
  -- The number of places in a list of free regions.
  spots : List (ℕ × ℕ) → ℕ
  spots [] = 0
  spots ((address, size) ∷ gaps) =
      (if leb wanted size then size / page_size - wanted / page_size + 1 else 0) + spots gaps

  -- What the second pass answers: a place that some free region holds.
  abbrev Selects : ℕ → List (ℕ × ℕ) → Outcome ℕ → Type 0
  Selects offset gaps r =
      (base : ℕ) × (r ≡ ok (base + offset)) × IsPaged base × Holds base (base + wanted) gaps

  Selects-later :
      (offset address size : ℕ) (gaps : List (ℕ × ℕ)) (r : Outcome ℕ)
      → Selects offset gaps r
      → Selects offset ((address, size) ∷ gaps) r
  unfolding Holds
  Selects-later offset address size gaps r (base, e, p, holds) = (base, e, p, inr holds)

  -- Without a place no free region holds as much.
  no_spots : (a : ℕ) (gaps : List (ℕ × ℕ)) → spots gaps ≡ 0 → ¬ Holds a (a + wanted) gaps
  unfolding spots Holds
  no_spots a [] none_left h = h
  no_spots a ((b, s) ∷ gaps) none_left (inl (x, y)) = absurd (ground arith)
  no_spots a ((b, s) ∷ gaps) none_left (inr h) = no_spots a gaps (ground arith) h

module _ (wanted : ℕ) (pos : 0 < wanted) (word : IsUsize wanted) (paged : IsPaged wanted) where
  positions_lem :
      (size : ℕ)
      → wanted ≤ size
      → size ≤ max_map_addr
      → IsPaged size
      → positions size wanted ≡ size / page_size - wanted / page_size + 1
  positions_lem size le below p =
      rw ((bytes_aligned-paged size (omega arith) p).1, (bytes_aligned-paged wanted word paged).1)
        (omega arith)

  count_positions_lem :
      (available lo : ℕ) (gaps : List (ℕ × ℕ))
      → available * page_size ≤ lo
      → lo ≤ max_map_addr
      → IsGaps lo gaps
      → count_positions wanted available gaps ≡ available + spots wanted gaps
  unfolding count_positions spots IsGaps
  count_positions_lem available lo [] fits below g = omega arith
  count_positions_lem available lo ((a, s) ∷ gaps) fits below (l, pa, ps, q, top, g) =
      elim (Bool-cases (leb wanted s)) [
        | inl h ↦
            let here = positions_lem s (leb→le _ _ h) (omega (arith, top)) ps in
            let sum : (available + positions s wanted) % usize_mod
                ≡ available + (s / page_size - wanted / page_size + 1) =
              omega (arith, here, fits, below, top, pos, paged) in
            rw (h, sum)
              (count_positions_lem (available + (s / page_size - wanted / page_size + 1)) (a + s)
                  gaps (omega (arith, fits, l, ps, pos, paged, leb→le _ _ h)) (omega (arith, top)) g
                ∙ omega arith)
        | inr h ↦ rw h (
            count_positions_lem available (a + s) gaps (omega (arith, fits, l)) (omega (arith, top))
              g
            ∙ omega arith)
      ]

  select_position-Selects :
      (offset position lo : ℕ) (gaps : List (ℕ × ℕ))
      → offset ≤ wanted
      → IsGaps lo gaps
      → position < spots wanted gaps
      → Selects wanted offset gaps (select_position wanted offset position gaps)
  unfolding select_position spots IsGaps Holds
  select_position-Selects offset position lo [] o g lt = absurd (omega (arith, lt))
  select_position-Selects offset position lo ((a, s) ∷ gaps) o (l, pa, ps, q, top, g) lt =
      elim (Bool-cases (leb wanted s)) [
        | inl h ↦
            let here = positions_lem s (leb→le _ _ h) (omega (arith, top)) ps in
            let lt' = rw h at lt in
            elim (Bool-cases (ltb position (positions s wanted))) [
              | inl chosen ↦
                  let inside = ltb→lt _ _ chosen in
                  let base = a + position * page_size in
                  let fits : base + wanted ≤ a + s =
                    omega (arith, inside, here, paged, ps, leb→le _ _ h) in
                  (
                    base,
                    rw (h, chosen) (ap ok (omega (arith, o, fits, top))),
                    omega (arith, pa),
                    inl (omega arith, fits),
                  )
              | inr beyond ↦
                  rw (h, beyond)
                    (Selects-later wanted offset a s gaps _ (
                      select_position-Selects offset (position - positions s wanted) (a + s) gaps o
                        g (ground (arith, lt', here))))
            ]
        | inr h ↦ rw h (
            Selects-later wanted offset a s gaps _ (
              select_position-Selects offset position (a + s) gaps o g (omega (arith, rw h at lt))))
      ]

module _ (size : ℕ) (padding : RegionPadding) where
  -- The length of the whole region.
  abbrev pub total : ℕ
  total = size + padding.start + padding.end

  -- What the manager does without an address.
  pub data Places (regions : List MappedRegion) : Outcome ℕ → Type 0 where
    placed :
        (address : ℕ)
        → padding.start ≤ address
        → IsPaged address
        → address + size + padding.end ≤ max_map_addr
        → Free (address - padding.start) (address + size + padding.end) regions
        → Places regions (ok address)
    full :
        ((a : ℕ) → a + total ≤ max_map_addr → ¬ Free a (a + total) regions)
        → Places regions (err no_available_region)
    too_large : usize_mod ≤ total → Places regions (err overflow)

module _ (size : ℕ) (padding : RegionPadding) (sw : IsUsize size) (bw : IsUsize padding.start)
    (ew : IsUsize padding.end) (sp : IsPaged size) (bp : IsPaged padding.start)
    (ep : IsPaged padding.end) where
  pub region_size_lem :
      region_size size padding
      ≡ (if ltb (total size padding) usize_mod then some (total size padding) else none)
  unfolding region_size
  region_size_lem =
      rw
        (
          (bytes_aligned-paged size sw sp).0,
          (bytes_aligned-paged padding.start bw bp).0,
          (bytes_aligned-paged padding.end ew ep).0,
        )
        (ground arith)

  Selects-Places :
      (regions : List MappedRegion) (r : Outcome ℕ)
      → 0 < total size padding
      → IsWf regions
      → Selects (total size padding) padding.start (iter_free_regions regions) r
      → Places size padding regions r
  unfolding iter_free_regions
  Selects-Places regions r pos w (base, e, p, holds) =
      let (free, _, top) =
        Holds-Free base (base + total size padding) 0 regions (omega arith) w holds in
      let lo : base + padding.start - padding.start ≡ base = omega arith in
      let hi : base + padding.start + size + padding.end ≡ base + total size padding =
        omega arith in
      rw e (
        Places.placed (base + padding.start) (omega arith) (omega (arith, p, bp))
          (omega (arith, top)) (rw (lo, hi) free))

  -- For a list of regions that is well-formed (of whole pages, in the order of their addresses,
  -- apart with their paddings, each with something from its address on, below the end of the lower
  -- half), and a size and paddings that are words of whole pages and not all 0, find_map_address
  -- does not panic whatever the random number is: it answers with a page address behind its
  -- padding, where the whole lies below the end of the lower half and apart from all regions; or
  -- NoAvailableRegion, and then no place of that length is free; or Overflow, and then the length
  -- is no word.
  pub find_map_address-Places :
      (draw : ℕ) (regions : List MappedRegion)
      → 0 < total size padding
      → IsWf regions
      → Places size padding regions (find_map_address draw size padding regions)
  unfolding find_map_address iter_free_regions
  find_map_address-Places draw regions pos w =
      elim (Bool-cases (ltb (total size padding) usize_mod)) [
        | inr h ↦
            let over : region_size size padding ≡ none = region_size_lem ∙ rw h refl in
            rw (find_map_address, over) (Places.too_large (ground arith))
        | inl h ↦
            let word : IsUsize (total size padding) = ltb→lt _ _ h in
            let paged : IsPaged (total size padding) = omega (arith, sp, bp, ep) in
            let some_bytes : region_size size padding ≡ some (total size padding) =
              region_size_lem ∙ rw h refl in
            let wanted = (bytes_aligned-paged (total size padding) word paged).0 in
            let offset = (bytes_aligned-paged padding.start bw bp).0 in
            let gaps = free_from-IsGaps 0 regions refl w in
            let counted =
              count_positions_lem (total size padding) pos word paged 0 0 _ (omega arith)
                (omega arith) gaps in
            let places = spots (total size padding) (iter_free_regions regions) in
            rw (find_map_address, some_bytes, wanted, offset, counted)
              (elim (Bool-cases (0 + places == 0)) [
                | inl nowhere ↦ rw nowhere (
                    Places.full (λ a top free. no_spots (total size padding) a _ (ground arith) (
                      Free-Holds a (a + total size padding) 0 regions (omega arith) w free
                        (omega arith) top)))
                | inr somewhere ↦ rw somewhere (
                    Selects-Places regions _ pos w (
                      select_position-Selects (total size padding) pos word paged padding.start
                        (draw % (0 + places)) 0 _ (omega arith) gaps
                        (ground (arith, mod-lt draw {m = 0 + places}))))
              ])
      ]
