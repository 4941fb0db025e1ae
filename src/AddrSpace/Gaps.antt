-- ===== src/AddrSpace/Gaps.antt =====
-- The free regions of a well-formed list: whole pages that no region has.
use aurora_os.Prelude.{
  ℕ, ◌+◌, ◌-◌, ◌==◌, ◌≤◌, ◌<◌, ◌≡◌, ◌⊎◌, inl, inr, refl, arith, List, [], ◌∷◌, ◌++◌, if◌then◌else◌,
  if_cases,
}
use aurora_os.BitUtils.{wrapping_sub}
use aurora_os.AddrSpace.{MappedRegion, max_map_addr, start_address}
use aurora_os.AddrSpace.Free.{free_from, end_region}
use aurora_os.AddrSpace.IsWf.{
  IsPaged, first, past, IsRegion, IsWfFrom, Free, start_address-first, end_address-past,
}

-- A list of places of whole pages, in order from an address on.
unfoldable pub IsGaps : ℕ → List (ℕ × ℕ) → Type 0
IsGaps lo [] = Unit
IsGaps lo ((address, size) ∷ gaps) =
    (lo ≤ address)
    × IsPaged address
    × IsPaged size
    × (0 < size)
    × (address + size ≤ max_map_addr)
    × IsGaps (address + size) gaps

-- Some place of the list holds the addresses.
unfoldable pub Holds : ℕ → ℕ → List (ℕ × ℕ) → Type 0
Holds lo hi [] = ⊥
Holds lo hi ((address, size) ∷ gaps) = ((address ≤ lo) × (hi ≤ address + size)) ⊎ Holds lo hi gaps

pub IsGaps-from : (lo lo' : ℕ) (gaps : List (ℕ × ℕ)) → lo ≤ lo' → IsGaps lo' gaps → IsGaps lo gaps
unfolding IsGaps
IsGaps-from lo lo' [] le g = tt
IsGaps-from lo lo' ((a, s) ∷ gaps) le (l, g1, g2, g3, g4, g5) =
    (omega (arith, l, le), g1, g2, g3, g4, g5)

-- The gap in front of a region that begins at `hi`.
abbrev gap : ℕ → ℕ → List (ℕ × ℕ) → List (ℕ × ℕ)
gap lo hi gaps = if wrapping_sub hi lo == 0 then gaps else (lo, wrapping_sub hi lo) ∷ gaps

gap-IsGaps :
    (lo hi : ℕ) (gaps : List (ℕ × ℕ))
    → lo ≤ hi
    → hi ≤ max_map_addr
    → IsPaged lo
    → IsPaged hi
    → IsGaps hi gaps
    → IsGaps lo (gap lo hi gaps)
unfolding IsGaps
gap-IsGaps lo hi gaps le below pl ph g =
    let size : wrapping_sub hi lo ≡ hi - lo = omega arith in
    if_cases (IsGaps lo) (wrapping_sub hi lo == 0) (λ e. IsGaps-from lo hi gaps le g)
      (λ e. (
        omega arith,
        pl,
        omega (arith, size),
        ground (arith, size),
        omega (arith, size),
        IsGaps-from (lo + wrapping_sub hi lo) hi gaps (omega (arith, size)) g,
      ))

-- What a gap holds is in it or in the rest.
gap-Holds :
    (a b lo hi : ℕ) (gaps : List (ℕ × ℕ))
    → lo ≤ hi
    → hi ≤ max_map_addr
    → a < b
    → Holds a b (gap lo hi gaps)
    → ((lo ≤ a) × (b ≤ hi)) ⊎ Holds a b gaps
unfolding Holds
gap-Holds a b lo hi gaps le below ab =
    let size : wrapping_sub hi lo ≡ hi - lo = omega arith in
    if_cases (λ g. Holds a b g → ((lo ≤ a) × (b ≤ hi)) ⊎ Holds a b gaps) (wrapping_sub hi lo == 0)
      (λ e h. inr h)
      (λ e h. elim h [ inl (x, y) ↦ inl (x, omega (arith, y, size)) | inr h' ↦ inr h' ])

Holds-gap :
    (a b lo hi : ℕ) (gaps : List (ℕ × ℕ))
    → lo ≤ hi
    → hi ≤ max_map_addr
    → a < b
    → ((lo ≤ a) × (b ≤ hi)) ⊎ Holds a b gaps
    → Holds a b (gap lo hi gaps)
unfolding Holds
Holds-gap a b lo hi gaps le below ab h =
    let size : wrapping_sub hi lo ≡ hi - lo = omega arith in
    if_cases (λ g. Holds a b g) (wrapping_sub hi lo == 0)
      (λ e. elim h [ inl (x, y) ↦ absurd (ground (arith, size)) | inr h' ↦ h' ])
      (λ e. elim h [ inl (x, y) ↦ inl (x, omega (arith, y, size)) | inr h' ↦ inr h' ])

-- The gaps with the end region, seen from the start of the list.
free_from-cons :
    (lo : ℕ) (r : MappedRegion) (rs : List MappedRegion)
    → IsRegion r
    → free_from lo (r ∷ rs) ≡ gap lo (first r) (free_from (past r) rs)
unfolding free_from
free_from-cons lo r rs w = rw (free_from, start_address-first r w, end_address-past r w) refl

free_from-end : (lo : ℕ) → free_from lo (end_region ∷ []) ≡ gap lo max_map_addr []
unfolding free_from start_address
free_from-end lo = refl

pub free_from-IsGaps :
    (lo : ℕ) (rs : List MappedRegion)
    → IsPaged lo
    → IsWfFrom lo rs
    → IsGaps lo (free_from lo (rs ++ (end_region ∷ [])))
unfolding IsWfFrom IsGaps
free_from-IsGaps lo [] p w =
    rw (free_from-end lo) (gap-IsGaps lo max_map_addr [] w (omega arith) p refl tt)
free_from-IsGaps lo (r ∷ rs) p (w, l, ws) =
    let paged : IsPaged (past r) = omega (arith, w.address_paged, w.size_paged, w.end_paged) in
    let rest = free_from-IsGaps (past r) rs paged ws in
    rw (free_from-cons lo r (rs ++ (end_region ∷ [])) w) (
      gap-IsGaps lo (first r) _ l (omega (arith, w.nonempty, w.below_end)) p
        (omega (arith, w.fits, w.address_paged, w.start_paged))
        (IsGaps-from (first r) (past r) _ (omega (arith, w.nonempty)) rest))

-- What a free region holds is apart from every region, below the end and after `lo`.
pub Holds-Free :
    (a b lo : ℕ) (rs : List MappedRegion)
    → a < b
    → IsWfFrom lo rs
    → Holds a b (free_from lo (rs ++ (end_region ∷ [])))
    → Free a b rs × (lo ≤ a) × (b ≤ max_map_addr)
unfolding IsWfFrom Holds
Holds-Free a b lo [] ab w h =
    elim (gap-Holds a b lo max_map_addr [] w (omega arith) ab (rw (free_from-end lo) at h)) [
      | inl (x, y) ↦ (tt, x, y)
      | inr never ↦ absurd never
    ]
Holds-Free a b lo (r ∷ rs) ab (w, l, ws) h =
    elim (gap-Holds a b lo (first r) _ l (omega (arith, w.nonempty, w.below_end)) ab
      (rw (free_from-cons lo r (rs ++ (end_region ∷ [])) w) at h)) [
        | inl (x, y) ↦ (
          (inr y, Free-before a b (past r) rs (omega (arith, y, w.nonempty)) ws),
          x,
          omega (arith, y, w.nonempty, w.below_end),
        )
        | inr h' ↦
            let (f, x, y) = Holds-Free a b (past r) rs ab ws h' in
            ((inl x, f), omega (arith, l, x, w.nonempty), y)
      ]
  where
    Free-before : (a b lo : ℕ) (rs : List MappedRegion) → b ≤ lo → IsWfFrom lo rs → Free a b rs
    Free-before a b lo [] le w = tt
    Free-before a b lo (r ∷ rs) le (w, l, ws) = (
      inr (omega (arith, le, l)),
      Free-before a b (past r) rs (omega (arith, l, le, w.nonempty)) ws,
    )

-- What is apart from every region is in a free region.
pub Free-Holds :
    (a b lo : ℕ) (rs : List MappedRegion)
    → a < b
    → IsWfFrom lo rs
    → Free a b rs
    → lo ≤ a
    → b ≤ max_map_addr
    → Holds a b (free_from lo (rs ++ (end_region ∷ [])))
unfolding IsWfFrom Holds
Free-Holds a b lo [] ab w f x y =
    rw (free_from-end lo) (Holds-gap a b lo max_map_addr [] w (omega arith) ab (inl (x, y)))
Free-Holds a b lo (r ∷ rs) ab (w, l, ws) (apart, f) x y =
    rw (free_from-cons lo r (rs ++ (end_region ∷ [])) w) (
      Holds-gap a b lo (first r) _ l (omega (arith, w.nonempty, w.below_end)) ab
        (elim apart [ inl z ↦ inr (Free-Holds a b (past r) rs ab ws f z y) | inr z ↦ inl (x, z) ]))
