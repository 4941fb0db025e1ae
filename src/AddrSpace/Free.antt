-- ===== src/AddrSpace/Free.antt =====
-- userland/aurora_core/src/allocator/addr_space.rs: the free regions, and the choice of an address.
use aurora_os.Prelude.{
  ℕ, ◌+◌, ◌-◌, ◌*◌, ◌%◌, List, [], ◌∷◌, ◌++◌, Bool, true, false, Option, none, some, leb, ltb, ◌==◌,
  if◌then◌else◌, not, ◌&&◌, ◌||◌, length, get_elem?,
}
use aurora_os.BitUtils.{usize_mod, page_size, wrapping_sub}
use aurora_os.BitUtils.Size.{bytes_aligned, pages_rounded}
use aurora_os.Container.VecMap.{found, missing, BinarySearch}
use aurora_os.AddrSpace.{
  MappedRegion, RegionPadding, max_map_addr, empty, start_address, end_address, contains_address,
  Outcome, ok, err, panic, overflow, no_available_region,
}
use aurora_os.AddrSpace.Regions.{binary_search_address}

-- `checked_add`, `checked_sub` and `checked_mul`
abbrev pub checked_add : ℕ → ℕ → Option ℕ
checked_add a b = if ltb (a + b) usize_mod then some (a + b) else none

abbrev checked_sub : ℕ → ℕ → Option ℕ
checked_sub a b = if leb b a then some (a - b) else none

abbrev checked_mul : ℕ → ℕ → Option ℕ
checked_mul a b = if ltb (a * b) usize_mod then some (a * b) else none

abbrev and_then : {A B : Type 0} → Option A → (A → Option B) → Option B
and_then none f = none
and_then (some a) f = f a

abbrev pub end_region : MappedRegion
end_region = record {
  map_target = empty;
  address = max_map_addr;
  size = 0;
  padding = record { start = 0; end = 0 };
}

-- The address and the size of what is free before each region, and after `prev_addr`.
unfoldable pub free_from : ℕ → List MappedRegion → List (ℕ × ℕ)
free_from prev_addr [] = []
free_from prev_addr (region ∷ regions) =
    let size = wrapping_sub (start_address region) prev_addr in
    let rest = free_from (end_address region) regions in
    if size == 0 then rest else (prev_addr, size) ∷ rest

unfoldable pub iter_free_regions : List MappedRegion → List (ℕ × ℕ)
unfolding free_from
iter_free_regions regions = free_from 0 (regions ++ (end_region ∷ []))

-- The start and the end that `is_region_free` looks at.
unfoldable pub region_start : ℕ → RegionPadding → Option ℕ
region_start address padding = checked_sub address (bytes_aligned padding.start)

unfoldable pub region_end : ℕ → ℕ → RegionPadding → Option ℕ
region_end address size padding =
    and_then (checked_mul (bytes_aligned size) page_size) λ size_bytes.
      and_then (checked_add address size_bytes) λ end. checked_add end (bytes_aligned padding.end)

abbrev pub holds_none : Option MappedRegion → ℕ → Bool
holds_none none addr = true
holds_none (some region) addr = not (contains_address addr region)

-- The length of the whole region, and `None` on overflow.
unfoldable pub region_size : ℕ → RegionPadding → Option ℕ
region_size size padding =
    and_then (checked_add (bytes_aligned size) (bytes_aligned padding.start))
      λ sum. checked_add sum (bytes_aligned padding.end)

module _ ⦃bs : BinarySearch MappedRegion⦄ (regions : List MappedRegion) where
  unfoldable pub is_region_free : ℕ → ℕ → RegionPadding → Bool
  unfolding region_start region_end
  is_region_free address size padding = elim (region_start address padding) [
    | none ↦ false
    | some start ↦ elim (region_end address size padding) [
      | none ↦ false
      | some end ↦
          if ltb max_map_addr end then false else elim (binary_search_address start regions) [
            | found _ ↦ false
            | missing index ↦
                ((index == 0) || holds_none (get_elem? regions (index - 1)) start)
                && ((index == length regions) || holds_none (get_elem? regions index) end)
          ]
    ]
  ]

abbrev pub positions : ℕ → ℕ → ℕ
positions size wanted = (wrapping_sub (pages_rounded size) (pages_rounded wanted) + 1) % usize_mod

-- The first pass, from the count so far.
unfoldable pub count_positions : ℕ → ℕ → List (ℕ × ℕ) → ℕ
count_positions wanted available [] = available
count_positions wanted available ((address, size) ∷ free) =
    if leb wanted size
    then count_positions wanted ((available + positions size wanted) % usize_mod) free
    else count_positions wanted available free

-- The second pass; without a place it panics.
unfoldable pub select_position : ℕ → ℕ → ℕ → List (ℕ × ℕ) → Outcome ℕ
select_position wanted offset position [] = panic
select_position wanted offset position ((address, size) ∷ free) =
    if leb wanted size
    then (if ltb position (positions size wanted)
        then ok ((address + position * page_size + offset) % usize_mod)
        else select_position wanted offset (position - positions size wanted) free)
    else select_position wanted offset position free

-- `draw` is what `aslr_rng` gives.
unfoldable pub find_map_address : ℕ → ℕ → RegionPadding → List MappedRegion → Outcome ℕ
unfolding region_size
find_map_address draw size padding regions = elim (region_size size padding) [
  | none ↦ err overflow
  | some bytes ↦
      let wanted = bytes_aligned bytes in
      let free = iter_free_regions regions in
      let available = count_positions wanted 0 free in
      if available == 0
      then err no_available_region
      else select_position wanted (bytes_aligned padding.start) (draw % available) free
]
