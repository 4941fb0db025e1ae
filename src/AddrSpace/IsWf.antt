-- ===== src/AddrSpace/IsWf.antt =====
-- The lists of regions that the manager keeps, without the code.
use aurora_os.Prelude.{ℕ, ◌+◌, ◌-◌, ◌/◌, ◌%◌, ◌≤◌, ◌<◌, ◌≡◌, ◌⊎◌, arith, List, [], ◌∷◌, All}
use aurora_os.BitUtils.{page_size, usize_mod, IsUsize}
use aurora_os.BitUtils.Align.{align_up_lem}
use aurora_os.BitUtils.Size.{bytes_aligned, pages_rounded}
use aurora_os.AddrSpace.{MappedRegion, start_address, end_address, max_map_addr}

abbrev pub IsPaged : ℕ → Type 0
IsPaged n = n % page_size ≡ 0

-- The first address of a region with its padding, and the first one after it.
abbrev pub first : MappedRegion → ℕ
first region = region.address - region.padding.start

abbrev pub past : MappedRegion → ℕ
past region = region.address + region.size + region.padding.end

-- The padding in front fits below the address, something is reserved from the address on, and all
-- lengths are of whole pages.
pub record IsRegion (region : MappedRegion) : Type 0 where
  pub fits : region.padding.start ≤ region.address
  pub nonempty : region.address < past region
  pub below_end : past region ≤ max_map_addr
  pub address_paged : IsPaged region.address
  pub size_paged : IsPaged region.size
  pub start_paged : IsPaged region.padding.start
  pub end_paged : IsPaged region.padding.end

-- In order from an address on, without overlap.
unfoldable pub IsWfFrom : ℕ → List MappedRegion → Type 0
IsWfFrom lo [] = lo ≤ max_map_addr
IsWfFrom lo (region ∷ regions) =
    IsRegion region × (lo ≤ first region) × IsWfFrom (past region) regions

abbrev pub IsWf : List MappedRegion → Type 0
IsWf regions = IsWfFrom 0 regions

-- Apart from the addresses from `lo` up to `hi`.
abbrev pub Apart : ℕ → ℕ → MappedRegion → Type 0
Apart lo hi region = (past region ≤ lo) ⊎ (hi ≤ first region)

abbrev pub Free : ℕ → ℕ → List MappedRegion → Type 0
Free lo hi regions = All (Apart lo hi) regions

pub bytes_aligned-paged :
    (n : ℕ) → IsUsize n → IsPaged n → (bytes_aligned n ≡ n) × (pages_rounded n ≡ n / page_size)
unfolding bytes_aligned pages_rounded
bytes_aligned-paged n word paged =
    let up = align_up_lem n 12 (omega arith) (omega arith) in (omega (arith, up), omega (arith, up))

pub bytes_aligned_least :
    (n : ℕ)
    → n + page_size ≤ usize_mod
    → (n ≤ bytes_aligned n) × (bytes_aligned n < n + page_size) × IsPaged (bytes_aligned n)
unfolding bytes_aligned
bytes_aligned_least n fits =
    let up = align_up_lem n 12 (omega arith) fits in
    (omega (arith, up), omega (arith, up), omega (arith, up))

pub start_address-first :
    (region : MappedRegion) → IsRegion region → start_address region ≡ first region
unfolding start_address
start_address-first region r = omega (arith, r.fits, r.nonempty, r.below_end)

pub end_address-past : (region : MappedRegion) → IsRegion region → end_address region ≡ past region
unfolding end_address
end_address-past region r = omega (arith, r.below_end)

pub IsWfFrom-below :
    (lo : ℕ) (regions : List MappedRegion) → IsWfFrom lo regions → lo ≤ max_map_addr
unfolding IsWfFrom
IsWfFrom-below lo [] w = w
IsWfFrom-below lo (r ∷ rs) (w, l, ws) = omega (arith, w.nonempty, w.below_end, l)
