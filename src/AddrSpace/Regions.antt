-- ===== src/AddrSpace/Regions.antt =====
-- userland/aurora_core/src/allocator/addr_space.rs: the list of regions in order of their addresses.
-- The binary search is that of the library for slices.
use Prim.Native.Nat.{compare}
use aurora_os.Prelude.{
  ℕ, suc, ◌+◌, ◌-◌, ◌*◌, ◌/◌, ◌%◌, ◌==◌, ◌≡◌, List, ◌∷◌, ◌++◌, true, none, some, leb, ltb, length,
  take, drop, get_elem?, if◌then◌else◌,
}
use aurora_os.BitUtils.{usize_mod, page_size}
use aurora_os.Container.VecMap.{Place, found, missing, BinarySearch}
use aurora_os.AddrSpace.Cells.{write, copy, slice}
use aurora_os.AddrSpace.{
  SysResult, MappedRegion, Outcome, ok, err, panic, from_sys, region_list_oom,
  region_list_max_size_exceeded, invalid_address,
}

infixl 5 ◌>>=◌
abbrev pub ◌>>=◌ {ℓ κ} : {A : Type ℓ} {B : Type κ} → Outcome A → (A → Outcome B) → Outcome B
ok a >>= f = f a
err e >>= f = err e
panic >>= f = panic

-- The trait, with `regions` for the slice that a storage derefs to.
pub record MappedRegionStorage (T : Type 0) : Type 0 where
  pub regions : T → List MappedRegion
  pub insert : ℕ → MappedRegion → T → Outcome T
  pub remove : ℕ → T → Outcome (MappedRegion × T)

abbrev pub spliced : ℕ → MappedRegion → List MappedRegion → List MappedRegion
spliced index region list = take index list ++ (region ∷ drop index list)

abbrev pub cut : ℕ → List MappedRegion → List MappedRegion
cut index list = take index list ++ drop (suc index) list

-- What the manager relies on.
pub record StorageLaws (T : Type 0) (st : MappedRegionStorage T) : Type 0 where
  pub insert_splices :
      (index : ℕ) (region : MappedRegion) (t t' : T)
      → st.insert index region t ≡ ok t'
      → st.regions t' ≡ spliced index region (st.regions t)
  pub insert_returns :
      (index : ℕ) (region : MappedRegion) (t : T)
      → leb index (length (st.regions t)) ≡ true
      → ¬ (st.insert index region t ≡ panic)
  pub remove_cuts :
      (index : ℕ) (region : MappedRegion) (t : T)
      → get_elem? (st.regions t) index ≡ some region
      → (t' : T) × (st.remove index t ≡ ok (region, t'))
        × (st.regions t' ≡ cut index (st.regions t))

module _ ⦃bs : BinarySearch MappedRegion⦄ where
  unfoldable pub binary_search_address : ℕ → List MappedRegion → Place
  binary_search_address address =
      bs.binary_search_by (λ (region : MappedRegion). compare region.address address)

module _ {T : Type 0} ⦃bs : BinarySearch MappedRegion⦄ ⦃st : MappedRegionStorage T⦄ where
  unfoldable pub insert_region : MappedRegion → T → Outcome (ℕ × T)
  unfolding binary_search_address
  insert_region region t = elim (binary_search_address region.address (st.regions t)) [
    | found _ ↦ panic
    | missing index ↦ do t' ← st.insert index region t; ok (index, t')
  ]

  unfoldable pub remove_region : ℕ → T → Outcome (MappedRegion × T)
  unfolding binary_search_address
  remove_region address t = elim (binary_search_address address (st.regions t)) [
    | found index ↦ st.remove index t
    | missing _ ↦ err (invalid_address address)
  ]

  unfoldable pub get_region : ℕ → T → Outcome MappedRegion
  unfolding binary_search_address
  get_region address t = elim (binary_search_address address (st.regions t)) [
    | found index ↦ elim (get_elem? (st.regions t) index) [ none ↦ panic | some r ↦ ok r ]
    | missing _ ↦ err (invalid_address address)
  ]

-- The storage of a remote address space, a vector of the library.
instance abbrev pub vec_storage : MappedRegionStorage (List MappedRegion)
vec_storage = record {
  regions = λ list. list;
  insert = λ index region list.
      if leb index (length list) then ok (spliced index region list) else panic;
  remove = λ index list. elim (get_elem? list index) [
    | none ↦ panic
    | some region ↦ ok (region, cut index list)
  ];
}

-- The storage of the own address space, in a memory capability: `cells` has the regions that are in
-- the memory, of which `len` are valid, and `kernel` is the state of the kernel.
pub record MemoryCapStorage (W : Type 0) : Type 0 where
  pub memory : ℕ
  pub cells : ℕ → MappedRegion
  pub len : ℕ
  pub capacity : ℕ
  pub kernel : W

-- The system calls on the memory.
pub record MemoryCalls (W : Type 0) : Type 0 where
  pub memory_size : ℕ → W → SysResult ℕ
  pub memory_resize : ℕ → ℕ → W → SysResult ℕ × W

abbrev pub region_list_max_size : ℕ
region_list_max_size = 4096 * page_size

module _ {W : Type 0} where
  -- `deref` of the storage.
  unfoldable pub regions_of : MemoryCapStorage W → List MappedRegion
  regions_of t = slice t.cells t.len

  -- The end of try_grow, with the answer for the resize.
  unfoldable pub resized : ℕ → MemoryCapStorage W → SysResult ℕ × W → Outcome (MemoryCapStorage W)
  resized capacity t (SysResult.returned _, w) = ok (record t { capacity = capacity; kernel = w })
  resized capacity t (SysResult.refused _, w) = err region_list_oom

  unfoldable pub remove : ℕ → MemoryCapStorage W → Outcome (MappedRegion × MemoryCapStorage W)
  unfolding copy
  remove index t =
      let len = t.len - 1 in
      let moved = copy (index + 1) index (len - index) t.cells in
      if ltb index t.len then ok (t.cells index, record t { len = len; cells = moved }) else panic

-- The size of a region in memory is a parameter. A refused call leaves the storage as it is.
module _ {W : Type 0} ⦃sys : MemoryCalls W⦄ (size_of_region : ℕ) where
  unfoldable pub try_grow : MemoryCapStorage W → Outcome (MemoryCapStorage W)
  unfolding resized
  try_grow t = do
    size ← from_sys (sys.memory_size t.memory t.kernel)
    let new_size = size * 2 % usize_mod
    let answer = sys.memory_resize t.memory new_size t.kernel
    (if ltb region_list_max_size new_size
        then err region_list_max_size_exceeded
        else resized (new_size / size_of_region) t answer)

  unfoldable pub ensure_capacity : MemoryCapStorage W → Outcome (MemoryCapStorage W)
  unfolding try_grow
  ensure_capacity t = if t.len == t.capacity then try_grow t else ok t

  -- The regions from the index on move by one place.
  unfoldable pub insert_at : ℕ → MappedRegion → MemoryCapStorage W → MemoryCapStorage W
  unfolding write copy
  insert_at index region t = record t {
    cells = write index region (copy index (index + 1) (t.len - index) t.cells);
    len = t.len + 1;
  }

  unfoldable pub insert : ℕ → MappedRegion → MemoryCapStorage W → Outcome (MemoryCapStorage W)
  unfolding ensure_capacity insert_at
  insert index region t =
      let grown = ensure_capacity t >>= λ t'. ok (insert_at index region t') in
      if leb index t.len then grown else panic

  unfoldable pub memory_cap_storage : MappedRegionStorage (MemoryCapStorage W)
  unfolding insert remove regions_of
  memory_cap_storage = record { regions = regions_of; insert = insert; remove = remove }
