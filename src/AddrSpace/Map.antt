-- ===== src/AddrSpace/Map.antt =====
-- userland/aurora_core/src/allocator/addr_space.rs: mapping and unmapping.
use aurora_os.Prelude.{
  ℕ, ◌+◌, ◌%◌, ◌==◌, Bool, true, false, Option, none, some, get_elem?, if◌then◌else◌, ◌&&◌, ◌||◌,
  not,
}
use aurora_os.BitUtils.{page_size, usize_mod}
use aurora_os.BitUtils.Size.{bytes_aligned}
use aurora_os.Container.VecMap.{BinarySearch}
use aurora_os.AddrSpace.{
  SysResult, MappedRegion, MappingTarget, RegionPadding, Outcome, ok, err, panic, from_sys, map_err,
  unwrap, from_memory, target_memory, is_empty, memory, event_pool, phys_mem, zero_size_mapping,
  mapping_overlap, overflow, size_mismatch, ananamous_mapping_oom,
}
use aurora_os.AddrSpace.Regions.{MappedRegionStorage, insert_region, remove_region, get_region}
use aurora_os.AddrSpace.Free.{region_size, is_region_free, find_map_address}
use aurora_os.AddrSpace.Action.{
  AddressSpaceCalls, Action, pure, fail, asks, call, on_regions, on_error, ◌>>=◌, ◌>>◌,
}

pub record MapMemoryArgs : Type 0 where
  pub memory : Option ℕ
  pub options : ℕ
  pub address : Option ℕ
  pub size : Option ℕ
  pub padding : RegionPadding

pub record MapMemoryResult : Type 0 where
  pub address : ℕ
  pub size : ℕ
  pub memory : Option ℕ

-- Of an event pool or of physical memory, with the options for the latter.
pub record MapArgs : Type 0 where
  pub capability : ℕ
  pub options : ℕ
  pub address : Option ℕ
  pub padding : RegionPadding

pub record MapResult : Type 0 where
  pub address : ℕ
  pub size : ℕ

abbrev pub unwrap_sys : SysResult (Unit {0}) → Outcome (Unit {0})
unwrap_sys r = unwrap (from_sys r)

abbrev pub is_some : Option ℕ → Bool
is_some none = false
is_some (some _) = true

abbrev pub or_panic {ℓ} : {A : Type ℓ} → Option A → Outcome A
or_panic none = panic
or_panic (some a) = ok a

module _ {T W : Type 0} ⦃bs : BinarySearch MappedRegion⦄ ⦃st : MappedRegionStorage T⦄
    ⦃calls : AddressSpaceCalls W⦄ where
  unfoldable pub await_transient_region_unmap : Action T W (Unit {0})
  await_transient_region_unmap s = (
    ok tt,
    record s {
      transient_region_count = 0;
      kernel = calls.settled s.transient_region_count s.kernel;
    },
  )

  -- The memory to map, if any, and its size.
  unfoldable pub take_memory : MapMemoryArgs → Action T W (Option ℕ × ℕ)
  take_memory args = elim args.memory [
    | some given ↦ do
      memory_size ← asks (λ s. from_sys (calls.memory_size given s.kernel))
      pure (some given, memory_size)
    | none ↦ elim args.size [
      | some size ↦ do
        new ← call (map_err ananamous_mapping_oom) (calls.new_memory (bytes_aligned size))
        pure (some new, bytes_aligned size)
      | none ↦ pure (none, 0)
    ]
  ]

  -- The checks on the length of the whole region.
  unfoldable pub check_size : Bool → ℕ → RegionPadding → Action T W (Unit {0})
  check_size refused size padding = elim (region_size size padding) [
    | none ↦ fail overflow
    | some bytes ↦ if (bytes == 0) || refused then fail zero_size_mapping else pure tt
  ]

  -- The address asked for if it is free, or a random one.
  unfoldable pub choose_address : ℕ → Option ℕ → ℕ → RegionPadding → Action T W ℕ
  choose_address draw address size padding = elim address [
    | some address ↦ asks λ s.
        if not (is_region_free (st.regions s.memory_regions) address size padding)
        then err mapping_overlap
        else ok address
    | none ↦ asks λ s. find_map_address draw size padding (st.regions s.memory_regions)
  ]

  -- `memory_regions.get(index).unwrap()`
  abbrev pub stored_region : ℕ → Action T W MappedRegion
  stored_region index = asks λ s. or_panic (get_elem? (st.regions s.memory_regions) index)

  -- `remove_region(address).unwrap()`
  abbrev pub drop_region : ℕ → Action T W (Unit {0})
  drop_region address = do on_regions (λ t. unwrap (remove_region address t)); pure tt

  -- The system call for a new region.
  unfoldable pub map_region : ℕ → ℕ → ℕ → MappingTarget → Action T W (Unit {0})
  unfolding remove_region
  map_region address size options target = elim target [
    | memory m ↦
        on_error (call from_sys (calls.map_memory m address size options)) (drop_region address)
    | _ ↦ pure tt
  ]

  -- The end of map_memory, from the address on.
  unfoldable pub add_mapping : MapMemoryArgs → Option ℕ → ℕ → ℕ → Action T W MapMemoryResult
  unfolding map_region insert_region
  add_mapping args target size address = do
    let new_region : MappedRegion = record {
      map_target = from_memory target;
      address = address;
      size = size;
      padding = args.padding;
    }
    region_index ← on_regions (insert_region new_region)
    region ← stored_region region_index
    map_region address size args.options region.map_target
    mapped ← stored_region region_index
    pure (record { address = address; size = size; memory = target_memory mapped.map_target })

  unfoldable pub map_memory : ℕ → MapMemoryArgs → Action T W MapMemoryResult
  unfolding await_transient_region_unmap take_memory check_size choose_address add_mapping
  map_memory draw args = do
    await_transient_region_unmap
    (target, size) ← take_memory args
    check_size (is_some target && (size == 0)) size args.padding
    address ← choose_address draw args.address size args.padding
    add_mapping args target size address

  -- `address_space.unmap(address).unwrap()`
  abbrev pub undo_map : ℕ → Action T W (Unit {0})
  undo_map address = call unwrap_sys (calls.unmap address)

  -- The end of map_event_pool and map_phys_mem: the system call gives the size that it mapped.
  unfoldable pub insert_mapped : ℕ → MappedRegion → Action T W MapResult
  unfolding insert_region
  insert_mapped map_size region =
      let add : Action T W MapResult = do
        on_error (on_regions (insert_region region)) (undo_map region.address)
        pure (record { address = region.address; size = region.size })
      in let refuse : Action T W MapResult = undo_map region.address >> fail size_mismatch in
        if map_size == region.size then add else refuse

  unfoldable pub map_event_pool : ℕ → MapArgs → Action T W MapResult
  unfolding await_transient_region_unmap check_size choose_address insert_mapped
  map_event_pool draw args = do
    await_transient_region_unmap
    let size = calls.event_pool_size args.capability
    check_size false size args.padding
    address ← choose_address draw args.address size args.padding
    map_size ← call from_sys (calls.map_event_pool args.capability address)
    insert_mapped map_size (record {
      map_target = event_pool args.capability;
      address = address;
      size = size;
      padding = args.padding;
    })

  unfoldable pub map_phys_mem : ℕ → MapArgs → Action T W MapResult
  unfolding await_transient_region_unmap check_size choose_address insert_mapped
  map_phys_mem draw args = do
    await_transient_region_unmap
    size ← asks (λ s. from_sys (calls.phys_mem_size args.capability s.kernel))
    check_size false size args.padding
    address ← choose_address draw args.address size args.padding
    map_size ← call from_sys (calls.map_phys_mem args.capability address args.options)
    insert_mapped map_size (record {
      map_target = phys_mem args.capability;
      address = address;
      size = size;
      padding = args.padding;
    })

  unfoldable pub get_mapping_target : ℕ → Action T W MappingTarget
  unfolding get_region
  get_mapping_target address = do
    region ← asks (λ s. get_region address s.memory_regions)
    pure region.map_target

  unfoldable pub unmap_memory : ℕ → Action T W (Unit {0})
  unfolding remove_region
  unmap_memory address = do
    region ← on_regions (remove_region address)
    if is_empty region.map_target then pure tt else undo_map address

  abbrev pub count_transient : Action T W Bool
  count_transient s =
      (ok true, record s { transient_region_count = (s.transient_region_count + 1) % usize_mod })

  -- Whether the caller has to unmap the memory.
  unfoldable pub unmap_transient : ℕ → Action T W Bool
  unfolding remove_region
  unmap_transient address = do
    region ← on_regions (remove_region address)
    if is_empty region.map_target then pure false else count_transient

  unfoldable pub reserve_null_page : ℕ → Action T W (Unit {0})
  unfolding map_memory
  reserve_null_page draw = do
    map_memory draw (record {
      memory = none;
      options = 0;
      address = some 0;
      size = none;
      padding = record { start = 0; end = page_size };
    })
    pure tt
