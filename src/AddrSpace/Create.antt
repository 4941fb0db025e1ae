-- ===== src/AddrSpace/Create.antt =====
-- userland/aurora_core/src/allocator/addr_space.rs: making a manager, and a mapping in the space of
-- another process and in the own one.
use aurora_os.Prelude.{ℕ, ◌+◌, ◌-◌, ◌*◌, ◌/◌, ◌%◌, ◌^◌, List, [], Option, none, some}
use aurora_os.BitUtils.{page_size}
use aurora_os.Container.VecMap.{BinarySearch}
use aurora_os.AddrSpace.{
  MappedRegion, Outcome, ok, err, panic, SysResult, map_err, from_sys, unwrap, region_list_oom,
}
use aurora_os.AddrSpace.Regions.{
  ◌>>=◌, MappedRegionStorage, MemoryCapStorage, region_list_max_size, vec_storage,
}
use aurora_os.AddrSpace.Action.{AddressSpaceCalls, AddrSpaceManager}
use aurora_os.AddrSpace.Map.{
  MapMemoryArgs, MapMemoryResult, map_memory, unmap_memory, reserve_null_page,
}

abbrev pub higher_half_start : ℕ
higher_half_start = 2 ^ 64 - 2 ^ 47

abbrev pub kernel_reserved_start : ℕ
kernel_reserved_start = 2 ^ 64 - 2 ^ 39

-- Where the list of regions is placed.
unfoldable pub list_address : ℕ → ℕ
list_address draw =
    let available =
      1 + (kernel_reserved_start - higher_half_start - region_list_max_size) / page_size in
    higher_half_start + draw % available * page_size

-- `MemoryCapStorage::new`, with the answers of the kernel, the contents of the new memory and the
-- state of the kernel then; a null address would panic.
unfoldable pub new_storage :
    {W : Type 0}
    → ℕ
    → SysResult ℕ
    → SysResult (Unit {0})
    → SysResult ℕ
    → (ℕ → MappedRegion)
    → W
    → Outcome (MemoryCapStorage W)
new_storage size_of_region new_memory mapped memory_size cells kernel = do
  memory ← map_err region_list_oom new_memory
  _ ← map_err region_list_oom mapped
  size ← from_sys memory_size
  ok (record {
    memory = memory;
    cells = cells;
    len = 0;
    capacity = size / size_of_region;
    kernel = kernel;
  })

module _ {W : Type 0} ⦃bs : BinarySearch MappedRegion⦄ ⦃calls : AddressSpaceCalls W⦄ where
  abbrev pub empty_manager : {T : Type 0} → T → W → AddrSpaceManager T W
  empty_manager storage kernel = record {
    memory_regions = storage;
    transient_region_count = 0;
    kernel = kernel;
  }

  -- The result of a reservation in a new manager.
  abbrev pub then_reserved :
      {T : Type 0} → Outcome (Unit {0}) × AddrSpaceManager T W → Outcome (AddrSpaceManager T W)
  then_reserved (ok _, s) = ok s
  then_reserved (err e, s) = err e
  then_reserved (panic, s) = panic

  unfoldable pub new_remote : ℕ → W → Outcome (AddrSpaceManager (List MappedRegion) W)
  unfolding reserve_null_page
  new_remote draw kernel = then_reserved (reserve_null_page draw (empty_manager [] kernel))

  -- The storage is made first.
  unfoldable pub new_local :
      {W' : Type 0}
      → MappedRegionStorage (MemoryCapStorage W')
      → ℕ
      → Outcome (MemoryCapStorage W')
      → W
      → Outcome (AddrSpaceManager (MemoryCapStorage W') W)
  unfolding reserve_null_page
  new_local st draw storage kernel =
      storage >>= λ t. then_reserved (reserve_null_page ⦃st = st⦄ draw (empty_manager t kernel))

pub record LocalRemoteMapResult : Type 0 where
  pub remote_address : ℕ
  pub local_address : Option ℕ
  pub size : ℕ

-- The managers of the other process and of the own one.
pub record Managers (T T' W W' : Type 0) : Type 0 where
  pub remote : AddrSpaceManager T W
  pub here : AddrSpaceManager T' W'

-- The mapping in the own space.
abbrev pub local_args : ℕ → ℕ → ℕ → MapMemoryArgs
local_args read_write memory size = record {
  memory = some memory;
  options = read_write;
  address = none;
  size = some size;
  padding = record { start = 0; end = 0 };
}

module _ {T T' W W' : Type 0} ⦃bs : BinarySearch MappedRegion⦄ ⦃st : MappedRegionStorage T⦄
    ⦃st' : MappedRegionStorage T'⦄ ⦃calls : AddressSpaceCalls W⦄
    ⦃calls' : AddressSpaceCalls W'⦄ where
  -- After the local mapping; a failure takes the remote one back.
  unfoldable pub after_local :
      MapMemoryResult
      → AddrSpaceManager T W
      → Outcome MapMemoryResult × AddrSpaceManager T' W'
      → Outcome LocalRemoteMapResult × Managers T T' W W'
  unfolding unmap_memory
  after_local there remote (ok here_mapped, here) = (
    ok (record {
      remote_address = there.address;
      local_address = some here_mapped.address;
      size = there.size;
    }),
    record { remote = remote; here = here },
  )
  after_local there remote (err e, here) =
      let (undone, remote') = unmap_memory there.address remote in
      (unwrap undone >>= λ _. err e, record { remote = remote'; here = here })
  after_local there remote (panic, here) = (panic, record { remote = remote; here = here })

  -- After the clone of the memory.
  unfoldable pub after_clone :
      ℕ
      → ℕ
      → MapMemoryResult
      → AddrSpaceManager T W
      → AddrSpaceManager T' W'
      → SysResult ℕ × W'
      → Outcome LocalRemoteMapResult × Managers T T' W W'
  unfolding map_memory after_local
  after_clone draw read_write there remote here (SysResult.returned copy, w) =
      after_local there remote
        (map_memory draw (local_args read_write copy there.size) (record here { kernel = w }))
  after_clone draw read_write there remote here (SysResult.refused e, w) = (
    from_sys (SysResult.refused e),
    record { remote = remote; here = record here { kernel = w } },
  )

  -- After the remote mapping; the clone is made by the process of the own space.
  unfoldable pub after_remote :
      ℕ
      → ℕ
      → AddrSpaceManager T' W'
      → Outcome MapMemoryResult × AddrSpaceManager T W
      → Outcome LocalRemoteMapResult × Managers T T' W W'
  unfolding after_clone
  after_remote draw read_write here (ok there, remote) = elim there.memory [
    | none ↦ (
      ok (record { remote_address = there.address; local_address = none; size = there.size }),
      record { remote = remote; here = here },
    )
    | some given ↦
        after_clone draw read_write there remote here (calls'.clone_memory given here.kernel)
  ]
  after_remote draw read_write here (err e, remote) =
      (err e, record { remote = remote; here = here })
  after_remote draw read_write here (panic, remote) =
      (panic, record { remote = remote; here = here })

  unfoldable pub map_memory_remote_and_local :
      ℕ
      → ℕ
      → ℕ
      → MapMemoryArgs
      → Managers T T' W W'
      → Outcome LocalRemoteMapResult × Managers T T' W W'
  unfolding after_remote map_memory
  map_memory_remote_and_local draw draw' read_write args s =
      after_remote draw' read_write s.here (map_memory draw args s.remote)

module _ {T' W' : Type 0} ⦃bs : BinarySearch MappedRegion⦄ ⦃st' : MappedRegionStorage T'⦄
    ⦃calls' : AddressSpaceCalls W'⦄ where
  -- `drop` of the result.
  unfoldable pub drop_result :
      LocalRemoteMapResult → AddrSpaceManager T' W' → Outcome (Unit {0}) × AddrSpaceManager T' W'
  unfolding unmap_memory
  drop_result r here = elim r.local_address [
    | none ↦ (ok tt, here)
    | some address ↦ let (undone, here') = unmap_memory address here in (unwrap undone, here')
  ]
