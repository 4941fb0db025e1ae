-- ===== src/AddrSpace/Tests.antt =====
-- Runs of the address space manager on a vector, with a kernel that gives every mapping.
mod Search
use Prim.Native.Nat.{Ordering, compare}
use aurora_os.Prelude.{
  ℕ, suc, ◌+◌, ◌≤◌, ◌<◌, ◌≡◌, refl, ap, none, some, List, [], ◌∷◌, ◌++◌, true, inl, inr, arith,
  replicate, ◌==◌, ==_refl, if◌then◌else◌,
}
use aurora_os.BitUtils.{align_up, page_size, usize_mod}
use aurora_os.BitUtils.Size.{bytes_aligned}
use aurora_os.Container.VecMap.{Place, found, missing, BinarySearch}
use aurora_os.AddrSpace.{
  MappedRegion, RegionPadding, contains_address, SysResult, returned, refused, memory, event_pool,
}
use aurora_os.AddrSpace.Regions.{
  StorageLaws, vec_storage, MemoryCapStorage, memory_cap_storage, insert, insert_at,
  ensure_capacity, try_grow, resized, MemoryCalls, binary_search_address,
}
use aurora_os.AddrSpace.Action.{AddressSpaceCalls, AddrSpaceManager, Ends}
use aurora_os.AddrSpace.Map.{MapMemoryArgs, MapArgs, map_event_pool, map_memory, reserve_null_page}
use aurora_os.AddrSpace.Free.{find_map_address, is_region_free, region_size}
use aurora_os.AddrSpace.IsWf.{Free, IsWf, IsWfFrom}
use aurora_os.AddrSpace.Order.{SearchLaws, InOrder, Finds, at, between, After}
use aurora_os.AddrSpace.Effects.{
  CallLaws, UndoLaws, IsPadding, Chosen, region_of, Same, Unchanged, Stored, Taken, Maps, MapsGiven,
  Mapped,
}
use aurora_os.AddrSpace.Find.{Places, find_map_address-Places}
use aurora_os.AddrSpace.Mapping.{map_memory-Ends}
use aurora_os.AddrSpace.NullPage.{null_region}
use aurora_os.AddrSpace.Storage.{
  vec_storage-StorageLaws, memory_cap_storage-StorageLaws, insert-Fits, Fits,
}
use aurora_os.AddrSpace.Asked.{is_region_free_overlaps, is_region_free-Free}
use aurora_os.AddrSpace.Pools.{map_event_pool-Ends}
use aurora_os.AddrSpace.Create.{Managers, map_memory_remote_and_local}
use aurora_os.AddrSpace.Remote.{EndsBoth, map_memory_remote_and_local-EndsBoth}
use aurora_os.AddrSpace.Reach.{Reach, Holds, Reach-Holds, map_memory-spares_null}
use aurora_os.KResult.{out_of_mem, invl_op}
use aurora_os.AddrSpace.Tests.Search.{search_from_front, front_laws}

-- A kernel that keeps the addresses where something is mapped, and unmaps nothing else.
abbrev Addresses : Type 0
Addresses = List ℕ

abbrev without : ℕ → Addresses → SysResult (Unit {0}) × Addresses
without address [] = (refused invl_op, [])
without address (a ∷ others) =
    let (answer, rest) = without address others in
    if a == address then (returned tt, others) else (answer, a ∷ rest)

instance abbrev generous : AddressSpaceCalls Addresses
generous = record {
  memory_size = λ m w. returned 8192;
  phys_mem_size = λ m w. returned 4096;
  event_pool_size = λ p. 4096;
  new_memory = λ size w. (returned 1, w);
  map_memory = λ m address size options w. (returned tt, address ∷ w);
  map_event_pool = λ p address w. (returned 4096, address ∷ w);
  map_phys_mem = λ m address options w. (returned 4096, address ∷ w);
  clone_memory = λ m w. (returned (m + 4), w);
  unmap = without;
  settled = λ n w. w;
}

generous-CallLaws : CallLaws generous
generous-CallLaws = record {
  memory_paged = λ m n w e. grind arith;
  phys_mem_paged = λ m n w e. grind arith;
}

first_unmapped : (address : ℕ) (w : Addresses) → (without address (address ∷ w)).0 ≡ returned tt
first_unmapped address w = rw (==_refl address) refl

generous-UndoLaws : UndoLaws generous
generous-UndoLaws = record {
  unmaps_memory = λ m address size options w e. first_unmapped address w;
  unmaps_event_pool = λ p address n w e. first_unmapped address w;
  unmaps_phys_mem = λ m address options n w e. first_unmapped address w;
}

abbrev no_padding : RegionPadding
no_padding = record { start = 0; end = 0 }

no_padding-IsPadding : IsPadding no_padding
no_padding-IsPadding = record {
  start_paged = refl;
  end_paged = refl;
  start_word = omega arith;
  end_word = omega arith;
}

abbrev guarded : RegionPadding
guarded = record { start = 4096; end = 4096 }

abbrev one_region : List MappedRegion
one_region = null_region ∷ []

one_region-IsWf : IsWf one_region
unfolding IsWfFrom
one_region-IsWf = (
  record {
    fits = omega arith;
    nonempty = omega arith;
    below_end = omega arith;
    address_paged = refl;
    size_paged = refl;
    start_paged = refl;
    end_paged = refl;
  },
  omega arith,
  omega arith,
)

abbrev manager : List MappedRegion → AddrSpaceManager (List MappedRegion) Addresses
manager regions = record { memory_regions = regions; transient_region_count = 0; kernel = [] }

abbrev two_pages : MapMemoryArgs
two_pages = record {
  memory = none;
  options = 3;
  address = none;
  size = some 8192;
  padding = no_padding;
}

any_size : (size : ℕ) → two_pages.size ≡ some size → size + page_size ≤ usize_mod
any_size size e =
    let same : 8192 ≡ size = ap (λ o. elim o [ none ↦ 0 | some n ↦ n ]) e in omega (arith, same)

find_map_address-Places_example :
    Places 8192 guarded one_region (find_map_address 5 8192 guarded one_region)
find_map_address-Places_example =
    find_map_address-Places 8192 guarded (omega arith) (omega arith) (omega arith) refl refl refl 5
      one_region (omega arith) one_region-IsWf

map_memory-Ends_example :
    Ends
      (MapsGiven (manager one_region) no_padding 3 none)
      (λ s'. s'.memory_regions ≡ one_region)
      (map_memory 7 two_pages (manager one_region))
map_memory-Ends_example =
    map_memory-Ends front_laws vec_storage-StorageLaws generous-CallLaws (manager one_region)
      one_region-IsWf 7 two_pages refl no_padding-IsPadding any_size (λ _ e. cc)

abbrev pool_args : MapArgs
pool_args = record { capability = 9; options = 0; address = none; padding = guarded }

guarded-IsPadding : IsPadding guarded
guarded-IsPadding = record {
  start_paged = refl;
  end_paged = refl;
  start_word = omega arith;
  end_word = omega arith;
}

map_event_pool-Ends_example :
    Ends
      (Mapped (manager one_region) guarded (event_pool 9))
      (λ s'. s'.memory_regions ≡ one_region)
      (map_event_pool 2 pool_args (manager one_region))
map_event_pool-Ends_example =
    map_event_pool-Ends front_laws vec_storage-StorageLaws generous-CallLaws generous-UndoLaws
      (manager one_region) one_region-IsWf 2 pool_args refl guarded-IsPadding refl (omega arith)
      (omega arith)

made_manager : Reach (reserve_null_page 0 (manager [])).1
unfolding reserve_null_page region_size bytes_aligned align_up is_region_free
made_manager = Reach.made 0 (manager []) refl refl

Reach-Holds_example : Holds (reserve_null_page 0 (manager [])).1
Reach-Holds_example =
    Reach-Holds front_laws vec_storage-StorageLaws generous-CallLaws generous-UndoLaws
      (reserve_null_page 0 (manager [])).1 made_manager

map_memory-spares_null_example :
    Ends
      (λ r s'. page_size + 0 ≤ r.address)
      (λ s'. s'.memory_regions ≡ (reserve_null_page 0 (manager [])).1.memory_regions)
      (map_memory 7 two_pages (reserve_null_page 0 (manager [])).1)
map_memory-spares_null_example =
    map_memory-spares_null front_laws vec_storage-StorageLaws generous-CallLaws generous-UndoLaws 7
      two_pages (reserve_null_page 0 (manager [])).1 made_manager refl no_padding-IsPadding any_size
      (λ _ e. cc)

abbrev inside_region : MappedRegion
inside_region = record {
  map_target = memory 4;
  address = 1052672;
  size = 4096;
  padding = no_padding;
}

inside_region-IsWf : IsWf (inside_region ∷ [])
unfolding IsWfFrom
inside_region-IsWf = (
  record {
    fits = omega arith;
    nonempty = omega arith;
    below_end = omega arith;
    address_paged = refl;
    size_paged = refl;
    start_paged = refl;
    end_paged = refl;
  },
  omega arith,
  omega arith,
)

is_region_free_overlaps_example : is_region_free (inside_region ∷ []) 1048576 8192 no_padding ≡ true
is_region_free_overlaps_example =
    is_region_free_overlaps 1048576 8192 no_padding no_padding-IsPadding refl (omega arith)
      (omega arith) (omega arith) front_laws [] [] inside_region inside_region-IsWf tt (omega arith)
      (omega arith)

is_region_free-Free_example : Free 1048576 (1048576 + 8192 + 0) one_region
unfolding is_region_free bytes_aligned align_up binary_search_address contains_address
is_region_free-Free_example =
    is_region_free-Free 1048576 8192 no_padding no_padding-IsPadding refl (omega arith)
      (omega arith) (omega arith) front_laws one_region one_region-IsWf
      (λ (h, _). absurd (omega (arith, h)), tt) refl

-- A kernel whose state is the size of the memory.
instance abbrev one_memory : MemoryCalls ℕ
one_memory = record {
  memory_size = λ m w. returned w;
  memory_resize = λ m size w. (returned size, size);
}

abbrev full_storage : MemoryCapStorage ℕ
full_storage = record {
  memory = 1;
  cells = λ k. null_region;
  len = 64;
  capacity = 64;
  kernel = 4096;
}

full_storage-Fits : Fits 64 full_storage
full_storage-Fits = record { within = omega arith; room = omega arith }

-- The list has doubled its memory.
abbrev grown_storage : MemoryCapStorage ℕ
grown_storage =
    insert_at 64 64 inside_region (record full_storage { capacity = 128; kernel = 8192 })

insert-Fits_example : Fits 64 grown_storage
unfolding insert ensure_capacity try_grow resized
insert-Fits_example =
    insert-Fits 64 full_storage 4096 refl (omega arith) (omega arith) (omega arith) 64 inside_region
      grown_storage full_storage-Fits refl refl

memory_cap_storage-StorageLaws_example :
    StorageLaws (MemoryCapStorage ℕ) (memory_cap_storage {W = ℕ} 64)
memory_cap_storage-StorageLaws_example = memory_cap_storage-StorageLaws {W = ℕ} 64

abbrev managers : Managers (List MappedRegion) (List MappedRegion) Addresses Addresses
managers = record { remote = manager one_region; here = manager one_region }

map_memory_remote_and_local-EndsBoth_example :
    EndsBoth no_padding managers (map_memory_remote_and_local 7 8 3 two_pages managers)
map_memory_remote_and_local-EndsBoth_example =
    map_memory_remote_and_local-EndsBoth front_laws vec_storage-StorageLaws vec_storage-StorageLaws
      generous-CallLaws generous-UndoLaws generous-CallLaws no_padding managers one_region-IsWf
      one_region-IsWf 7 8 3 two_pages refl refl no_padding-IsPadding any_size (λ _ e. cc)
