-- ===== src/AddrSpace/Effects.antt =====
-- What the mappings of an address space manager (userland/aurora_core/src/allocator/addr_space.rs)
-- do to the list of regions.
use aurora_os.Prelude.{ℕ, ◌+◌, ◌-◌, ◌≤◌, ◌≡◌, subst, List, Option, none, some}
use aurora_os.BitUtils.{IsUsize}
use aurora_os.AddrSpace.{
  from_memory, MappedRegion, MappingTarget, RegionPadding, returned, max_map_addr, memory, empty,
}
use aurora_os.AddrSpace.Regions.{MappedRegionStorage}
use aurora_os.AddrSpace.Action.{AddressSpaceCalls, AddrSpaceManager}
use aurora_os.AddrSpace.Map.{MapResult, MapMemoryResult}
use aurora_os.AddrSpace.IsWf.{IsPaged, Free}
use aurora_os.AddrSpace.Store.{Adds}

-- The sizes that the kernel gives are words of whole pages.
pub record CallLaws {W : Type 0} (calls : AddressSpaceCalls W) : Type 0 where
  pub memory_paged : (m n : ℕ) (w : W) → calls.memory_size m w ≡ returned n → IsPaged n × IsUsize n
  pub phys_mem_paged :
      (m n : ℕ) (w : W) → calls.phys_mem_size m w ≡ returned n → IsPaged n × IsUsize n

-- What the kernel has just mapped at an address it unmaps there.
pub record UndoLaws {W : Type 0} (calls : AddressSpaceCalls W) : Type 0 where
  pub unmaps_memory :
      (m address size options : ℕ) (w : W)
      → (calls.map_memory m address size options w).0 ≡ returned tt
      → (calls.unmap address (calls.map_memory m address size options w).1).0 ≡ returned tt
  pub unmaps_event_pool :
      (p address n : ℕ) (w : W)
      → (calls.map_event_pool p address w).0 ≡ returned n
      → (calls.unmap address (calls.map_event_pool p address w).1).0 ≡ returned tt
  pub unmaps_phys_mem :
      (m address options n : ℕ) (w : W)
      → (calls.map_phys_mem m address options w).0 ≡ returned n
      → (calls.unmap address (calls.map_phys_mem m address options w).1).0 ≡ returned tt

-- Paddings of whole pages.
pub record IsPadding (padding : RegionPadding) : Type 0 where
  pub start_paged : IsPaged padding.start
  pub end_paged : IsPaged padding.end
  pub start_word : IsUsize padding.start
  pub end_word : IsUsize padding.end

-- A place for a mapping with its padding, apart from the regions.
abbrev pub Chosen : List MappedRegion → ℕ → ℕ → RegionPadding → Type 0
Chosen regions address size padding =
    (padding.start ≤ address)
    × IsPaged address
    × (address + size + padding.end ≤ max_map_addr)
    × Free (address - padding.start) (address + size + padding.end) regions

-- The region that a mapping adds.
abbrev pub region_of : MappingTarget → ℕ → ℕ → RegionPadding → MappedRegion
region_of target address size padding = record {
  map_target = target;
  address = address;
  size = size;
  padding = padding;
}

module _ {T W : Type 0} ⦃st : MappedRegionStorage T⦄ (t : T) where
  abbrev pub Unchanged : AddrSpaceManager T W → Type 0
  Unchanged s = st.regions s.memory_regions ≡ st.regions t

  abbrev pub Same : AddrSpaceManager T W → Type 0
  Same s = s.memory_regions ≡ t

  -- The region is the one at the index, and all else is as before.
  abbrev pub Stored : MappedRegion → ℕ → AddrSpaceManager T W → Type 0
  Stored n index s = Adds n (st.regions t) (st.regions s.memory_regions) index

  -- Without memory and size nothing is taken.
  abbrev pub Taken : Option ℕ → Option ℕ → Option ℕ × ℕ → AddrSpaceManager T W → Type 0
  Taken given length (target, size) s =
      Same s
      × IsPaged size
      × IsUsize size
      × (target ≡ none → (given ≡ none) × (length ≡ none))
      × ((m : ℕ) → given ≡ some m → target ≡ some m)

module _ {T W : Type 0} ⦃st : MappedRegionStorage T⦄ (s : AddrSpaceManager T W) where
  -- One more region, at a place that was free, and a list that is well-formed again.
  pub record Maps (padding : RegionPadding) (target : MappingTarget) (address size : ℕ)
      (s' : AddrSpaceManager T W) : Type 0 where
    pub index : ℕ
    pub chosen : Chosen (st.regions s.memory_regions) address size padding
    pub adds :
        Adds
          (region_of target address size padding)
          (st.regions s.memory_regions)
          (st.regions s'.memory_regions)
          index

  -- What a mapping of memory ends in.
  abbrev pub MapsMemory : RegionPadding → MapMemoryResult → AddrSpaceManager T W → Type 0
  MapsMemory padding r s' = Maps padding (from_memory r.memory) r.address r.size s'

  -- A mapping of a target of the given kind.
  abbrev pub Mapped : RegionPadding → MappingTarget → MapResult → AddrSpaceManager T W → Type 0
  Mapped padding target r s' = Maps padding target r.address r.size s'

module _ {W : Type 0} ⦃calls : AddressSpaceCalls W⦄ where
  -- The kernel unmaps what is mapped at the address, if anything is.
  abbrev pub CanUnmap : MappingTarget → ℕ → W → Type 0
  CanUnmap empty address w = Unit {0}
  CanUnmap _ address w = (calls.unmap address w).0 ≡ returned tt

module _ {T W : Type 0} ⦃calls : AddressSpaceCalls W⦄ where
  -- The last that the kernel did is the mapping of the memory, if there is memory.
  abbrev pub Called : MappingTarget → ℕ → ℕ → ℕ → AddrSpaceManager T W → Type 0
  Called (memory m) address size options s =
      (w : W) × ((calls.map_memory m address size options w).0 ≡ returned tt)
      × ((calls.map_memory m address size options w).1 ≡ s.kernel)
  Called _ address size options s = Unit {0}

  pub Called-CanUnmap :
      UndoLaws calls
      → (target : Option ℕ) (address size options : ℕ) (s : AddrSpaceManager T W)
      → Called (from_memory target) address size options s
      → CanUnmap (from_memory target) address s.kernel
  Called-CanUnmap undo none address size options s c = tt
  Called-CanUnmap undo (some m) address size options s (w, e, k) =
      subst (λ (v : W). (calls.unmap address v).0 ≡ returned tt) k
        (undo.unmaps_memory m address size options w e)

  -- A mapping of memory that the kernel has done, of the memory given, if there is one.
  abbrev pub MapsGiven :
      ⦃st : MappedRegionStorage T⦄
      → AddrSpaceManager T W
      → RegionPadding
      → ℕ
      → Option ℕ
      → MapMemoryResult
      → AddrSpaceManager T W
      → Type 0
  MapsGiven s padding options given r s' =
      MapsMemory s padding r s'
      × ((m : ℕ) → given ≡ some m → r.memory ≡ some m)
      × Called (from_memory r.memory) r.address r.size options s'
