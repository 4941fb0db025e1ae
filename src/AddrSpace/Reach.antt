-- ===== src/AddrSpace/Reach.antt =====
-- The states that a manager comes to, when mappings do not ask for an address.
use aurora_os.Prelude.{
  ℕ, ◌+◌, ◌≤◌, ◌<◌, ◌≡◌, refl, sym, ap, subst, ◌∙◌, none, some, List, [], ◌∷◌, ◌++◌, inl, inr,
  arith,
}
use aurora_os.BitUtils.{page_size, usize_mod, IsUsize}
use aurora_os.Container.VecMap.{BinarySearch}
use aurora_os.AddrSpace.{
  MappedRegion, MappingTarget, RegionPadding, Outcome, ok, err, panic, returned,
}
use aurora_os.AddrSpace.Regions.{MappedRegionStorage, StorageLaws}
use aurora_os.AddrSpace.Action.{AddressSpaceCalls, AddrSpaceManager, Ends, Ends-map, Ends-ok}
use aurora_os.AddrSpace.Map.{
  MapMemoryArgs, MapArgs, map_memory, map_event_pool, map_phys_mem, reserve_null_page, unmap_memory,
  unmap_transient,
}
use aurora_os.AddrSpace.IsWf.{IsWf, IsPaged}
use aurora_os.AddrSpace.Order.{
  SearchLaws, IsWfFrom-InOrder, InOrder-first, IsWfFrom-IsRegion, head-eq,
}
use aurora_os.AddrSpace.Store.{Adds}
use aurora_os.AddrSpace.Effects.{CallLaws, UndoLaws, IsPadding, region_of, Maps}
use aurora_os.AddrSpace.Mapping.{map_memory-Ends}
use aurora_os.AddrSpace.Unmap.{Unmaps, unmap_memory-Leaves, unmap_transient-Ends}
use aurora_os.AddrSpace.Pools.{map_event_pool-Ends, map_phys_mem-Ends}
use aurora_os.AddrSpace.NullPage.{StartsNull, null_region, reserve_null_page-Ends}

-- A region that is added keeps the null page first, and so does one that is taken away.
Adds-StartsNull :
    (n : MappedRegion) (old new : List MappedRegion) (index : ℕ)
    → Adds n old new index
    → StartsNull old
    → StartsNull new
Adds-StartsNull n old new index a (rest, e) = kept a.pre a.post (a.was) a.becomes
  where
    kept :
        (pre post : List MappedRegion)
        → old ≡ pre ++ post
        → new ≡ pre ++ (n ∷ post)
        → StartsNull new
    kept [] post was becomes =
        let order = rw becomes at (IsWfFrom-InOrder 0 new a.keeps_wf) in
        absurd (omega (arith, InOrder-first n null_region post rest order (sym was ∙ e)))
    kept (p ∷ pre) post was becomes = (pre ++ (n ∷ post), becomes ∙ rw (head-eq (sym was ∙ e)) refl)

StartsNull-Adds :
    (n : MappedRegion) (old new : List MappedRegion) (index : ℕ)
    → Adds n old new index
    → StartsNull new
    → 0 < n.address
    → StartsNull old
StartsNull-Adds n old new index a (rest, e) pos = kept a.pre a.post (a.was) a.becomes
  where
    kept :
        (pre post : List MappedRegion)
        → old ≡ pre ++ post
        → new ≡ pre ++ (n ∷ post)
        → StartsNull old
    kept [] post was becomes =
        let same = ap (λ (r : MappedRegion). r.address) (head-eq (sym becomes ∙ e)) in
        absurd (omega (arith, same, pos))
    kept (p ∷ pre) post was becomes = (pre ++ post, was ∙ rw (head-eq (sym becomes ∙ e)) refl)

module _ {T W : Type 0} ⦃bs : BinarySearch MappedRegion⦄ ⦃st : MappedRegionStorage T⦄
    ⦃calls : AddressSpaceCalls W⦄ where
  -- A manager is made by reserving the null page of an empty space; then come the operations,
  -- whatever they answer. The reservation of the null page is not unmapped.
  pub data Reach : AddrSpaceManager T W → Type 0 where
    made :
        (draw : ℕ) (s : AddrSpaceManager T W)
        → st.regions s.memory_regions ≡ []
        → (reserve_null_page draw s).0 ≡ ok tt
        → Reach (reserve_null_page draw s).1
    mapped_memory :
        (draw : ℕ) (args : MapMemoryArgs) (s : AddrSpaceManager T W)
        → Reach s
        → args.address ≡ none
        → IsPadding args.padding
        → ((size : ℕ) → args.size ≡ some size → size + page_size ≤ usize_mod)
        → (args.memory ≡ none → args.size ≡ none → 0 < args.padding.end)
        → Reach (map_memory draw args s).1
    mapped_event_pool :
        (draw : ℕ) (args : MapArgs) (s : AddrSpaceManager T W)
        → Reach s
        → args.address ≡ none
        → IsPadding args.padding
        → IsPaged (calls.event_pool_size args.capability)
        → IsUsize (calls.event_pool_size args.capability)
        → 0 < calls.event_pool_size args.capability + args.padding.end
        → Reach (map_event_pool draw args s).1
    mapped_phys_mem :
        (draw : ℕ) (args : MapArgs) (s : AddrSpaceManager T W)
        → Reach s
        → args.address ≡ none
        → IsPadding args.padding
        → ((size : ℕ) (w : W)
            → calls.phys_mem_size args.capability w ≡ returned size
            → 0 < size + args.padding.end)
        → Reach (map_phys_mem draw args s).1
    unmapped :
        (address : ℕ) (s : AddrSpaceManager T W)
        → Reach s
        → 0 < address
        → Reach (unmap_memory address s).1
    unmapped_transient :
        (address : ℕ) (s : AddrSpaceManager T W)
        → Reach s
        → 0 < address
        → Reach (unmap_transient address s).1

  -- The list is well-formed and has the null page first.
  abbrev pub Holds : AddrSpaceManager T W → Type 0
  Holds s = IsWf (st.regions s.memory_regions) × StartsNull (st.regions s.memory_regions)

  -- What holds of both ends of an action holds of its state.
  Ends-state :
      {A : Type 0} (Q : A → AddrSpaceManager T W → Type 0) (R P : AddrSpaceManager T W → Type 0)
      (r : Outcome A × AddrSpaceManager T W)
      → Ends Q R r
      → ((a : A) (s : AddrSpaceManager T W) → Q a s → P s)
      → ((s : AddrSpaceManager T W) → R s → P s)
      → P r.1
  Ends-state Q R P (ok a, s) h k l = k a s h
  Ends-state Q R P (err e, s) h k l = l s h
  Ends-state Q R P (panic, s) h k l = absurd h

  same :
      (s : AddrSpaceManager T W)
      → IsWf (st.regions s.memory_regions)
      → StartsNull (st.regions s.memory_regions)
      → (s' : AddrSpaceManager T W) → st.regions s'.memory_regions ≡ st.regions s.memory_regions
      → Holds s'
  same s wf null s' e = rw e (wf, null)

  Adds-Holds :
      {n : MappedRegion} (s s' : AddrSpaceManager T W)
      → IsWf (st.regions s.memory_regions)
      → StartsNull (st.regions s.memory_regions)
      → (index : ℕ) → Adds n (st.regions s.memory_regions) (st.regions s'.memory_regions) index
      → Holds s'
  Adds-Holds {n} s s' wf null index a = (a.keeps_wf, Adds-StartsNull n _ _ index a null)

  Unmaps-Holds :
      (s s' : AddrSpaceManager T W) (address : ℕ)
      → IsWf (st.regions s.memory_regions)
      → StartsNull (st.regions s.memory_regions)
      → 0 < address
      → Unmaps address (st.regions s.memory_regions) (st.regions s'.memory_regions)
      → Holds s'
  Unmaps-Holds s s' address wf null pos u =
      (u.keeps_wf, StartsNull-Adds u.region _ _ u.index u.adds null (omega (arith, u.same, pos)))

  spares :
      {target : MappingTarget} {padding : RegionPadding} {address size : ℕ}
      {s s' : AddrSpaceManager T W} (wf : IsWf (st.regions s.memory_regions))
      → StartsNull (st.regions s.memory_regions)
      → Maps s padding target address size s'
      → page_size + padding.start ≤ address
  spares {target} {padding} {address} {size} wf (rest, e) maps =
      let (lo, _, _, free) = maps.chosen in
      let region =
        IsWfFrom-IsRegion 0 maps.adds.pre maps.adds.post (region_of target address size padding)
          (rw maps.adds.becomes at maps.adds.keeps_wf) in
      elim (rw e at free).0 [
        | inl above ↦ omega (arith, above)
        | inr below ↦ absurd (omega (arith, below, region.nonempty))
      ]

  module _ (search : SearchLaws bs) (laws : StorageLaws T st) (call_laws : CallLaws calls)
      (undo : UndoLaws calls) where
    -- In every state that a new manager comes to, by reserving the null page and then by mappings
    -- of memory, event pools and physical memory without an address, with paddings of whole pages
    -- and something to reserve from the address on, where the size of new memory does not overflow
    -- when rounded up and that of a pool is a word of whole pages, and by unmapping of addresses
    -- other than 0, whatever they answer, the list of regions is well-formed and the null page is
    -- its first region. Binary search and storage behave as documented; the sizes of memory that
    -- the kernel gives are words of whole pages, and it unmaps what it has just mapped.
    pub Reach-Holds : (s : AddrSpaceManager T W) → Reach s → Holds s
    Reach-Holds _ (made draw s fresh done) =
        Ends-ok _ _ (reserve_null_page draw s) tt
          (reserve_null_page-Ends search laws call_laws s fresh draw) done
    Reach-Holds _ (mapped_memory draw args s before anywhere p small reserved) =
        let (wf, null) = Reach-Holds s before in
        Ends-state _ _ Holds (map_memory draw args s)
          (map_memory-Ends search laws call_laws s wf draw args anywhere p small reserved)
          (λ r s' (maps, _, _). Adds-Holds s s' wf null maps.index maps.adds) (same s wf null)
    Reach-Holds _ (mapped_event_pool draw args s before anywhere p paged word pos) =
        let (wf, null) = Reach-Holds s before in
        Ends-state _ _ Holds (map_event_pool draw args s)
          (map_event_pool-Ends search laws call_laws undo s wf draw args anywhere p paged word pos)
          (λ r s' maps. Adds-Holds s s' wf null maps.index maps.adds) (same s wf null)
    Reach-Holds _ (mapped_phys_mem draw args s before anywhere p pos) =
        let (wf, null) = Reach-Holds s before in
        Ends-state _ _ Holds (map_phys_mem draw args s)
          (map_phys_mem-Ends search laws call_laws undo s wf draw args anywhere p pos)
          (λ r s' maps. Adds-Holds s s' wf null maps.index maps.adds) (same s wf null)
    Reach-Holds _ (unmapped address s before pos) =
        let (wf, null) = Reach-Holds s before in
        elim (unmap_memory-Leaves search laws address s wf) [
          | inl u ↦ Unmaps-Holds s (unmap_memory address s).1 address wf null pos u
          | inr e ↦ subst Holds (sym e) (wf, null)
        ]
    Reach-Holds _ (unmapped_transient address s before pos) =
        let (wf, null) = Reach-Holds s before in
        Ends-state _ _ Holds (unmap_transient address s)
          (unmap_transient-Ends search laws address s wf)
          (λ r s' (u, _). Unmaps-Holds s s' address wf null pos u)
          (λ s' (e, _). subst Holds (sym e) (wf, null))

    -- In every state that a new manager comes to in this way, with a binary search, a storage and
    -- a kernel as there, a mapping of memory without an address, with paddings of whole pages,
    -- with padding at its end if there is no memory, and where the size of new memory does not
    -- overflow when rounded up, begins behind the null page, also with its padding, if it
    -- succeeds, and leaves the list of regions as it is if it fails.
    pub map_memory-spares_null :
        (draw : ℕ) (args : MapMemoryArgs) (s : AddrSpaceManager T W)
        → Reach s
        → args.address ≡ none
        → IsPadding args.padding
        → ((size : ℕ) → args.size ≡ some size → size + page_size ≤ usize_mod)
        → (args.memory ≡ none → args.size ≡ none → 0 < args.padding.end)
        → Ends
            (λ r s'. page_size + args.padding.start ≤ r.address)
            (λ s'. st.regions s'.memory_regions ≡ st.regions s.memory_regions)
            (map_memory draw args s)
    map_memory-spares_null draw args s reach anywhere p small reserved =
        let (wf, null) = Reach-Holds s reach in
        Ends-map _ _ _ (map_memory draw args s)
          (map_memory-Ends search laws call_laws s wf draw args anywhere p small reserved)
          (λ r s' (maps, _, _). spares wf null maps)
