-- ===== src/AddrSpace/Unmap.antt =====
-- Unmapping, and mapping followed by unmapping.
use aurora_os.Prelude.{
  ℕ, ◌+◌, ◌%◌, ◌≡◌, ◌≢◌, refl, sym, ap, subst, ◌∙◌, List, All, false, inl, inr, ◌⊎◌, if◌then◌else◌,
}
use aurora_os.BitUtils.{usize_mod}
use aurora_os.Container.VecMap.{BinarySearch}
use aurora_os.AddrSpace.{
  MappedRegion, MappingTarget, Outcome, SysResult, returned, refused, is_empty, memory, event_pool,
  phys_mem, empty,
}
use aurora_os.AddrSpace.Regions.{MappedRegionStorage, StorageLaws, remove_region}
use aurora_os.AddrSpace.Action.{
  AddressSpaceCalls, AddrSpaceManager, Action, Ends, Ends-map, call, pure, stored, next,
}
use aurora_os.AddrSpace.Map.{unmap_memory, unmap_transient, count_transient, undo_map, unwrap_sys}
use aurora_os.AddrSpace.IsWf.{IsWf}
use aurora_os.AddrSpace.Order.{SearchLaws}
use aurora_os.AddrSpace.Store.{Adds, Removes, removed, absent, remove_region-Removes, remove_added}
use aurora_os.AddrSpace.Effects.{CanUnmap}

-- The list `new` is `old` without the region of the address.
pub record Unmaps (address : ℕ) (old new : List MappedRegion) : Type 0 where
  pub region : MappedRegion
  pub index : ℕ
  pub same : region.address ≡ address
  pub adds : Adds region new old index
  pub keeps_wf : IsWf new

module _ {T W : Type 0} ⦃bs : BinarySearch MappedRegion⦄ ⦃st : MappedRegionStorage T⦄
    ⦃calls : AddressSpaceCalls W⦄ where
  -- Undoing a mapping touches no region, and works where the kernel unmaps.
  pub undo_map-Ends :
      (address : ℕ) (R : AddrSpaceManager T W → Type 0) (s : AddrSpaceManager T W)
      → (calls.unmap address s.kernel).0 ≡ returned tt
      → Ends (λ _ s'. s'.memory_regions ≡ s.memory_regions) R (undo_map address s)
  undo_map-Ends address R s works = undone (calls.unmap address s.kernel) works
    where
      undone :
          (r : SysResult (Unit {0}) × W)
          → r.0 ≡ returned tt
          → Ends (λ _ s'. s'.memory_regions ≡ s.memory_regions) R (call unwrap_sys (λ w. r) s)
      undone (returned _, w) e = refl
      undone (refused x, w) e = cc

  -- The end of unmap_memory.
  abbrev unmap_target : ℕ → MappingTarget → Action T W (Unit {0})
  unmap_target address target = if is_empty target then pure tt else undo_map address

  unmap_target-Ends :
      (address : ℕ) (target : MappingTarget) (R : AddrSpaceManager T W → Type 0)
      (s : AddrSpaceManager T W)
      → CanUnmap target address s.kernel
      → Ends (λ _ s'. s'.memory_regions ≡ s.memory_regions) R (unmap_target address target s)
  unmap_target-Ends address empty R s works = refl
  unmap_target-Ends address (memory m) R s works = undo_map-Ends address R s works
  unmap_target-Ends address (event_pool m) R s works = undo_map-Ends address R s works
  unmap_target-Ends address (phys_mem m) R s works = undo_map-Ends address R s works

  -- unmap_memory after the removal of the region.
  abbrev unmap_rest :
      ℕ
      → AddrSpaceManager T W
      → Outcome (MappedRegion × T)
      → Outcome (Unit {0}) × AddrSpaceManager T W
  unmap_rest address s r =
      next (λ (region : MappedRegion). unmap_target address region.map_target) (stored s r)

  -- Also where the kernel refuses.
  unmap_target_keeps :
      (address : ℕ) (target : MappingTarget) (s : AddrSpaceManager T W)
      → (unmap_target address target s).1.memory_regions ≡ s.memory_regions
  unmap_target_keeps address empty s = refl
  unmap_target_keeps address (memory m) s = refl
  unmap_target_keeps address (event_pool m) s = refl
  unmap_target_keeps address (phys_mem m) s = refl

  module _ (search : SearchLaws bs) (laws : StorageLaws T st) where
    -- Where an address is mapped, unmap_memory takes its region away and nothing else.
    pub unmap_memory_added :
        (n : MappedRegion) (index : ℕ) (old : List MappedRegion) (R : AddrSpaceManager T W → Type 0)
        (s : AddrSpaceManager T W)
        → Adds n old (st.regions s.memory_regions) index
        → CanUnmap n.map_target n.address s.kernel
        → Ends (λ _ s'. st.regions s'.memory_regions ≡ old) R (unmap_memory n.address s)
    unfolding unmap_memory
    unmap_memory_added n index old R s a works =
        let (t', removal, back) =
          remove_added search laws s.memory_regions a.keeps_wf n index old a in
        rw (unmap_memory, removal)
          (Ends-map _ (λ _ s'. st.regions s'.memory_regions ≡ old) R
            (unmap_target n.address n.map_target (record s { memory_regions = t' }))
            (unmap_target-Ends n.address n.map_target R (record s { memory_regions = t' }) works)
            (λ _ s' same. ap st.regions same ∙ back))

    -- unmap_memory takes a region away or changes nothing, also where the kernel refuses to unmap
    -- and it panics.
    pub unmap_memory-Leaves :
        (address : ℕ) (s : AddrSpaceManager T W)
        → IsWf (st.regions s.memory_regions)
        → Unmaps address
            (st.regions s.memory_regions)
            (st.regions (unmap_memory address s).1.memory_regions)
          ⊎ ((unmap_memory address s).1 ≡ s)
    unfolding unmap_memory
    unmap_memory-Leaves address s wf =
        whole (remove_region address s.memory_regions)
          (remove_region-Removes search laws s.memory_regions wf address)
      where
        whole :
            (r : Outcome (MappedRegion × T))
            → Removes s.memory_regions address r
            → Unmaps address
                (st.regions s.memory_regions)
                (st.regions (unmap_rest address s r).1.memory_regions)
              ⊎ ((unmap_rest address s r).1 ≡ s)
        whole r (removed n t' index same adds keeps) =
            let kept = unmap_target_keeps address n.map_target (record s { memory_regions = t' }) in
            inl (record {
              region = n;
              index = index;
              same = same;
              adds =
                  subst (λ u. Adds n (st.regions u) (st.regions s.memory_regions) index) (sym kept)
                    adds;
              keeps_wf = subst (λ u. IsWf (st.regions u)) (sym kept) keeps;
            })
        whole r (absent none_there) = inr refl

    -- The whole of unmap_transient, from a well-formed list.
    pub unmap_transient-Ends :
        (address : ℕ) (s : AddrSpaceManager T W)
        → IsWf (st.regions s.memory_regions)
        → Ends
            (λ pending s'.
              Unmaps address (st.regions s.memory_regions) (st.regions s'.memory_regions)
              × (s'.transient_region_count ≡ (
                  if pending
                  then (s.transient_region_count + 1) % usize_mod
                  else s.transient_region_count)))
            (λ s'.
              (s' ≡ s)
              × All (λ (r : MappedRegion). r.address ≢ address) (st.regions s.memory_regions))
            (unmap_transient address s)
    unfolding unmap_transient
    unmap_transient-Ends address s wf =
        whole (remove_region address s.memory_regions)
          (remove_region-Removes search laws s.memory_regions wf address)
      where
        counted :
            (target : MappingTarget) (s₁ : AddrSpaceManager T W)
            → s₁.transient_region_count ≡ s.transient_region_count
            → Unmaps address (st.regions s.memory_regions) (st.regions s₁.memory_regions)
            → Ends
                (λ pending s'.
                  Unmaps address (st.regions s.memory_regions) (st.regions s'.memory_regions)
                  × (s'.transient_region_count ≡ (
                      if pending
                      then (s.transient_region_count + 1) % usize_mod
                      else s.transient_region_count)))
                (λ s'.
                  (s' ≡ s)
                  × All (λ (r : MappedRegion). r.address ≢ address) (st.regions s.memory_regions))
                ((if is_empty target then pure false else count_transient) s₁)
        counted empty s₁ e u = (u, e)
        counted (memory m) s₁ e u = (u, ap (λ (c : ℕ). (c + 1) % usize_mod) e)
        counted (event_pool m) s₁ e u = (u, ap (λ (c : ℕ). (c + 1) % usize_mod) e)
        counted (phys_mem m) s₁ e u = (u, ap (λ (c : ℕ). (c + 1) % usize_mod) e)

        whole :
            (r : Outcome (MappedRegion × T))
            → Removes s.memory_regions address r
            → Ends
                (λ pending s'.
                  Unmaps address (st.regions s.memory_regions) (st.regions s'.memory_regions)
                  × (s'.transient_region_count ≡ (
                      if pending
                      then (s.transient_region_count + 1) % usize_mod
                      else s.transient_region_count)))
                (λ s'.
                  (s' ≡ s)
                  × All (λ (r : MappedRegion). r.address ≢ address) (st.regions s.memory_regions))
                (next
                  (λ (region : MappedRegion).
                    if is_empty region.map_target then pure false else count_transient)
                  (stored s r))
        whole r (removed n t' index same adds keeps) =
            counted n.map_target (record s { memory_regions = t' }) refl
              (record { region = n; index = index; same = same; adds = adds; keeps_wf = keeps })
        whole r (absent none_there) = (refl, none_there)
