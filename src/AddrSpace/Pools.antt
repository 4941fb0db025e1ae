-- ===== src/AddrSpace/Pools.antt =====
-- map_event_pool and map_phys_mem without a given address.
use aurora_os.Prelude.{ℕ, ◌+◌, ◌<◌, ◌≡◌, ◌==◌, refl, ap, ◌∙◌, none, false, Bool-cases, inl, inr}
use aurora_os.Container.VecMap.{BinarySearch}
use aurora_os.AddrSpace.{
  MappedRegion, MappingTarget, RegionPadding, Outcome, ok, err, panic, SysResult, returned, refused,
  event_pool, phys_mem, from_sys,
}
use aurora_os.AddrSpace.Regions.{MappedRegionStorage, StorageLaws, insert_region}
use aurora_os.AddrSpace.Action.{
  AddressSpaceCalls, AddrSpaceManager, Ends, Ends-bind, call, on_regions, on_error, raised, stored,
  asks,
}
use aurora_os.AddrSpace.Map.{
  MapArgs, insert_mapped, map_event_pool, map_phys_mem, undo_map, await_transient_region_unmap,
  check_size, choose_address,
}
use aurora_os.AddrSpace.IsWf.{IsWf, IsPaged}
use aurora_os.BitUtils.{IsUsize}
use aurora_os.AddrSpace.Order.{SearchLaws}
use aurora_os.AddrSpace.Steps.{check_size-Ends, choose_address-Ends, add_region-Ends}
use aurora_os.AddrSpace.Effects.{
  CallLaws, UndoLaws, IsPadding, Chosen, region_of, Same, Unchanged, Stored, Mapped,
}
use aurora_os.AddrSpace.Unmap.{undo_map-Ends}

module _ {T W : Type 0} ⦃bs : BinarySearch MappedRegion⦄ (search : SearchLaws bs)
    ⦃st : MappedRegionStorage T⦄ (laws : StorageLaws T st) ⦃calls : AddressSpaceCalls W⦄
    (call_laws : CallLaws calls) (undo : UndoLaws calls) (s : AddrSpaceManager T W)
    (wf : IsWf (st.regions s.memory_regions)) where
  -- Where the kernel unmaps, a failed insertion leaves the regions as they were.
  on_error-Ends :
      {A : Type 0} (Q : A → AddrSpaceManager T W → Type 0) (address : ℕ) (s' : AddrSpaceManager T W)
      (r : Outcome (A × T))
      → (calls.unmap address s'.kernel).0 ≡ returned tt
      → Ends Q (Unchanged s.memory_regions) (stored s' r)
      → Ends Q (Unchanged s.memory_regions) (on_error (on_regions (λ _. r)) (undo_map address) s')
  on_error-Ends Q address s' (ok a) works h = h
  on_error-Ends Q address s' (err e) works h =
      undone (undo_map address s') (undo_map-Ends address (λ _. ⊥) s' works)
    where
      undone :
          (r : Outcome (Unit {0}) × AddrSpaceManager T W)
          → Ends (λ _ s''. s''.memory_regions ≡ s'.memory_regions) (λ _. ⊥) r
          → Ends Q (Unchanged s.memory_regions) (raised e r)
      undone (ok _, s'') same = ap st.regions same ∙ h
      undone (err _, s'') same = absurd same
      undone (panic, s'') same = same
  on_error-Ends Q address s' panic works h = h

  insert_mapped-Ends :
      (map_size address size : ℕ) (target : MappingTarget) (padding : RegionPadding)
      (s' : AddrSpaceManager T W)
      → Same s.memory_regions s'
      → (calls.unmap address s'.kernel).0 ≡ returned tt
      → Chosen (st.regions s.memory_regions) address size padding
      → IsPadding padding
      → IsPaged size
      → 0 < size + padding.end
      → Ends
          (Mapped s padding target)
          (Unchanged s.memory_regions)
          (insert_mapped map_size (region_of target address size padding) s')
  unfolding insert_mapped
  insert_mapped-Ends map_size address size target padding s' same works chosen p paged pos =
      elim (Bool-cases (map_size == size)) [
        | inl e ↦ rw e (
            Ends-bind _ _ _
              (on_error (on_regions (insert_region (region_of target address size padding)))
                (undo_map address) s')
              _
              (on_error-Ends (Stored s.memory_regions (region_of target address size padding))
                address s' _ works
                (add_region-Ends search laws call_laws s.memory_regions wf target address size
                  padding s' same chosen p paged pos))
              (λ index s'' a. record { index = index; chosen = chosen; adds = a }))
        | inr e ↦ rw e (
            Ends-bind _ _ _ (undo_map address s') _ (undo_map-Ends address _ s' works)
              (λ _ s'' same'. ap st.regions (same' ∙ same)))
      ]

  -- After a mapping of the kernel, which it unmaps.
  call-Ends :
      (r : SysResult ℕ × W) (address : ℕ) (s' : AddrSpaceManager T W)
      → Same s.memory_regions s'
      → ((n : ℕ) → r.0 ≡ returned n → (calls.unmap address r.1).0 ≡ returned tt)
      → Ends
          (λ _ s''. Same s.memory_regions s'' × ((calls.unmap address s''.kernel).0 ≡ returned tt))
          (Unchanged s.memory_regions)
          (call from_sys (λ w. r) s')
  call-Ends (returned n, w) address s' same works = (same, works n refl)
  call-Ends (refused e, w) address s' same works = ap st.regions same

  -- From a list of regions that is well-formed (of whole pages, in the order of their addresses,
  -- apart with their paddings, each with something from its address on, below the end of the lower
  -- half), with a binary search and a storage that behave as documented and a kernel that unmaps
  -- what it has just mapped, map_event_pool without an address, of a pool whose size is a word of
  -- whole pages, with paddings of whole pages and something to reserve from the address on, adds
  -- one region for the pool at a place that was free, with the size of its result, or ends in an
  -- error, also when the kernel maps another size or the storage is full, with the list of regions
  -- as it was, and never panics.
  pub map_event_pool-Ends :
      (draw : ℕ) (args : MapArgs)
      → args.address ≡ none
      → IsPadding args.padding
      → IsPaged (calls.event_pool_size args.capability)
      → IsUsize (calls.event_pool_size args.capability)
      → 0 < calls.event_pool_size args.capability + args.padding.end
      → Ends
          (Mapped s args.padding (event_pool args.capability))
          (Unchanged s.memory_regions)
          (map_event_pool draw args s)
  unfolding map_event_pool await_transient_region_unmap
  map_event_pool-Ends draw args anywhere p paged word pos =
      let size = calls.event_pool_size args.capability in
      Ends-bind _ _ _ (check_size false size args.padding _) _
        (check_size-Ends search laws call_laws s.memory_regions wf false size args.padding _ refl p
          paged word)
        λ _ s₂ (same₂, total_pos, _).
          Ends-bind _ _ _ (choose_address draw args.address size args.padding s₂) _
            (choose_address-Ends search laws call_laws s.memory_regions wf draw size args.address
              args.padding s₂ same₂ anywhere p paged word total_pos)
            λ address s₃ (same₃, chosen).
              Ends-bind _ _ _ (call from_sys (calls.map_event_pool args.capability address) s₃) _
                (call-Ends (calls.map_event_pool args.capability address s₃.kernel) address s₃ same₃
                  (λ n e. undo.unmaps_event_pool args.capability address n s₃.kernel e))
                λ map_size s₄ (same₄, works).
                  insert_mapped-Ends map_size address size (event_pool args.capability) args.padding
                    s₄ same₄ works chosen p paged pos

  asks_size-Ends :
      (c : ℕ) (s' : AddrSpaceManager T W)
      → Same s.memory_regions s'
      → Ends
          (λ size s''.
            Same s.memory_regions s''
            × IsPaged size
            × IsUsize size
            × (calls.phys_mem_size c s'.kernel ≡ returned size))
          (Unchanged s.memory_regions)
          (from_sys (calls.phys_mem_size c s'.kernel), s')
  asks_size-Ends c s' same = sized (calls.phys_mem_size c s'.kernel) refl
    where
      sized :
          (r : SysResult ℕ)
          → calls.phys_mem_size c s'.kernel ≡ r
          → Ends
              (λ size s''.
                Same s.memory_regions s'' × IsPaged size × IsUsize size × (r ≡ returned size))
              (Unchanged s.memory_regions)
              (from_sys r, s')
      sized (returned n) e =
          let (paged, word) = call_laws.phys_mem_paged c n s'.kernel e in (same, paged, word, refl)
      sized (refused x) e = ap st.regions same

  pub map_phys_mem-Ends :
      (draw : ℕ) (args : MapArgs)
      → args.address ≡ none
      → IsPadding args.padding
      → ((size : ℕ) (w : W)
          → calls.phys_mem_size args.capability w ≡ returned size
          → 0 < size + args.padding.end)
      → Ends
          (Mapped s args.padding (phys_mem args.capability))
          (Unchanged s.memory_regions)
          (map_phys_mem draw args s)
  unfolding map_phys_mem await_transient_region_unmap
  map_phys_mem-Ends draw args anywhere p pos =
      Ends-bind _ _ _ (asks (λ s'. from_sys (calls.phys_mem_size args.capability s'.kernel)) _) _
        (asks_size-Ends args.capability _ refl)
        λ size s₁ (same₁, paged, word, e).
          Ends-bind _ _ _ (check_size false size args.padding s₁) _
            (check_size-Ends search laws call_laws s.memory_regions wf false size args.padding s₁
              same₁ p paged word)
            λ _ s₂ (same₂, total_pos, _).
              Ends-bind _ _ _ (choose_address draw args.address size args.padding s₂) _
                (choose_address-Ends search laws call_laws s.memory_regions wf draw size
                  args.address args.padding s₂ same₂ anywhere p paged word total_pos)
                λ address s₃ (same₃, chosen).
                  Ends-bind _ _ _
                    (call from_sys (calls.map_phys_mem args.capability address args.options) s₃) _
                    (call-Ends (calls.map_phys_mem args.capability address args.options s₃.kernel)
                      address s₃ same₃
                      (λ n e'.
                        undo.unmaps_phys_mem args.capability address args.options n s₃.kernel e'))
                    λ map_size s₄ (same₄, works).
                      insert_mapped-Ends map_size address size (phys_mem args.capability)
                        args.padding s₄ same₄ works chosen p paged (pos size _ e)
