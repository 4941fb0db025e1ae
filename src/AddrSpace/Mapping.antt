-- ===== src/AddrSpace/Mapping.antt =====
-- What a mapping without a given address does to the list of regions.
use aurora_os.Prelude.{
  ℕ, ◌+◌, ◌==◌, ◌≤◌, ◌<◌, ◌≡◌, ◌∙◌, refl, sym, ap, arith, Option, none, some, false, ◌&&◌, subst,
}
use aurora_os.BitUtils.{page_size, usize_mod}
use aurora_os.Container.VecMap.{BinarySearch}
use aurora_os.AddrSpace.{MappedRegion, from_memory, target_memory}
use aurora_os.AddrSpace.Regions.{MappedRegionStorage, StorageLaws, insert_region}
use aurora_os.AddrSpace.Action.{
  AddressSpaceCalls, AddrSpaceManager, Ends, Ends-bind, Ends-map, on_regions,
}
use aurora_os.AddrSpace.Map.{
  MapMemoryArgs, MapMemoryResult, take_memory, check_size, choose_address, map_region, map_memory,
  add_mapping, await_transient_region_unmap, is_some, stored_region,
}
use aurora_os.AddrSpace.IsWf.{IsPaged, IsWf}
use aurora_os.AddrSpace.Steps.{
  take_memory-Ends, check_size-Ends, choose_address-Ends, add_region-Ends, stored_region-Ends,
  map_region-Ends,
}
use aurora_os.AddrSpace.Effects.{
  CallLaws, IsPadding, Chosen, region_of, Same, Unchanged, Stored, Maps, MapsGiven, Called,
}
use aurora_os.AddrSpace.Order.{SearchLaws}

module _ {T W : Type 0} ⦃bs : BinarySearch MappedRegion⦄ (search : SearchLaws bs)
    ⦃st : MappedRegionStorage T⦄ (laws : StorageLaws T st) ⦃calls : AddressSpaceCalls W⦄
    (call_laws : CallLaws calls) (s : AddrSpaceManager T W)
    (wf : IsWf (st.regions s.memory_regions)) where
  -- Something is reserved from the address on.
  nonempty_after :
      (target : Option ℕ) (size end : ℕ)
      → (is_some target && (size == 0)) ≡ false
      → (target ≡ none → 0 < end)
      → 0 < size + end
  nonempty_after none size end e f = omega (arith, f refl)
  nonempty_after (some m) size end e f = ground arith

  target_memory-from_memory : (target : Option ℕ) → target_memory (from_memory target) ≡ target
  target_memory-from_memory none = refl
  target_memory-from_memory (some m) = refl

  pub add_mapping-Ends :
      (args : MapMemoryArgs) (target : Option ℕ) (size address : ℕ) (s₄ : AddrSpaceManager T W)
      → Same s.memory_regions s₄
      → Chosen (st.regions s.memory_regions) address size args.padding
      → IsPadding args.padding
      → IsPaged size
      → 0 < size + args.padding.end
      → Ends
          (λ r s'.
            (r ≡ record { address = address; size = size; memory = target })
            × Maps s args.padding (from_memory target) address size s'
            × Called (from_memory target) address size args.options s')
          (Unchanged s.memory_regions)
          (add_mapping args target size address s₄)
  unfolding add_mapping
  add_mapping-Ends args target size address s₄ same₄ chosen p paged pos =
      Ends-bind _ _ _
        (on_regions (insert_region (region_of (from_memory target) address size args.padding)) s₄) _
        (add_region-Ends search laws call_laws s.memory_regions wf (from_memory target) address size
          args.padding s₄ same₄ chosen p paged pos)
        λ index s₅ stored₅.
          Ends-bind _ _ _ (stored_region index s₅) _
            (stored_region-Ends search laws call_laws s.memory_regions wf
              (region_of (from_memory target) address size args.padding) index s₅ stored₅)
            λ region s₆ (same_region, _, stored₆).
              Ends-bind _ _ _ (map_region address size args.options region.map_target s₆) _
                (subst
                  (λ (r : MappedRegion).
                    Ends
                      (λ _ s'.
                        Stored s.memory_regions
                          (region_of (from_memory target) address size args.padding) index s'
                        × Called (from_memory target) address size args.options s')
                      (Unchanged s.memory_regions)
                      (map_region address size args.options r.map_target s₆))
                  (sym same_region)
                  (map_region-Ends search laws call_laws s.memory_regions wf (from_memory target)
                    address size args.options index args.padding s₆ stored₆))
                λ _ s₇ (stored₇, called).
                  Ends-bind _ _ _ (stored_region index s₇) _
                    (stored_region-Ends search laws call_laws s.memory_regions wf
                      (region_of (from_memory target) address size args.padding) index s₇ stored₇)
                    λ mapped s₈ (same_mapped, kept, stored₈). (
                      ap (λ (m : Option ℕ). record { address = address; size = size; memory = m })
                          (ap (λ (r : MappedRegion). target_memory r.map_target) same_mapped
                            ∙ target_memory-from_memory target),
                      record { index = index; chosen = chosen; adds = stored₈ },
                      subst (Called (from_memory target) address size args.options) (sym kept)
                          called,
                    )

  -- From a list of regions that is well-formed (of whole pages, in the order of their addresses,
  -- apart with their paddings, each with something from its address on, below the end of the lower
  -- half), with a binary search and a storage that behave as documented, paddings of whole pages
  -- and a kernel whose sizes are of whole pages, map_memory without an address does not panic: it
  -- adds one region, with the size and the memory of its result, at a place that was free, leaves
  -- a well-formed list, and has had the kernel map the memory there last, if there is memory; or
  -- it ends in an error with the list as it was. A reservation without memory has to have padding
  -- at its end, and the size of new memory must not overflow when rounded up.
  pub map_memory-Ends :
      (draw : ℕ) (args : MapMemoryArgs)
      → args.address ≡ none
      → IsPadding args.padding
      → ((size : ℕ) → args.size ≡ some size → size + page_size ≤ usize_mod)
      → (args.memory ≡ none → args.size ≡ none → 0 < args.padding.end)
      → Ends
          (MapsGiven s args.padding args.options args.memory)
          (λ s'. st.regions s'.memory_regions ≡ st.regions s.memory_regions)
          (map_memory draw args s)
  unfolding map_memory await_transient_region_unmap
  map_memory-Ends draw args anywhere p small reserved =
      Ends-bind _ _ _ (take_memory args _) _
        (take_memory-Ends search laws call_laws s.memory_regions wf args _ refl small)
        λ (target, size) s₂ (same₂, paged, word, nothing, same_memory).
          Ends-bind _ _ _ (check_size (is_some target && (size == 0)) size args.padding s₂) _
            (check_size-Ends search laws call_laws s.memory_regions wf
              (is_some target && (size == 0)) size args.padding s₂ same₂ p paged word)
            λ _ s₃ (same₃, pos, allowed).
              Ends-bind _ _ _ (choose_address draw args.address size args.padding s₃) _
                (choose_address-Ends search laws call_laws s.memory_regions wf draw size
                  args.address args.padding s₃ same₃ anywhere p paged word pos)
                λ address s₄ (same₄, chosen).
                  Ends-map _ _ _ (add_mapping args target size address s₄)
                    (add_mapping-Ends args target size address s₄ same₄ chosen p paged (
                      nonempty_after target size args.padding.end allowed
                        (λ e. reserved (nothing e).0 (nothing e).1)))
                    (λ r s' (e, maps, called).
                      subst
                        (λ (r : MapMemoryResult).
                          MapsGiven s args.padding args.options args.memory r s')
                        (sym e) (maps, same_memory, called))
