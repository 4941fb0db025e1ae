-- ===== src/AddrSpace/NullPage.antt =====
-- The null page: reserved when a manager is made, and never given to a mapping.
use aurora_os.Prelude.{
  ℕ, ◌≡◌, refl, subst, ◌∙◌, none, some, List, [], ◌∷◌, ◌++◌, true, false, arith,
}
use aurora_os.BitUtils.{align_up, page_size}
use aurora_os.BitUtils.Size.{bytes_aligned}
use aurora_os.Container.VecMap.{Place, missing, BinarySearch}
use aurora_os.AddrSpace.{MappedRegion, RegionPadding, ok, empty}
use aurora_os.AddrSpace.Regions.{MappedRegionStorage, StorageLaws, binary_search_address}
use aurora_os.AddrSpace.Free.{region_size, is_region_free}
use aurora_os.AddrSpace.Action.{AddressSpaceCalls, AddrSpaceManager, Ends, Ends-bind, Ends-map}
use aurora_os.AddrSpace.Map.{
  MapMemoryArgs, map_memory, add_mapping, reserve_null_page, await_transient_region_unmap,
  take_memory, check_size, choose_address,
}
use aurora_os.AddrSpace.IsWf.{IsWf, IsWfFrom}
use aurora_os.AddrSpace.Order.{SearchLaws, Finds, at, between, InOrder}
use aurora_os.AddrSpace.Store.{Adds}
use aurora_os.AddrSpace.Effects.{CallLaws, region_of}
use aurora_os.AddrSpace.Mapping.{add_mapping-Ends}

abbrev pub null_padding : RegionPadding
null_padding = record { start = 0; end = page_size }

-- The reservation of the null page.
abbrev pub null_region : MappedRegion
null_region = region_of empty 0 0 null_padding

abbrev null_args : MapMemoryArgs
null_args = record {
  memory = none;
  options = 0;
  address = some 0;
  size = none;
  padding = null_padding;
}

null_size : region_size 0 null_padding ≡ some page_size
unfolding region_size bytes_aligned align_up
null_size = refl

abbrev pub StartsNull : List MappedRegion → Type 0
StartsNull regions = (rest : List MappedRegion) × (regions ≡ null_region ∷ rest)

module _ {T W : Type 0} ⦃bs : BinarySearch MappedRegion⦄ (search : SearchLaws bs)
    ⦃st : MappedRegionStorage T⦄ (laws : StorageLaws T st) ⦃calls : AddressSpaceCalls W⦄
    (call_laws : CallLaws calls) (s : AddrSpaceManager T W)
    (fresh : st.regions s.memory_regions ≡ []) where
  no_place : binary_search_address 0 [] ≡ missing 0
  unfolding binary_search_address InOrder
  no_place = nowhere _ (search.finds 0 [] tt)
    where
      nowhere : (place : Place) → Finds 0 [] place → place ≡ missing 0
      nowhere place (at [] post r e split same) = cc
      nowhere place (at (p ∷ pre) post r e split same) = cc
      nowhere place (between [] post e split b a) = e
      nowhere place (between (p ∷ pre) post e split b a) = cc

  null_free : is_region_free [] 0 0 null_padding ≡ true
  unfolding is_region_free bytes_aligned align_up
  null_free = rw no_place refl

  check_null : (s' : AddrSpaceManager T W) → check_size false 0 null_padding s' ≡ (ok tt, s')
  unfolding check_size
  check_null s' = rw (check_size, null_size) refl

  choose_null :
      (draw : ℕ) (s' : AddrSpaceManager T W)
      → st.regions s'.memory_regions ≡ []
      → choose_address draw (some 0) 0 null_padding s' ≡ (ok 0, s')
  unfolding choose_address
  choose_null draw s' none_there = rw (none_there, null_free) refl

  only_null :
      (new : List MappedRegion) (index : ℕ)
      → Adds null_region [] new index
      → IsWf new × StartsNull new
  only_null new index a = (a.keeps_wf, ([], a.becomes ∙ alone a.pre a.post a.was))
    where
      alone :
          (pre post : List MappedRegion)
          → [] ≡ pre ++ post
          → pre ++ (null_region ∷ post) ≡ null_region ∷ []
      alone [] [] e = refl
      alone [] (p ∷ post) e = cc
      alone (p ∷ pre) post e = cc

  pub reserve_null_page-Ends :
      (draw : ℕ)
      → Ends
          (λ _ s'. IsWf (st.regions s'.memory_regions) × StartsNull (st.regions s'.memory_regions))
          (λ s'. st.regions s'.memory_regions ≡ st.regions s.memory_regions)
          (reserve_null_page draw s)
  unfolding reserve_null_page map_memory take_memory check_size choose_address
      await_transient_region_unmap IsWfFrom
  reserve_null_page-Ends draw =
      let s' : AddrSpaceManager T W = record s {
        transient_region_count = 0;
        kernel = calls.settled s.transient_region_count s.kernel;
      } in
      let wf : IsWf (st.regions s.memory_regions) = rw fresh (omega arith) in
      rw (check_null s', choose_null draw s' fresh)
        (Ends-bind _ _ _ (add_mapping null_args none 0 0 s') _
          (Ends-map _ _ _ (add_mapping null_args none 0 0 s')
            (add_mapping-Ends search laws call_laws s wf null_args none 0 0 s' refl
              (omega arith, refl, omega arith, rw fresh tt)
              (record {
                start_paged = refl;
                end_paged = refl;
                start_word = omega arith;
                end_word = omega arith;
              })
              refl (omega arith))
            (λ r s'' (_, maps, _). only_null (st.regions s''.memory_regions) maps.index (
              subst
                (λ (old : List MappedRegion).
                  Adds null_region old (st.regions s''.memory_regions) maps.index)
                fresh maps.adds)))
          (λ _ s'' h. h))
