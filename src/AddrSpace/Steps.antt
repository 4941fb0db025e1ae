-- ===== src/AddrSpace/Steps.antt =====
-- The steps of a mapping without a given address, from a well-formed list of regions.
use aurora_os.Prelude.{
  ℕ, ◌+◌, ◌-◌, ◌==◌, ◌≤◌, ◌<◌, ◌≡◌, inl, inr, refl, sym, ap, arith, Option, none, some, Bool, false,
  Bool-cases, Option-cases, subst, get_elem?, ltb,
}
use aurora_os.BitUtils.{page_size, usize_mod, IsUsize}
use aurora_os.BitUtils.Size.{bytes_aligned}
use aurora_os.Container.VecMap.{BinarySearch}
use aurora_os.AddrSpace.{
  MappedRegion, MappingTarget, RegionPadding, Outcome, ok, err, panic, SysResult, SysResult-cases,
  returned, refused, from_sys, map_err, memory, event_pool, phys_mem, empty, ananamous_mapping_oom,
}
use aurora_os.AddrSpace.Regions.{MappedRegionStorage, StorageLaws, insert_region}
use aurora_os.AddrSpace.Free.{find_map_address}
use aurora_os.AddrSpace.Action.{
  AddressSpaceCalls, AddrSpaceManager, Ends, call, on_regions, on_error, ◌>>=◌, pure, stored,
}
use aurora_os.AddrSpace.Map.{
  MapMemoryArgs, take_memory, check_size, choose_address, map_region, stored_region, drop_region,
  or_panic,
}
use aurora_os.AddrSpace.IsWf.{IsPaged, IsRegion, IsWf, Free, bytes_aligned_least}
use aurora_os.AddrSpace.Find.{
  total, Places, placed, full, too_large, find_map_address-Places, region_size_lem,
}
use aurora_os.AddrSpace.Order.{SearchLaws}
use aurora_os.AddrSpace.Store.{Adds-get_elem?, insert_region-Inserts, Inserts, remove_added}
use aurora_os.AddrSpace.Effects.{
  CallLaws, IsPadding, Chosen, region_of, Same, Unchanged, Stored, Taken, Called,
}

module _ {T W : Type 0} ⦃bs : BinarySearch MappedRegion⦄ (search : SearchLaws bs)
    ⦃st : MappedRegionStorage T⦄ (laws : StorageLaws T st) ⦃calls : AddressSpaceCalls W⦄
    (call_laws : CallLaws calls) (t : T) (wf : IsWf (st.regions t)) where
  new_memory_Ends :
      (size : ℕ)
      → IsPaged size
      → IsUsize size
      → (s : AddrSpaceManager T W) → Same t s
      → (r : SysResult ℕ × W) → (length : Option ℕ)
      → Ends
          (Taken t none length)
          (Unchanged t)
          (((call (map_err ananamous_mapping_oom) (λ w. r)) >>= λ new. pure (some new, size)) s)
  new_memory_Ends size paged word s same (returned m, w) length =
      (same, paged, word, (λ e. cc), λ m q. cc)
  new_memory_Ends size paged word s same (refused e, w) length = ap st.regions same

  pub take_memory-Ends :
      (args : MapMemoryArgs) (s : AddrSpaceManager T W)
      → Same t s
      → ((size : ℕ) → args.size ≡ some size → size + page_size ≤ usize_mod)
      → Ends (Taken t args.memory args.size) (Unchanged t) (take_memory args s)
  unfolding take_memory
  take_memory-Ends args s same small = elim (Option-cases args.memory) [
    | inr (given, e) ↦ elim (SysResult-cases (calls.memory_size given s.kernel)) [
      | inl (n, answer) ↦
          rw (take_memory, e, answer)
            (let (p, w) = call_laws.memory_paged given n s.kernel answer in
              (same, p, w, (λ e'. cc), λ m q. q))
      | inr (error, answer) ↦ rw (take_memory, e, answer) (ap st.regions same)
    ]
    | inl e ↦ elim (Option-cases args.size) [
      | inl no_size ↦
          rw (take_memory, e, no_size) (same, refl, omega arith, (λ _. (refl, refl)), λ m q. cc)
      | inr (size, e') ↦
          let (least, most, paged) = bytes_aligned_least size (small size e') in
          rw (take_memory, e, e')
            (new_memory_Ends (bytes_aligned size) paged (omega (arith, most, small size e')) s same
              (calls.new_memory (bytes_aligned size) s.kernel) (some size))
    ]
  ]

  pub check_size-Ends :
      (denied : Bool) (size : ℕ) (padding : RegionPadding) (s : AddrSpaceManager T W)
      → Same t s
      → IsPadding padding
      → IsPaged size
      → IsUsize size
      → Ends
          (λ _ s'. Same t s' × (0 < total size padding) × (denied ≡ false))
          (Unchanged t)
          (check_size denied size padding s)
  unfolding check_size
  check_size-Ends denied size padding s same p paged word =
      rw
        (
          check_size,
          region_size_lem size padding word p.start_word p.end_word paged p.start_paged p.end_paged,
        )
        (elim (Bool-cases (ltb (total size padding) usize_mod)) [
          | inr h ↦ rw h (ap st.regions same)
          | inl h ↦ rw h (elim (Bool-cases (total size padding == 0)) [
            | inl zero_size ↦ rw zero_size (ap st.regions same)
            | inr nonzero ↦ rw nonzero (elim (Bool-cases denied) [
              | inl d ↦ rw d (ap st.regions same)
              | inr d ↦ rw d (same, ground arith, refl)
            ])
          ])
        ])

  pub choose_address-Ends :
      (draw size : ℕ) (given : Option ℕ) (padding : RegionPadding) (s : AddrSpaceManager T W)
      → Same t s
      → given ≡ none
      → IsPadding padding
      → IsPaged size
      → IsUsize size
      → 0 < total size padding
      → Ends
          (λ address s'. Same t s' × Chosen (st.regions t) address size padding)
          (Unchanged t)
          (choose_address draw given size padding s)
  unfolding choose_address
  choose_address-Ends draw size given padding s same anywhere p paged word pos = rw anywhere (
      chosen (find_map_address draw size padding (st.regions s.memory_regions)) (
        find_map_address-Places size padding word p.start_word p.end_word paged p.start_paged
          p.end_paged draw (st.regions s.memory_regions) pos
          (subst (λ u. IsWf (st.regions u)) (sym same) wf)))
    where
      chosen :
          (r : Outcome ℕ)
          → Places size padding (st.regions s.memory_regions) r
          → Ends
              (λ address s'. Same t s' × Chosen (st.regions t) address size padding)
              (Unchanged t)
              (r, s)
      chosen r (placed address lo p top free) = (
        same,
        (
          lo,
          p,
          top,
          subst (λ u. Free (address - padding.start) (address + size + padding.end) (st.regions u))
              same free,
        ),
      )
      chosen r (full no_place) = ap st.regions same
      chosen r (too_large over) = ap st.regions same

  pub add_region-Ends :
      (target : MappingTarget) (address size : ℕ) (padding : RegionPadding)
      (s : AddrSpaceManager T W)
      → Same t s
      → Chosen (st.regions t) address size padding
      → IsPadding padding
      → IsPaged size
      → 0 < size + padding.end
      → Ends
          (Stored t (region_of target address size padding))
          (Unchanged t)
          (on_regions (insert_region (region_of target address size padding)) s)
  add_region-Ends target address size padding s same (lo, ap', top, free) p paged pos =
      added (insert_region n s.memory_regions) (
        subst (λ u. Inserts t n (insert_region n u)) (sym same)
          (insert_region-Inserts search laws t wf n is_region free))
    where
      n : MappedRegion
      n = region_of target address size padding

      is_region : IsRegion n
      is_region = record {
        fits = lo;
        nonempty = omega (arith, pos);
        below_end = top;
        address_paged = ap';
        size_paged = paged;
        start_paged = p.start_paged;
        end_paged = p.end_paged;
      }

      added : (r : Outcome (ℕ × T)) → Inserts t n r → Ends (Stored t n) (Unchanged t) (stored s r)
      added (ok (index, t')) a = a
      added (err e) a = ap st.regions same
      added panic a = a

  pub stored_region-Ends :
      (n : MappedRegion) (index : ℕ) (s : AddrSpaceManager T W)
      → Stored t n index s
      → Ends
          (λ r s'. (r ≡ n) × (s' ≡ s) × Stored t n index s')
          (Unchanged t)
          (stored_region index s)
  stored_region-Ends n index s a =
      there (get_elem? (st.regions s.memory_regions) index) (Adds-get_elem? a)
    where
      there :
          (o : Option MappedRegion)
          → o ≡ some n
          → Ends (λ r s'. (r ≡ n) × (s' ≡ s) × Stored t n index s') (Unchanged t) (or_panic o, s)
      there none e = cc
      there (some r) e = (cc, refl, a)

  pub map_region-Ends :
      (target : MappingTarget) (address size options index : ℕ) (padding : RegionPadding)
      (s : AddrSpaceManager T W)
      → Stored t (region_of target address size padding) index s
      → Ends
          (λ _ s'.
            Stored t (region_of target address size padding) index s'
            × Called target address size options s')
          (Unchanged t)
          (map_region address size options target s)
  unfolding map_region
  map_region-Ends (event_pool c) address size options index padding s a = (a, tt)
  map_region-Ends (phys_mem c) address size options index padding s a = (a, tt)
  map_region-Ends empty address size options index padding s a = (a, tt)
  map_region-Ends (memory m) address size options index padding s a =
      mapped (calls.map_memory m address size options s.kernel) refl
    where
      n : MappedRegion
      n = region_of (memory m) address size padding

      mapped :
          (r : SysResult (Unit {0}) × W)
          → calls.map_memory m address size options s.kernel ≡ r
          → Ends
              (λ _ s'.
                Stored t (region_of (memory m) address size padding) index s'
                × Called (memory m) address size options s')
              (Unchanged t)
              (on_error (call from_sys (λ w. r)) (drop_region address) s)
      mapped (returned _, w) q = (a, (s.kernel, ap (λ p. p.0) q, ap (λ p. p.1) q))
      mapped (refused e, w) q =
          let (t', removal, back) =
            remove_added search laws s.memory_regions a.keeps_wf n index (st.regions t) a in
          rw removal back
