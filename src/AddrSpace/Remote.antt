-- ===== src/AddrSpace/Remote.antt =====
-- What a mapping in the space of another process and in the own one does.
use aurora_os.Prelude.{
  ℕ, ◌+◌, ◌≤◌, ◌<◌, ◌≡◌, ◌⊎◌, inl, inr, refl, none, some, Option, Option-cases, subst, arith,
}
use aurora_os.BitUtils.{page_size, usize_mod}
use aurora_os.Container.VecMap.{BinarySearch}
use aurora_os.KResult.{SysErr}
use aurora_os.AddrSpace.{
  MappedRegion, Outcome, ok, err, panic, SysResult, returned, refused, from_memory, memory, unwrap,
  RegionPadding,
}
use aurora_os.AddrSpace.Regions.{MappedRegionStorage, StorageLaws, ◌>>=◌}
use aurora_os.AddrSpace.Action.{AddressSpaceCalls, AddrSpaceManager, Ends, Ends-map}
use aurora_os.AddrSpace.Map.{MapMemoryArgs, MapMemoryResult, map_memory, unmap_memory}
use aurora_os.AddrSpace.IsWf.{IsWf}
use aurora_os.AddrSpace.Order.{SearchLaws}
use aurora_os.AddrSpace.Effects.{
  CallLaws, UndoLaws, CanUnmap, Called-CanUnmap, IsPadding, region_of, Maps, MapsMemory,
}
use aurora_os.AddrSpace.Mapping.{map_memory-Ends}
use aurora_os.AddrSpace.Unmap.{unmap_memory_added}
use aurora_os.AddrSpace.Create.{
  LocalRemoteMapResult, Managers, local_args, after_local, after_clone, after_remote,
  map_memory_remote_and_local,
}

module _ {T T' W W' : Type 0} ⦃st : MappedRegionStorage T⦄ ⦃st' : MappedRegionStorage T'⦄
    ⦃calls' : AddressSpaceCalls W'⦄ (padding : RegionPadding) (s : Managers T T' W W') where
  -- The own space is as it was.
  abbrev pub HereSame : AddrSpaceManager T' W' → Type 0
  HereSame here = st'.regions here.memory_regions ≡ st'.regions s.here.memory_regions

  abbrev pub RemoteSame : AddrSpaceManager T W → Type 0
  RemoteSame remote = st.regions remote.memory_regions ≡ st.regions s.remote.memory_regions

  -- With memory, a mapping of its clone at a local address, and without, nothing.
  abbrev pub MapsHere : Option ℕ → Option ℕ → AddrSpaceManager T' W' → Type 0
  MapsHere none none here = HereSame here
  MapsHere (some given) (some address) here =
      (copy : ℕ) × (own_size : ℕ) × ((calls'.clone_memory given s.here.kernel).0 ≡ returned copy)
      × Maps s.here (record { start = 0; end = 0 }) (memory copy) address own_size here
  MapsHere _ _ here = ⊥

  -- The clone of the memory that is mapped in the other space is refused.
  abbrev pub Refuses : AddrSpaceManager T W → Type 0
  Refuses remote =
      (given : ℕ) × (e : SysErr) × (address : ℕ) × (size : ℕ) × ((calls'.clone_memory given
          s.here.kernel).0
        ≡ refused e)
      × Maps s.remote padding (memory given) address size remote

  -- How the mapping in both spaces ends.
  abbrev pub EndsBoth : Outcome LocalRemoteMapResult × Managers T T' W W' → Type 0
  EndsBoth (ok r, s') =
      (target : Option ℕ) × Maps s.remote padding (from_memory target) r.remote_address r.size
        s'.remote
      × MapsHere target r.local_address s'.here
  EndsBoth (err e, s') = HereSame s'.here × (RemoteSame s'.remote ⊎ Refuses s'.remote)
  EndsBoth (panic, s') = ⊥

module _ {T T' W W' : Type 0} ⦃bs : BinarySearch MappedRegion⦄ (search : SearchLaws bs)
    ⦃st : MappedRegionStorage T⦄ (laws : StorageLaws T st) ⦃st' : MappedRegionStorage T'⦄
    (laws' : StorageLaws T' st') ⦃calls : AddressSpaceCalls W⦄ (call_laws : CallLaws calls)
    (undo : UndoLaws calls) ⦃calls' : AddressSpaceCalls W'⦄ (call_laws' : CallLaws calls')
    (padding : RegionPadding) (s : Managers T T' W W')
    (wf : IsWf (st.regions s.remote.memory_regions))
    (wf' : IsWf (st'.regions s.here.memory_regions)) where
  undone-EndsBoth :
      (e : _) (here : AddrSpaceManager T' W')
      → HereSame padding s here
      → (r : Outcome (Unit {0}) × AddrSpaceManager T W)
      → Ends (λ _ s'. RemoteSame padding s s') (λ _. ⊥) r
      → EndsBoth padding s (unwrap r.0 >>= λ _. err e, record { remote = r.1; here = here })
  undone-EndsBoth e here same (ok _, remote) back = (same, inl back)
  undone-EndsBoth e here same (err _, remote) back = absurd back
  undone-EndsBoth e here same (panic, remote) back = back

  -- The mapping in the other space, of memory that the kernel would unmap again.
  abbrev MapsThere : MapMemoryResult → AddrSpaceManager T W → Type 0
  MapsThere there remote =
      MapsMemory s.remote padding there remote
      × CanUnmap (from_memory there.memory) there.address remote.kernel

  after_local-EndsBoth :
      (given copy : ℕ)
      → (calls'.clone_memory given s.here.kernel).0 ≡ returned copy
      → (there : MapMemoryResult) (remote : AddrSpaceManager T W) → there.memory ≡ some given
      → MapsThere there remote
      → (r : Outcome MapMemoryResult × AddrSpaceManager T' W')
      → Ends
          (λ m here.
            (m.memory ≡ some copy) × MapsMemory s.here (record { start = 0; end = 0 }) m here)
          (HereSame padding s)
          r
      → EndsBoth padding s (after_local there remote r)
  unfolding after_local
  after_local-EndsBoth given copy e there remote of_memory (maps, _) (ok m, here) (same, own) =
      (some given, rw of_memory at maps, (copy, m.size, e, rw same at own))
  after_local-EndsBoth given copy e there remote of_memory (maps, works) (err x, here) same =
      undone-EndsBoth x here same (unmap_memory there.address remote) (
        unmap_memory_added search laws
          (region_of (from_memory there.memory) there.address there.size padding) maps.index _
          (λ _. ⊥) remote maps.adds works)
  after_local-EndsBoth given copy e there remote of_memory maps (panic, here) never = never

  after_clone-EndsBoth :
      (draw read_write given : ℕ) (there : MapMemoryResult) (remote : AddrSpaceManager T W)
      → there.memory ≡ some given
      → MapsThere there remote
      → (r : SysResult ℕ × W') → (calls'.clone_memory given s.here.kernel).0 ≡ r.0
      → EndsBoth padding s (after_clone draw read_write there remote s.here r)
  unfolding after_clone
  after_clone-EndsBoth draw read_write given there remote of_memory (maps, _) (refused x, w) e =
      (refl, inr (given, x, there.address, there.size, e, rw of_memory at maps))
  after_clone-EndsBoth draw read_write given there remote of_memory (maps, works) (returned copy, w)
        e =
      let (_, _, top, _) = maps.chosen in
      let args = local_args read_write copy there.size in
      let here : AddrSpaceManager T' W' = record s.here { kernel = w } in
      after_local-EndsBoth given copy e there remote of_memory (maps, works)
        (map_memory draw args here)
        (Ends-map _ _ _ (map_memory draw args here)
          (map_memory-Ends search laws' call_laws' here wf' draw args refl
            (record {
              start_paged = refl;
              end_paged = refl;
              start_word = omega arith;
              end_word = omega arith;
            })
            (λ size q. let same : there.size ≡ size = cc in omega (arith, same, top)) (λ q. cc))
          (λ m here' (own, given_memory, _). (
            given_memory copy refl,
            record { index = own.index; chosen = own.chosen; adds = own.adds },
          )))

  after_remote-EndsBoth :
      (draw read_write : ℕ) (r : Outcome MapMemoryResult × AddrSpaceManager T W)
      → Ends MapsThere (RemoteSame padding s) r
      → EndsBoth padding s (after_remote draw read_write s.here r)
  unfolding after_remote
  after_remote-EndsBoth draw read_write (ok there, remote) maps = elim (Option-cases there.memory) [
    | inl e ↦ rw (after_remote, e) (none, rw e at maps.0, refl)
    | inr (given, e) ↦
        rw (after_remote, e)
          (after_clone-EndsBoth draw read_write given there remote e maps
            (calls'.clone_memory given s.here.kernel) refl)
  ]
  after_remote-EndsBoth draw read_write (err e, remote) same = (refl, inl same)
  after_remote-EndsBoth draw read_write (panic, remote) never = never

  -- From managers of another space and of the own one whose lists are both well-formed, with a
  -- binary search and storages that behave as documented, under the conditions of mapping memory
  -- without an address, and where the kernel unmaps in the other space what it has just mapped,
  -- map_memory_remote_and_local does not panic: it maps in the other space, and in the own one, at
  -- the local address that it answers with, the clone of the memory if there is memory, and else
  -- nothing; or it ends in an error with the own list as it was, and the other list is then as it
  -- was too, or else the kernel refused to clone the memory, which stays mapped there.
  pub map_memory_remote_and_local-EndsBoth :
      (draw draw' read_write : ℕ) (args : MapMemoryArgs)
      → args.padding ≡ padding
      → args.address ≡ none
      → IsPadding args.padding
      → ((size : ℕ) → args.size ≡ some size → size + page_size ≤ usize_mod)
      → (args.memory ≡ none → args.size ≡ none → 0 < args.padding.end)
      → EndsBoth padding s (map_memory_remote_and_local draw draw' read_write args s)
  unfolding map_memory_remote_and_local
  map_memory_remote_and_local-EndsBoth draw draw' read_write args same anywhere p small reserved =
      after_remote-EndsBoth draw' read_write (map_memory draw args s.remote) (
        Ends-map _ _ _ (map_memory draw args s.remote)
          (map_memory-Ends search laws call_laws s.remote wf draw args anywhere p small reserved)
          (λ r s' (maps, _, called). (
            subst (λ (q : RegionPadding). MapsMemory s.remote q r s') same maps,
            Called-CanUnmap undo r.memory r.address r.size args.options s' called,
          )))
