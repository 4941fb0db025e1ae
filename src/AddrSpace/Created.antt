-- ===== src/AddrSpace/Created.antt =====
-- Where the list of regions of a new manager stands, and which state the manager is in.
use aurora_os.Prelude.{◌∙◌, ℕ, ◌+◌, ◌≤◌, ◌≡◌, refl, ap, subst, List, [], arith}
use aurora_os.Container.VecMap.{BinarySearch}
use aurora_os.AddrSpace.{MappedRegion, Outcome, ok, err, panic}
use aurora_os.AddrSpace.Regions.{region_list_max_size, vec_storage}
use aurora_os.AddrSpace.Action.{AddressSpaceCalls, AddrSpaceManager}
use aurora_os.AddrSpace.Map.{reserve_null_page}
use aurora_os.AddrSpace.IsWf.{IsPaged}
use aurora_os.AddrSpace.Create.{
  list_address, higher_half_start, kernel_reserved_start, new_remote, then_reserved, empty_manager,
}
use aurora_os.AddrSpace.Reach.{Reach}

-- Whatever the random number is, the list of regions stands at a page of the higher half, and at
-- its greatest size it ends before the memory of the kernel.
pub list_address_inside :
    (draw : ℕ)
    → (higher_half_start ≤ list_address draw)
      × (list_address draw + region_list_max_size ≤ kernel_reserved_start)
      × IsPaged (list_address draw)
unfolding list_address
list_address_inside draw = (omega arith, omega arith, omega arith)

module _ {W : Type 0} ⦃bs : BinarySearch MappedRegion⦄ ⦃calls : AddressSpaceCalls W⦄ where
  -- What new_remote answers with is a state that a new manager comes to.
  pub new_remote-Reach :
      (draw : ℕ) (kernel : W) (s : AddrSpaceManager (List MappedRegion) W)
      → new_remote draw kernel ≡ ok s
      → Reach s
  unfolding new_remote
  new_remote-Reach draw kernel s e =
      reached (reserve_null_page draw (empty_manager [] kernel)) refl e
    where
      reached :
          (r : Outcome (Unit {0}) × AddrSpaceManager (List MappedRegion) W)
          → reserve_null_page draw (empty_manager [] kernel) ≡ r
          → then_reserved r ≡ ok s
          → Reach s
      reached (ok u, s') e q =
          let same : s' ≡ s = cc in
          subst (λ (x : AddrSpaceManager (List MappedRegion) W). Reach x) (ap (λ r. r.1) e ∙ same)
            (Reach.made draw (empty_manager [] kernel) refl (ap (λ r. r.0) e))
      reached (err x, s') e q = cc
      reached (panic, s') e q = cc
