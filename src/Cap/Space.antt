-- ===== src/Cap/Space.antt =====
-- kernel/src/cap/capability_space.rs, and Capability of kernel/src/cap/mod.rs.
-- The methods that the macro generates for each kind of object are one family over `CapType`. An
-- object is named by a number, and `alive` says whether a weak reference to it still upgrades
-- (kernel/src/container/arc.rs). `room` says whether the heap has memory for the table of the map.
pub mod Access
pub mod Insert
pub mod Reach
use mathlib.Core.Logic.{ite}
use aurora_os.Prelude.{
  ℕ, ◌+◌, ◌%◌, ◌≡◌, Bool, true, false, Option, none, some, List, [], if◌then◌else◌,
}
use aurora_os.BitUtils.{usize_mod}
use aurora_os.KResult.{
  KResult, ok, err, panic, ok_or, guard, ◌>>=◌, ◌>>◌, out_of_mem, invl_id, invl_perm, invl_weak,
}
use aurora_os.Container.HashMap
use aurora_os.Cap.Flags.{Bitflags}
use aurora_os.Cap.CapId
use aurora_os.Cap.CapId.{CapType}

unfoldable pub CapType-discrete : Discrete CapType
CapType-discrete = hlevel

-- Capability: a strong or a weak reference to an object, with an id.
pub data Capability : Type 0 where
  strong : ℕ → ℕ → Capability
  weak : ℕ → ℕ → Capability

abbrev pub id : Capability → ℕ
id (strong object i) = i
id (weak object i) = i

abbrev pub set_id : Capability → ℕ → Capability
set_id (strong object _) i = strong object i
set_id (weak object _) i = weak object i

abbrev pub is_weak : Capability → Bool
is_weak (strong object i) = false
is_weak (weak object i) = true

abbrev pub object : Capability → ℕ
object (strong o i) = o
object (weak o i) = o

pub record CapabilityEntry : Type 0 where
  pub visible : Bool
  pub capability : Capability

abbrev pub CapMap : Type 0
CapMap = List (ℕ × CapabilityEntry)

-- One map for each kind of object.
pub record CapabilitySpace : Type 0 where
  pub next_id : ℕ
  pub maps : CapType → CapMap

abbrev pub set_map : CapType → CapMap → CapabilitySpace → CapabilitySpace
set_map t m s = record s { maps = λ t'. ite (CapType-discrete t' t) m (s.maps t') }

-- CapabilitySpace::new
unfoldable pub empty : CapabilitySpace
empty = record { next_id = 0; maps = λ _. [] }

-- `KResult`s of methods that change the space come with the new space.
module _ (t : CapType) where
  unfoldable pub make_visible : ℕ → CapabilitySpace → CapabilitySpace × KResult (Unit {0})
  make_visible cap_id s = elim (HashMap.get cap_id (s.maps t)) [
    | none ↦ (s, err invl_id)
    | some entry ↦
        (set_map t (HashMap.put cap_id (record entry { visible = true }) (s.maps t)) s, ok tt)
  ]

  unfoldable pub remove : ℕ → CapabilitySpace → CapabilitySpace × KResult Capability
  remove cap_id s = elim (HashMap.get cap_id (s.maps t)) [
    | none ↦ (s, err invl_id)
    | some entry ↦ (set_map t (HashMap.remove cap_id (s.maps t)) s, ok entry.capability)
  ]

  unfoldable pub get : ℕ → CapabilitySpace → KResult Capability
  get cap_id s = do
    entry ← ok_or (HashMap.get cap_id (s.maps t)) invl_id
    ok (CapabilityEntry.capability entry)

module _ ⦃bf : Bitflags⦄ (t : CapType) where
  -- insert_inner: the unique number is taken even if the insertion fails.
  unfoldable pub insert_inner :
      Bool → Capability → Bool → CapabilitySpace → CapabilitySpace × KResult ℕ
  insert_inner room capability visible s =
      let cap_id = CapId.new t (CapId.flags (id capability)) (is_weak capability) s.next_id in
      let taken = record s { next_id = (s.next_id + 1) % usize_mod } in
      let entry : CapabilityEntry = record {
        visible = visible;
        capability = set_id capability cap_id;
      } in
      elim (HashMap.insert room cap_id entry (s.maps t)) [
        | none ↦ (taken, err out_of_mem)
        | some m ↦ (set_map t m taken, ok cap_id)
      ]

  unfoldable pub insert : Bool → Capability → CapabilitySpace → CapabilitySpace × KResult ℕ
  insert room capability = insert_inner room capability true

  unfoldable pub insert_invisible :
      Bool → Capability → CapabilitySpace → CapabilitySpace × KResult ℕ
  insert_invisible room capability = insert_inner room capability false

  -- The capability behind an entry that may be used; a strong one is the result.
  unfoldable pub upgrade_entry :
      (ℕ → Bool) → Bool → ℕ → Capability → CapabilitySpace → CapabilitySpace × KResult Capability
  upgrade_entry alive weak_auto_destroy cap_id (strong o i) s = (s, ok (strong o i))
  upgrade_entry alive weak_auto_destroy cap_id (weak o i) s =
      if alive o then (s, ok (strong o i)) else (
        (if weak_auto_destroy then set_map t (HashMap.remove cap_id (s.maps t)) s else s),
        err invl_weak,
      )

  -- get_with_perms
  unfoldable pub get_with_perms :
      (ℕ → Bool) → ℕ → ℕ → Bool → CapabilitySpace → CapabilitySpace × KResult Capability
  get_with_perms alive raw_id required_perms weak_auto_destroy s = elim (CapId.try_from raw_id) [
    | none ↦ (s, err invl_id)
    | some cap_id ↦ elim (HashMap.get cap_id (s.maps t)) [
      | none ↦ (s, err invl_id)
      | some entry ↦
          if entry.visible
          then (if bf.contains (CapId.flags (id entry.capability)) required_perms
              then upgrade_entry alive weak_auto_destroy cap_id entry.capability s
              else (s, err invl_perm))
          else (s, err invl_id)
    ]
  ]
