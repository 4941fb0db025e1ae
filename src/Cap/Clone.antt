-- ===== src/Cap/Clone.antt =====
-- The cloning of capabilities of kernel/src/cap/capability_space.rs: clone_* and cap_clone, which
-- the cap_clone system call and the channels use.
pub mod Perms
pub mod Placement
use aurora_os.Prelude.{ℕ, ◌≡◌, Bool, true, false, not, Option, none, some, if◌then◌else◌, ◌==◌}
use aurora_os.KResult.{KResult, ok, err, panic, ◌>>=◌, out_of_mem, invl_id, invl_weak}
use aurora_os.Cap.Flags.{Bitflags}
use aurora_os.Cap.CapId
use aurora_os.Cap.CapId.{CapType, lock, message_capacity, root_oom}
use aurora_os.Cap.Space
use aurora_os.Cap.Space.{Capability, strong, weak, CapabilitySpace, id, is_weak}

pub data CapCloneWeakness : Type 0 where
  keep_same make_strong make_weak : CapCloneWeakness

-- The capability spaces of all processes, each under a number: source and destination may be one.
abbrev pub Spaces : Type 0
Spaces = ℕ → CapabilitySpace

abbrev pub set_space : ℕ → CapabilitySpace → Spaces → Spaces
set_space p s spaces q = if q == p then s else spaces q

abbrev pub wants_strong : CapCloneWeakness → Capability → Bool
wants_strong keep_same c = not (is_weak c)
wants_strong make_strong c = true
wants_strong make_weak c = false

-- The reference of a clone, under the id `i`; `none` if a weak reference does not upgrade.
unfoldable pub convert : (ℕ → Bool) → Bool → ℕ → Capability → Option Capability
convert alive true i (strong o _) = some (strong o i)
convert alive false i (strong o _) = some (weak o i)
convert alive true i (weak o _) = if alive o then some (strong o i) else none
convert alive false i (weak o _) = some (weak o i)

-- The arguments of a clone: the destination and the source space, the id to clone, and how.
pub record CloneArgs : Type 0 where
  pub dst : ℕ
  pub src : ℕ
  pub cap_id : ℕ
  pub new_perms : ℕ
  pub cap_weakness : CapCloneWeakness
  pub destroy_old_cap : Bool
  pub weak_auto_destroy : Bool

abbrev pub remove_src : CapType → CloneArgs → Spaces → Spaces
remove_src t a spaces = set_space a.src (Space.remove t a.cap_id (spaces a.src)).0 spaces

-- The kinds of object that `cap_clone` and `cap_destroy` have no case for: `todo!()`.
unfoldable pub is_todo : CapType → Bool
is_todo lock = true
is_todo message_capacity = true
is_todo root_oom = true
is_todo _ = false

module _ ⦃bf : Bitflags⦄ where
  -- The flags of the clone, under no number yet.
  unfoldable pub new_flags_capid : CloneArgs → Capability → ℕ
  new_flags_capid a c =
      CapId.null_flags (bf.intersection (CapId.flags (id c)) a.new_perms)
        (not (wants_strong a.cap_weakness c))

  -- The end of a clone: the insertion, then the removal of the old capability.
  unfoldable pub place : CapType → Bool → CloneArgs → Capability → Spaces → Spaces × KResult ℕ
  place t room a c spaces =
      let (d, result) = Space.insert t room c (spaces a.dst) in
      let placed = set_space a.dst d spaces in
      elim result [
        | ok new_id ↦ ((if a.destroy_old_cap then remove_src t a placed else placed), ok new_id)
        | err e ↦ (placed, err e)
        | panic ↦ (placed, panic)
      ]

  -- clone_* of a capability that was found.
  unfoldable pub clone_found :
      CapType → (ℕ → Bool) → Bool → CloneArgs → Capability → Spaces → Spaces × KResult ℕ
  clone_found t alive room a c spaces =
      elim (convert alive (wants_strong a.cap_weakness c) (new_flags_capid a c) c) [
        | none ↦ ((if a.weak_auto_destroy then remove_src t a spaces else spaces), err invl_weak)
        | some new_capability ↦ place t room a new_capability spaces
      ]

  unfoldable pub clone : CapType → (ℕ → Bool) → Bool → CloneArgs → Spaces → Spaces × KResult ℕ
  clone t alive room a spaces = elim (Space.get t a.cap_id (spaces a.src)) [
    | ok c ↦ clone_found t alive room a c spaces
    | err e ↦ (spaces, err e)
    | panic ↦ (spaces, panic)
  ]

  unfoldable pub cap_clone : (ℕ → Bool) → Bool → CloneArgs → Spaces → Spaces × KResult ℕ
  unfolding is_todo
  cap_clone alive room a spaces = elim (CapId.cap_type a.cap_id) [
    | none ↦ (spaces, panic)
    | some t ↦ if is_todo t then (spaces, panic) else clone t alive room a spaces
  ]
