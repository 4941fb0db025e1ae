-- ===== src/Cap/Tests.antt =====
-- A small history of two capability spaces, and the theorems at it.
use aurora_os.Prelude.{
  ℕ, ◌≡◌, ◌≢◌, ◌↔◌, refl, arith, Bool, true, false, none, some, [], ◌∷◌, if◌then◌else◌, ◌==◌,
}
use aurora_os.KResult.{ok}
use aurora_os.Container.HashMap
use aurora_os.Cap.Flags.{Bitflags, word_flags}
use aurora_os.Cap.CapId
use aurora_os.Cap.CapId.{CapType, memory, lock, key}
use aurora_os.Cap.CapId.Layout.{new_roundtrip}
use aurora_os.Cap.Space
use aurora_os.Cap.Space.{
  Capability, CapabilityEntry, CapabilitySpace, strong, weak, empty, insert_inner, get_with_perms,
  id, is_weak, object, set_id, set_map,
}
use aurora_os.Cap.Space.Access.{Permits, Grants, get_with_perms_iff}
use aurora_os.Cap.Space.Insert.{IsWf, insert_inner_adds}
use aurora_os.Cap.Space.Reach.{start, next, inserts, Reach-IsWf}
use aurora_os.Cap.Clone.{
  is_todo, CloneArgs, Spaces, clone, cap_clone, keep_same, clone_found, place, convert,
  new_flags_capid,
}
use aurora_os.BitUtils.{get_bits}
use aurora_os.Cap.Clone.Perms.{Clones, cap_clone_restricts}
use aurora_os.Cap.Clone.Placement.{Places, clone-Places}

instance abbrev flags_of_words : Bitflags
flags_of_words = word_flags

new_run : CapId.new memory 5 true 3 ≡ 3253
unfolding CapId.new
new_run = refl

abbrev memory_id : ℕ
memory_id = 167

abbrev memory_entry : CapabilityEntry
memory_entry = record { visible = true; capability = strong 7 memory_id }

abbrev dead_entry : CapabilityEntry
dead_entry = record { visible = true; capability = weak 8 memory_id }

abbrev blank : CapabilitySpace
blank = record { next_id = 0; maps = λ _. [] }

-- A space that holds one capability.
abbrev holder : CapabilityEntry → CapabilitySpace
holder e = set_map memory ((memory_id, e) ∷ []) (record { next_id = 1; maps = λ _. [] })

abbrev all_alive : ℕ → Bool
all_alive _ = true

abbrev none_alive : ℕ → Bool
none_alive _ = false

abbrev two_spaces : Spaces
two_spaces p = if p == 0 then holder memory_entry else blank

-- Clone from space 0 to space 1 with two of the three permissions, and destroy the old capability.
abbrev move_args : CloneArgs
move_args = record {
  dst = 1;
  src = 0;
  cap_id = memory_id;
  new_perms = 3;
  cap_weakness = keep_same;
  destroy_old_cap = true;
  weak_auto_destroy = false;
}

clone_run : (clone memory all_alive true move_args two_spaces).1 ≡ ok 163
unfolding clone clone_found place convert new_flags_capid Space.get Space.insert insert_inner
    HashMap.get HashMap.insert HashMap.put CapId.new CapId.flags CapId.null_flags
    Space.CapType-discrete
clone_run = refl

cap_clone_run : (cap_clone all_alive true move_args two_spaces).1 ≡ ok 163
unfolding cap_clone CapId.cap_type CapId.from get_bits
cap_clone_run = clone_run

memory_found : HashMap.get memory_id ((holder memory_entry).maps memory) ≡ some memory_entry
unfolding HashMap.get Space.CapType-discrete
memory_found = refl

new_roundtrip_example :
    (CapId.cap_type (CapId.new memory 5 true 3) ≡ some memory)
    × (CapId.try_from (CapId.new memory 5 true 3) ≡ some (CapId.new memory 5 true 3))
    × (CapId.flags (CapId.new memory 5 true 3) ≡ 5)
    × (CapId.is_weak (CapId.new memory 5 true 3) ≡ true)
new_roundtrip_example = new_roundtrip memory 5 true 3 (omega arith)

blank-IsWf : IsWf blank
blank-IsWf = record { entries = λ t. tt }

insert_inner_adds_example :
    let s' = (insert_inner memory true (strong 7 7) true blank).0 in
    (HashMap.get memory_id (blank.maps memory) ≡ none)
    × (HashMap.get memory_id (s'.maps memory)
        ≡ some (record { visible = true; capability = strong 7 memory_id }))
    × ((k : ℕ) → k ≢ memory_id → HashMap.get k (s'.maps memory) ≡ HashMap.get k (blank.maps memory))
    × ((u : CapType) → u ≢ memory → s'.maps u ≡ blank.maps u)
unfolding insert_inner HashMap.insert CapId.new CapId.flags
insert_inner_adds_example =
    insert_inner_adds memory true (strong 7 7) true blank memory_id (omega arith) blank-IsWf refl

Reach-IsWf_example : IsWf (insert_inner memory true (strong 7 7) true empty).0
Reach-IsWf_example =
    Reach-IsWf
      (next start (inserts memory true (strong 7 7) true empty (unfold empty in omega arith)))

get_with_perms_iff_example :
    ((get_with_perms memory all_alive memory_id 3 false (holder memory_entry)).1
      ≡ ok (strong 7 memory_id))
    ↔ Grants memory all_alive (holder memory_entry) memory_id 3 (strong 7 memory_id)
get_with_perms_iff_example =
    get_with_perms_iff memory all_alive (holder memory_entry) memory_id 3 false (strong 7 memory_id)

dead-Permits : Permits memory none_alive (holder dead_entry) memory_id 3 dead_entry
unfolding CapId.try_from CapId.from get_bits HashMap.get Space.CapType-discrete CapId.flags
dead-Permits = record { valid = refl; found = refl; visible = refl; permitted = refl }

cap_clone_restricts_example :
    (t : CapType) × (CapId.cap_type memory_id ≡ some t)
    × (is_todo t ≡ false)
    × Clones t all_alive move_args two_spaces 163
cap_clone_restricts_example =
    cap_clone_restricts all_alive true move_args two_spaces 163 cap_clone_run

abbrev lock_args : CloneArgs
lock_args = record move_args { cap_id = CapId.new lock 1 false 0 }

clone-Places_example :
    (c : Capability) × (c' : Capability) × (Space.get memory memory_id (two_spaces 0) ≡ ok c)
    × (object c' ≡ object c)
    × Places memory move_args c' two_spaces (clone memory all_alive true move_args two_spaces).0 163
clone-Places_example =
    clone-Places memory all_alive true move_args two_spaces 163 (omega arith) blank-IsWf clone_run
