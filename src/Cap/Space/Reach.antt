-- ===== src/Cap/Space/Reach.antt =====
-- The histories of a capability space: any sequence of its methods, from the empty space on.
use aurora_os.Prelude.{ℕ, ◌^◌, ◌<◌, Bool}
use aurora_os.Cap.Flags.{Bitflags}
use aurora_os.Cap.CapId.{CapType}
use aurora_os.Cap.Space.{
  Capability, CapabilitySpace, empty, insert_inner, remove, make_visible, get_with_perms,
}
use aurora_os.Cap.Space.Insert.{
  IsWf, empty-IsWf, insert_inner-IsWf, remove-IsWf, make_visible-IsWf, get_with_perms-IsWf,
}

module _ ⦃bf : Bitflags⦄ where
  -- One call of a method. An insertion is counted as long as the 54 bits of the number last.
  pub data Step : CapabilitySpace → CapabilitySpace → Type 0 where
    inserts :
        (t : CapType) (room : Bool) (c : Capability) (visible : Bool) (s : CapabilitySpace)
        → s.next_id < 2 ^ 54
        → Step s (insert_inner t room c visible s).0
    removes : (t : CapType) (cap_id : ℕ) (s : CapabilitySpace) → Step s (remove t cap_id s).0
    shows : (t : CapType) (cap_id : ℕ) (s : CapabilitySpace) → Step s (make_visible t cap_id s).0
    reads :
        (t : CapType) (alive : ℕ → Bool) (raw_id perms : ℕ) (weak_auto_destroy : Bool)
        (s : CapabilitySpace)
        → Step s (get_with_perms t alive raw_id perms weak_auto_destroy s).0

  pub data Reach : CapabilitySpace → Type 0 where
    start : Reach empty
    next : {s s' : CapabilitySpace} → Reach s → Step s s' → Reach s'

  Step-IsWf : {s s' : CapabilitySpace} → Step s s' → IsWf s → IsWf s'
  Step-IsWf (inserts t room c visible s lt) h = insert_inner-IsWf t room c visible s lt h
  Step-IsWf (removes t k s) h = remove-IsWf t k s h
  Step-IsWf (shows t k s) h = make_visible-IsWf t k s h
  Step-IsWf (reads t alive raw perms auto s) h = get_with_perms-IsWf t alive raw perms auto s h

  -- Every capability space that is reached from the empty one by the methods, with insertions
  -- while fewer than 2 ^ 54 numbers are taken, is well formed: each entry of a map stands under
  -- the id of its capability, which new built for the type of the map, with the weakness of the
  -- capability, from a number already taken.
  pub Reach-IsWf : {s : CapabilitySpace} → Reach s → IsWf s
  Reach-IsWf start = empty-IsWf
  Reach-IsWf (next r st) = Step-IsWf st (Reach-IsWf r)
