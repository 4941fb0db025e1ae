-- ===== src/Cap/Clone/Perms.antt =====
-- A clone never has more permissions than the capability it was made from.
use aurora_os.Prelude.{
  ℕ, ◌≡◌, refl, sym, ap, ◌∙◌, arith, Bool, true, false, not, some, Option-cases, inl, inr,
  Bool-cases, bit_and, ◌⊎◌,
}
use aurora_os.Prelude.Bits.{bit_and-contained, bit_and-le}
use aurora_os.KResult.{ok, KResult-cases}
use aurora_os.Container.HashMap
use aurora_os.Cap.Flags.{Bitflags, IsCapFlags}
use aurora_os.Cap.CapId
use aurora_os.Cap.CapId.{CapType, lock, message_capacity, root_oom}
use aurora_os.Cap.CapId.Layout.{new_roundtrip, flags-IsCapFlags, flags-null_flags}
use aurora_os.Cap.Space
use aurora_os.Cap.Space.{
  Capability, CapabilitySpace, strong, weak, id, is_weak, object, insert_inner,
}
use aurora_os.Cap.Clone.{
  CloneArgs, Spaces, convert, wants_strong, new_flags_capid, place, clone_found, clone, cap_clone,
  is_todo,
}

-- What `convert` makes of a capability.
pub record Converted (alive : ℕ → Bool) (b : Bool) (i : ℕ) (c c' : Capability) : Type 0 where
  pub id_eq : id c' ≡ i
  pub weakness : is_weak c' ≡ not b
  pub object_eq : object c' ≡ object c
  pub living : is_weak c ≡ true → b ≡ true → alive (object c) ≡ true

pub convert-Converted :
    (alive : ℕ → Bool) (b : Bool) (i : ℕ) (c c' : Capability)
    → convert alive b i c ≡ some c'
    → Converted alive b i c c'
unfolding convert
convert-Converted alive true i (strong o j) c' e = ground arith
convert-Converted alive false i (strong o j) c' e = ground arith
convert-Converted alive true i (weak o j) c' e = ground arith
convert-Converted alive false i (weak o j) c' e = ground arith

module _ ⦃bf : Bitflags⦄ where
  -- A successful insertion answers with the id that `new` builds.
  pub insert-id :
      (t : CapType) (room : Bool) (c : Capability) (s : CapabilitySpace) (new_id : ℕ)
      → (Space.insert t room c s).1 ≡ ok new_id
      → new_id ≡ CapId.new t (CapId.flags (id c)) (is_weak c) s.next_id
  unfolding Space.insert insert_inner HashMap.insert
  insert-id t true c s new_id e = cc
  insert-id t false c s new_id e = cc

  pub place-insert :
      (t : CapType) (room : Bool) (a : CloneArgs) (c : Capability) (spaces : Spaces) (new_id : ℕ)
      → (place t room a c spaces).1 ≡ ok new_id
      → (Space.insert t room c (spaces a.dst)).1 ≡ ok new_id
  unfolding place
  place-insert t room a c spaces new_id e =
      elim (KResult-cases (Space.insert t room c (spaces a.dst)).1) [
        | inl (j, f) ↦ f ∙ (rw (f, place) at e)
        | inr (inl (x, f)) ↦ let no = rw (f, place) at e in cc
        | inr (inr f) ↦ let no = rw (f, place) at e in cc
      ]

  -- The id of the clone: the flags are those of the source that were asked for.
  pub record Clones (t : CapType) (alive : ℕ → Bool) (a : CloneArgs) (spaces : Spaces) (new_id : ℕ)
      : Type 0 where
    pub source : Capability
    pub found : Space.get t a.cap_id (spaces a.src) ≡ ok source
    pub flags_eq : CapId.flags new_id ≡ bit_and (CapId.flags (id source)) a.new_perms
    pub no_more : bf.contains (CapId.flags (id source)) (CapId.flags new_id) ≡ true
    pub weakness : CapId.is_weak new_id ≡ not (wants_strong a.cap_weakness source)
    pub kind : CapId.cap_type new_id ≡ some t
    pub living :
        is_weak source ≡ true
        → wants_strong a.cap_weakness source ≡ true
        → alive (object source) ≡ true

  pub clone-found :
      (t : CapType) (alive : ℕ → Bool) (room : Bool) (a : CloneArgs) (spaces : Spaces) (new_id : ℕ)
      → (clone t alive room a spaces).1 ≡ ok new_id
      → (c : Capability) × (Space.get t a.cap_id (spaces a.src) ≡ ok c)
        × ((clone_found t alive room a c spaces).1 ≡ ok new_id)
  unfolding clone
  clone-found t alive room a spaces new_id e =
      elim (KResult-cases (Space.get t a.cap_id (spaces a.src))) [
        | inl (c, f) ↦ (c, f, rw (f, clone) at e)
        | inr (inl (x, f)) ↦ let no = rw (f, clone) at e in cc
        | inr (inr f) ↦ let no = rw (f, clone) at e in cc
      ]

  pub clone_found-place :
      (t : CapType) (alive : ℕ → Bool) (room : Bool) (a : CloneArgs) (c : Capability)
      (spaces : Spaces) (new_id : ℕ)
      → (clone_found t alive room a c spaces).1 ≡ ok new_id
      → (c' : Capability) × (convert alive (wants_strong a.cap_weakness c) (new_flags_capid a c) c
          ≡ some c')
        × (clone_found t alive room a c spaces ≡ place t room a c' spaces)
  unfolding clone_found
  clone_found-place t alive room a c spaces new_id e =
      elim (Option-cases (convert alive (wants_strong a.cap_weakness c) (new_flags_capid a c) c)) [
        | inl f ↦ let no = rw (f, clone_found) at e in cc
        | inr (c', f) ↦ (c', f, rw (f, clone_found) refl)
      ]

  new_flags_lem :
      (a : CloneArgs) (c : Capability)
      → CapId.flags (new_flags_capid a c) ≡ bit_and (CapId.flags (id c)) a.new_perms
  unfolding new_flags_capid
  new_flags_lem a c =
      let old = CapId.flags (id c) in
      let fits : IsCapFlags (bit_and old a.new_perms) =
        omega (arith, bit_and-le old old a.new_perms (omega arith), flags-IsCapFlags (id c)) in
      rw (bf.intersection_lem old a.new_perms) (flags-null_flags (bit_and old a.new_perms) _ fits)

  -- Whatever the arguments of a clone, its id has no flag that the source does not have, only flags
  -- that were asked for, the weakness that was asked for and the type of the source; and a weak
  -- reference becomes a strong one only if its object lives.
  pub clone_restricts :
      (t : CapType) (alive : ℕ → Bool) (room : Bool) (a : CloneArgs) (spaces : Spaces) (new_id : ℕ)
      → (clone t alive room a spaces).1 ≡ ok new_id
      → Clones t alive a spaces new_id
  clone_restricts t alive room a spaces new_id e =
      let (c, f, e₁) = clone-found t alive room a spaces new_id e in
      let (c', g, e₂) = clone_found-place t alive room a c spaces new_id e₁ in
      let v = convert-Converted alive _ _ c c' g in
      let placed = place-insert t room a c' spaces new_id (sym (ap (λ r. r.1) e₂) ∙ e₁) in
      let made = insert-id t room c' (spaces a.dst) new_id placed in
      let fl = CapId.flags (id c') in
      let (kind, _, flags_new, weak_new) =
        new_roundtrip t fl (is_weak c') (CapabilitySpace.next_id (spaces a.dst))
          (flags-IsCapFlags (id c')) in
      let old = CapId.flags (id c) in
      let new_flags : CapId.flags new_id ≡ bit_and old a.new_perms =
        ap CapId.flags made ∙ flags_new ∙ ap CapId.flags v.id_eq ∙ new_flags_lem a c in
      record {
        source = c;
        found = f;
        flags_eq = new_flags;
        no_more = rw new_flags (
            (bf.contains_iff old (bit_and old a.new_perms)).1
              (bit_and-contained old old a.new_perms (omega arith)));
        weakness = ap CapId.is_weak made ∙ weak_new ∙ v.weakness;
        kind = ap CapId.cap_type made ∙ kind;
        living = v.living;
      }

  -- When cap_clone succeeds, the type in the id of the source is one that it clones, the flags of
  -- the new id are those of the source capability that were asked for, and none that the source
  -- does not have; the new id has the same type, and its weakness is the one asked for. A weak
  -- source becomes strong only if its object lives.
  pub cap_clone_restricts :
      (alive : ℕ → Bool) (room : Bool) (a : CloneArgs) (spaces : Spaces) (new_id : ℕ)
      → (cap_clone alive room a spaces).1 ≡ ok new_id
      → (t : CapType) × (CapId.cap_type a.cap_id ≡ some t)
        × (is_todo t ≡ false)
        × Clones t alive a spaces new_id
  unfolding cap_clone
  cap_clone_restricts alive room a spaces new_id e = elim (Option-cases (CapId.cap_type a.cap_id)) [
    | inl f ↦ let no = rw (f, cap_clone) at e in cc
    | inr (t, f) ↦ elim (Bool-cases (is_todo t)) [
      | inl todo ↦ let no = rw (f, todo, cap_clone) at e in cc
      | inr done ↦
          (t, f, done, clone_restricts t alive room a spaces new_id (rw (f, done, cap_clone) at e))
    ]
  ]

  -- The types of objects that cannot be cloned.
  abbrev pub NotCloned : CapType → Type 0
  NotCloned t = (t ≡ lock) ⊎ (t ≡ message_capacity) ⊎ (t ≡ root_oom)
