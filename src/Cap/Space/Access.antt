-- ===== src/Cap/Space/Access.antt =====
-- What get_with_perms grants and refuses.
use mathlib.Core.Logic.{if_pos}
use aurora_os.Prelude.{
  ℕ, ◌≡◌, ◌↔◌, refl, sym, ap, ◌∙◌, arith, Bool, true, false, none, some, Option-cases, inl, inr,
  Bool-cases, if_eq, if◌then◌else◌,
}
use aurora_os.KResult.{ok, err, invl_weak}
use aurora_os.Container.HashMap
use aurora_os.Container.HashMap.{get-remove}
use aurora_os.Cap.Flags.{Bitflags}
use aurora_os.Cap.CapId
use aurora_os.Cap.CapId.{CapType}
use aurora_os.Cap.Space.{
  Capability, CapabilityEntry, CapabilitySpace, id, is_weak, object, strong, weak, get_with_perms,
  upgrade_entry,
}

module _ ⦃bf : Bitflags⦄ (t : CapType) (alive : ℕ → Bool) (s : CapabilitySpace) where
  -- The id `raw` names a visible entry of the space, whose flags include those that are required.
  pub record Permits (raw perms : ℕ) (entry : CapabilityEntry) : Type 0 where
    pub valid : CapId.try_from raw ≡ some raw
    pub found : HashMap.get raw (s.maps t) ≡ some entry
    pub visible : entry.visible ≡ true
    pub permitted : bf.contains (CapId.flags (id entry.capability)) perms ≡ true

  -- The capability that is handed out: a strong reference to the same object, under the same id.
  pub record Grants (raw perms : ℕ) (c : Capability) : Type 0 where
    pub entry : CapabilityEntry
    pub permits : Permits raw perms entry
    pub result : c ≡ strong (object entry.capability) (id entry.capability)
    pub living : is_weak entry.capability ≡ true → alive (object entry.capability) ≡ true

  permitted_step :
      (raw perms : ℕ) (auto : Bool) (entry : CapabilityEntry)
      → Permits raw perms entry
      → get_with_perms t alive raw perms auto s ≡ upgrade_entry t alive auto raw entry.capability s
  unfolding get_with_perms
  permitted_step raw perms auto entry p =
      rw (p.valid, p.found, get_with_perms) (rw (p.visible, p.permitted))

  upgrade_entry-ok :
      (raw : ℕ) (auto : Bool) (c c' : Capability)
      → (upgrade_entry t alive auto raw c s).1 ≡ ok c'
      → (c' ≡ strong (object c) (id c)) × (is_weak c ≡ true → alive (object c) ≡ true)
  unfolding upgrade_entry
  upgrade_entry-ok raw auto (strong o i) c' e = (cc, λ w. cc)
  upgrade_entry-ok raw auto (weak o i) c' e = ground arith

  ok-upgrade_entry :
      (raw : ℕ) (auto : Bool) (c : Capability)
      → (is_weak c ≡ true → alive (object c) ≡ true)
      → upgrade_entry t alive auto raw c s ≡ (s, ok (strong (object c) (id c)))
  unfolding upgrade_entry
  ok-upgrade_entry raw auto (strong o i) living = refl
  ok-upgrade_entry raw auto (weak o i) living = rw (living refl)

  try_from-eq : (raw k : ℕ) → CapId.try_from raw ≡ some k → k ≡ raw
  unfolding CapId.try_from
  try_from-eq raw k e = ground arith

  ok-Permits :
      (raw perms : ℕ) (auto : Bool) (c : Capability)
      → (get_with_perms t alive raw perms auto s).1 ≡ ok c
      → (entry : CapabilityEntry) × Permits raw perms entry
  unfolding get_with_perms
  ok-Permits raw perms auto c e = elim (Option-cases (CapId.try_from raw)) [
    | inl e₀ ↦ let no = rw (e₀, get_with_perms) at e in cc
    | inr (k, e₀) ↦
        let same = try_from-eq raw k e₀ in
        let at_raw : CapId.try_from raw ≡ some raw = e₀ ∙ ap some same in
        elim (Option-cases (HashMap.get raw (s.maps t))) [
          | inl f ↦ let no = rw (at_raw, f, get_with_perms) at e in cc
          | inr (entry, f) ↦ elim (Bool-cases entry.visible) [
            | inr hidden ↦ let no = rw (at_raw, f, hidden, get_with_perms) at e in cc
            | inl v ↦ elim (Bool-cases (bf.contains (CapId.flags (id entry.capability)) perms)) [
              | inr denied ↦ let no = rw (at_raw, f, v, denied, get_with_perms) at e in cc
              | inl p ↦ (entry, record { valid = at_raw; found = f; visible = v; permitted = p })
            ]
          ]
        ]
  ]

  -- get_with_perms answers with a capability exactly when the id has a type, the map of the type
  -- has a visible entry under it, the flags of its capability contain those required, and the
  -- object of a weak capability lives; the answer is a strong reference to that object under the
  -- id of the entry.
  pub get_with_perms_iff :
      (raw perms : ℕ) (auto : Bool) (c : Capability)
      → ((get_with_perms t alive raw perms auto s).1 ≡ ok c) ↔ Grants raw perms c
  get_with_perms_iff raw perms auto c = (
    λ e.
        let (entry, p) = ok-Permits raw perms auto c e in
        let (r, l) =
          upgrade_entry-ok raw auto entry.capability c
            (rw (permitted_step raw perms auto entry p) at e) in
        record { entry = entry; permits = p; result = r; living = l },
    λ g.
        ap (λ r. r.1)
          (permitted_step raw perms auto g.entry g.permits
            ∙ ok-upgrade_entry raw auto g.entry.capability g.living)
        ∙ ap ok (sym g.result),
  )

  dead_step :
      (raw : ℕ) (auto : Bool) (c : Capability) (entry : CapabilityEntry)
      → HashMap.get raw (s.maps t) ≡ some entry
      → is_weak c ≡ true
      → alive (object c) ≡ false
      → ((upgrade_entry t alive auto raw c s).1 ≡ err invl_weak)
        × (HashMap.get raw ((upgrade_entry t alive auto raw c s).0.maps t)
            ≡ (if auto then none else some entry))
  unfolding upgrade_entry
  dead_step raw auto (strong o i) entry f w dead = cc
  dead_step raw false (weak o i) entry f w dead = rw dead (refl, f)
  dead_step raw true (weak o i) entry f w dead =
      rw dead (refl, rw (if_pos _ refl) (get-remove raw raw (s.maps t) ∙ if_eq raw none _))

  -- If an id permits the access but the object of its weak capability is gone, get_with_perms
  -- answers InvlWeak, and the entry is removed exactly if weak_auto_destroy is set.
  pub get_with_perms_dead :
      (raw perms : ℕ) (auto : Bool) (entry : CapabilityEntry)
      → Permits raw perms entry
      → is_weak entry.capability ≡ true
      → alive (object entry.capability) ≡ false
      → ((get_with_perms t alive raw perms auto s).1 ≡ err invl_weak)
        × (HashMap.get raw ((get_with_perms t alive raw perms auto s).0.maps t)
            ≡ (if auto then none else some entry))
  get_with_perms_dead raw perms auto entry p w dead =
      rw (permitted_step raw perms auto entry p)
        (dead_step raw auto entry.capability entry p.found w dead)
