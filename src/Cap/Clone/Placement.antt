-- ===== src/Cap/Clone/Placement.antt =====
-- Where a clone stands afterwards, and what becomes of the old capability.
use mathlib.Core.Logic.{if_pos, if_neg}
use aurora_os.Prelude.{
  ℕ, ◌^◌, ◌<◌, ◌≡◌, ◌≢◌, refl, sym, ap, ◌∙◌, Bool, true, Option, none, some, Option-cases, inl, inr,
  Bool-cases, if◌then◌else◌, ◌==◌, ==_iff, ==_refl, if_ne, if_cases,
}
use aurora_os.KResult.{ok}
use aurora_os.Container.HashMap
use aurora_os.Container.HashMap.{get-remove}
use aurora_os.Cap.Flags.{Bitflags}
use aurora_os.Cap.CapId.{CapType}
use aurora_os.Cap.Space
use aurora_os.Cap.Space.{Capability, CapabilityEntry, CapabilitySpace, id, object, set_id, set_map}
use aurora_os.Cap.Space.Insert.{IsWf, insert_inner_adds}
use aurora_os.Cap.Clone.{CloneArgs, Spaces, set_space, remove_src, place, clone}
use aurora_os.Cap.Clone.Perms.{convert-Converted, place-insert, clone-found, clone_found-place}

module _ (t : CapType) where
  -- What stands under the id `k` in the map of the space `q`.
  abbrev pub at : ℕ → ℕ → Spaces → Option CapabilityEntry
  at q k spaces = HashMap.get k (CapabilitySpace.maps (spaces q) t)

  -- Also where nothing stands under the id, it is gone after a removal.
  pub get-remove_lem :
      (i k : ℕ) (s : CapabilitySpace)
      → HashMap.get k (CapabilitySpace.maps (Space.remove t i s).0 t)
        ≡ (if i == k then none else HashMap.get k (s.maps t))
  unfolding Space.remove
  get-remove_lem i k s = elim (Option-cases (HashMap.get i (s.maps t))) [
    | inr (entry, e) ↦ rw (e, Space.remove) (rw (if_pos _ refl) (get-remove i k (s.maps t)))
    | inl e ↦
        rw (e, Space.remove)
          (elim (Bool-cases (i == k)) [
            | inl same ↦
                rw same (ap (λ j. HashMap.get j (s.maps t)) (sym ((==_iff i k).0 same)) ∙ e)
            | inr other ↦ rw other
          ])
  ]

  -- A removal takes away no entry of another type or under another id.
  remove_keeps :
      (i : ℕ) (s : CapabilitySpace) (u : CapType) (k : ℕ)
      → ¬ ((u ≡ t) × (k ≡ i))
      → HashMap.get k (CapabilitySpace.maps (Space.remove t i s).0 u) ≡ HashMap.get k (s.maps u)
  unfolding Space.remove
  remove_keeps i s u k other = elim (Space.CapType-discrete u t) [
    | yes p ↦ rw p (get-remove_lem i k s ∙ if_ne i k _ _ (λ e. other (p, e)))
    | no p ↦ elim (Option-cases (HashMap.get i (s.maps t))) [
      | inl e ↦ rw (e, Space.remove)
      | inr (entry, e) ↦ rw (e, Space.remove) (rw (if_neg _ p) refl)
    ]
  ]

  at-remove_src :
      (a : CloneArgs) (q k : ℕ) (spaces : Spaces)
      → at q k (remove_src t a spaces) ≡ (
          if q == a.src then (if a.cap_id == k then none else at a.src k spaces) else at q k spaces)
  at-remove_src a q k spaces = elim (Bool-cases (q == a.src)) [
    | inl e ↦ rw e (get-remove_lem a.cap_id k (spaces a.src))
    | inr e ↦ rw e
  ]

  get-ok :
      (k : ℕ) (s : CapabilitySpace) (c : Capability)
      → Space.get t k s ≡ ok c
      → (entry : CapabilityEntry) × (HashMap.get k (s.maps t) ≡ some entry) × (entry.capability ≡ c)
  unfolding Space.get
  get-ok k s c e = elim (Option-cases (HashMap.get k (s.maps t))) [
    | inl f ↦ let no = rw (f, Space.get) at e in cc
    | inr (entry, f) ↦ let same = rw (f, Space.get) at e in (entry, f, cc)
  ]

module _ ⦃bf : Bitflags⦄ where
  place-eq :
      (t : CapType) (room : Bool) (a : CloneArgs) (c : Capability) (spaces : Spaces) (new_id : ℕ)
      → (Space.insert t room c (spaces a.dst)).1 ≡ ok new_id
      → let placed = set_space a.dst (Space.insert t room c (spaces a.dst)).0 spaces in
        (place t room a c spaces).0 ≡ (if a.destroy_old_cap then remove_src t a placed else placed)
  unfolding place
  place-eq t room a c spaces new_id e = rw (e, place) refl

  -- A successful placement, seen through the lookups of the map.
  pub record Places (t : CapType) (a : CloneArgs) (c : Capability) (spaces after : Spaces)
      (new_id : ℕ) : Type 0 where
    pub here :
        at t a.dst new_id after ≡ some (record { visible = true; capability = set_id c new_id })
    pub old :
        at t a.src a.cap_id after ≡ (if a.destroy_old_cap then none else at t a.src a.cap_id spaces)
    pub fresh : at t a.dst new_id spaces ≡ none
    -- All other entries, of all types, in all spaces.
    pub others :
        (u : CapType) (q k : ℕ)
        → ¬ ((u ≡ t) × (q ≡ a.dst) × (k ≡ new_id))
        → ¬ ((u ≡ t) × (q ≡ a.src) × (k ≡ a.cap_id))
        → at u q k after ≡ at u q k spaces
    pub rest : (q : ℕ) → q ≢ a.dst → q ≢ a.src → after q ≡ spaces q

  -- The space of the destination right after the insertion.
  record Inserted (t : CapType) (a : CloneArgs) (c : Capability) (spaces placed : Spaces)
      (new_id : ℕ) : Type 0 where
    here : at t a.dst new_id placed ≡ some (record { visible = true; capability = set_id c new_id })
    old : at t a.src a.cap_id placed ≡ at t a.src a.cap_id spaces
    apart : a.dst ≡ a.src → a.cap_id ≢ new_id
    fresh : at t a.dst new_id spaces ≡ none
    others :
        (u : CapType) (q k : ℕ)
        → ¬ ((u ≡ t) × (q ≡ a.dst) × (k ≡ new_id))
        → at u q k placed ≡ at u q k spaces
    rest : (q : ℕ) → q ≢ a.dst → placed q ≡ spaces q

  insert-Inserted :
      (t : CapType) (room : Bool) (a : CloneArgs) (c : Capability) (spaces : Spaces)
      (old : CapabilityEntry) (new_id : ℕ)
      → CapabilitySpace.next_id (spaces a.dst) < 2 ^ 54
      → IsWf (spaces a.dst)
      → at t a.src a.cap_id spaces ≡ some old
      → (Space.insert t room c (spaces a.dst)).1 ≡ ok new_id
      → Inserted t a c spaces
          (set_space a.dst (Space.insert t room c (spaces a.dst)).0 spaces)
          new_id
  unfolding Space.insert
  insert-Inserted t room a c spaces old new_id lt wf held ins =
      let (fresh, here, others, types) =
        insert_inner_adds t room c true (spaces a.dst) new_id lt wf ins in
      let apart : a.dst ≡ a.src → a.cap_id ≢ new_id =
        λ same eq. let clash : at t a.dst new_id spaces ≡ some old = rw (same, ← eq) held in cc in
      record {
        here = rw (==_refl a.dst) here;
        old = elim (Bool-cases (a.src == a.dst)) [
          | inr other ↦ rw other
          | inl same ↦
              let eq = (==_iff a.src a.dst).0 same in
              rw same (others a.cap_id (apart (sym eq)) ∙ ap (λ q. at t q a.cap_id spaces) (sym eq))
        ];
        apart = apart;
        fresh = fresh;
        others = λ u q k other. elim (Bool-cases (q == a.dst)) [
          | inr away ↦ rw away
          | inl same ↦
              let eq = (==_iff q a.dst).0 same in
              rw same (
                elim (Space.CapType-discrete u t) [
                  | yes p ↦ rw p (others k (λ e. other (p, eq, e)))
                  | no p ↦ ap (HashMap.get k) (types u p)
                ]
                ∙ ap (λ p. at u p k spaces) (sym eq))
        ];
        rest = λ q ne. if_ne q a.dst _ _ (λ z. ne (sym z));
      }

  remove-Places :
      (t : CapType) (a : CloneArgs) (c : Capability) (spaces placed : Spaces) (new_id : ℕ)
      → Inserted t a c spaces placed new_id
      → a.destroy_old_cap ≡ true
      → Places t a c spaces (remove_src t a placed) new_id
  remove-Places t a c spaces placed new_id w d = record {
    here = at-remove_src t a a.dst new_id placed ∙ elim (Bool-cases (a.dst == a.src)) [
      | inr other ↦ rw other w.here
      | inl same ↦
          let eq = (==_iff a.dst a.src).0 same in
          rw same (
            if_ne a.cap_id new_id _ _ (λ z. w.apart eq (sym z))
            ∙ ap (λ q. at t q new_id placed) (sym eq)
            ∙ w.here)
    ];
    old = at-remove_src t a a.src a.cap_id placed ∙ rw (==_refl a.src, ==_refl a.cap_id, d);
    fresh = w.fresh;
    others = λ u q k new old. elim (Bool-cases (q == a.src)) [
      | inr away ↦ rw away (w.others u q k new)
      | inl same ↦
          let eq = (==_iff q a.src).0 same in
          rw same (
            remove_keeps t a.cap_id (placed a.src) u k (λ (p, e). old (p, eq, e))
            ∙ ap (λ p. at u p k placed) (sym eq)
            ∙ w.others u q k new)
    ];
    rest = λ q nd ns. if_ne q a.src _ _ (λ z. ns (sym z)) ∙ w.rest q nd;
  }

  place-Places :
      (t : CapType) (room : Bool) (a : CloneArgs) (c : Capability) (spaces : Spaces)
      (old : CapabilityEntry) (new_id : ℕ)
      → CapabilitySpace.next_id (spaces a.dst) < 2 ^ 54
      → IsWf (spaces a.dst)
      → at t a.src a.cap_id spaces ≡ some old
      → (place t room a c spaces).1 ≡ ok new_id
      → Places t a c spaces (place t room a c spaces).0 new_id
  place-Places t room a c spaces old new_id lt wf held e =
      let ins = place-insert t room a c spaces new_id e in
      let w = insert-Inserted t room a c spaces old new_id lt wf held ins in
      rw (place-eq t room a c spaces new_id ins) (
        if_cases (λ (after : Spaces). Places t a c spaces after new_id) a.destroy_old_cap
          (remove-Places t a c spaces _ new_id w)
          (λ d. record {
            here = w.here;
            old = w.old ∙ rw d;
            fresh = w.fresh;
            others = λ u q k new _. w.others u q k new;
            rest = λ q nd _. w.rest q nd;
          }))

  -- When a clone succeeds, into a well formed space that has handed out fewer than 2 ^ 54 numbers,
  -- the destination holds, under the answered id and visible, a capability for the same object as
  -- the source; nothing stood under that id before; with destroy_old_cap the entry of the source
  -- is gone, also if source and destination are the same space, and without it stays; and every
  -- other entry of every type in every space is as before.
  pub clone-Places :
      (t : CapType) (alive : ℕ → Bool) (room : Bool) (a : CloneArgs) (spaces : Spaces) (new_id : ℕ)
      → CapabilitySpace.next_id (spaces a.dst) < 2 ^ 54
      → IsWf (spaces a.dst)
      → (clone t alive room a spaces).1 ≡ ok new_id
      → (c : Capability) × (c' : Capability) × (Space.get t a.cap_id (spaces a.src) ≡ ok c)
        × (object c' ≡ object c)
        × Places t a c' spaces (clone t alive room a spaces).0 new_id
  unfolding clone
  clone-Places t alive room a spaces new_id lt wf e =
      let (c, f, e₁) = clone-found t alive room a spaces new_id e in
      let (c', g, e₂) = clone_found-place t alive room a c spaces new_id e₁ in
      let v = convert-Converted alive _ _ c c' g in
      let (entry, held, _) = get-ok t a.cap_id (spaces a.src) c f in
      let placed = sym (ap (λ r. r.1) e₂) ∙ e₁ in
      (
        c,
        c',
        f,
        v.object_eq,
        rw (f, clone) (rw e₂ (place-Places t room a c' spaces entry new_id lt wf held placed)),
      )
