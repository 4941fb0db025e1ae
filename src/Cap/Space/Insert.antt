-- ===== src/Cap/Space/Insert.antt =====
-- Capability ids are unique: the invariant of a capability space, and what an insertion does.
use mathlib.Core.Logic.{if_pos, if_neg}
use aurora_os.Prelude.{
  ℕ, ◌+◌, ◌%◌, ◌^◌, ◌≤◌, ◌<◌, ◌≡◌, ◌≢◌, refl, sym, ◌∙◌, subst, arith, Bool, true, false, none, some,
  Option-cases, inl, inr, if_cases, if_ne, ==_refl,
}
use aurora_os.KResult.{KResult, ok}
use aurora_os.Container.HashMap
use aurora_os.Container.HashMap.{
  AllEntries, AllEntries-get, AllEntries-put, AllEntries-remove, AllEntries-map, get-put,
}
use aurora_os.Cap.Flags.{Bitflags, IsCapFlags}
use aurora_os.Cap.CapId
use aurora_os.Cap.CapId.{CapType}
use aurora_os.Cap.CapId.Layout.{flags-IsCapFlags, flags-new, new-base_injective}
use aurora_os.Cap.Space.{
  Capability, CapabilityEntry, CapabilitySpace, CapMap, CapType-discrete, id, is_weak, set_id,
  set_map, empty, strong, weak, insert_inner, remove, make_visible, get_with_perms, upgrade_entry,
}

-- Two properties of the maps: of the one that is written, and of the others.
pub set_map_cases {ℓ} :
    (Q : CapType → CapMap → Type ℓ) (t : CapType) (m : CapMap) (s : CapabilitySpace)
    → Q t m
    → ((t' : CapType) → Q t' (s.maps t'))
    → (t' : CapType) → Q t' ((set_map t m s).maps t')
set_map_cases Q t m s new old t' = elim (CapType-discrete t' t) [
  | yes p ↦ rw (if_pos _ p) (subst (λ u. Q u m) (sym p) new)
  | no p ↦ rw (if_neg _ p) (old t')
]

id-set_id : (c : Capability) (i : ℕ) → id (set_id c i) ≡ i
id-set_id (strong o j) i = refl
id-set_id (weak o j) i = refl

is_weak-set_id : (c : Capability) (i : ℕ) → is_weak (set_id c i) ≡ is_weak c
is_weak-set_id (strong o j) i = refl
is_weak-set_id (weak o j) i = refl

module _ ⦃bf : Bitflags⦄ where
  -- An entry stands under the id of its capability, which was built from a number already taken.
  pub record EntryOk (t : CapType) (next : ℕ) (k : ℕ) (e : CapabilityEntry) : Type 0 where
    pub base : ℕ
    pub taken : base < next
    pub key : k ≡ CapId.new t (CapId.flags k) (is_weak e.capability) base
    pub same : id e.capability ≡ k

  pub record IsWf (s : CapabilitySpace) : Type 0 where
    pub entries : (t : CapType) → AllEntries (EntryOk t s.next_id) (s.maps t)

  pub empty-IsWf : IsWf empty
  unfolding empty
  empty-IsWf = record { entries = λ t. tt }

  EntryOk-later :
      (t : CapType) (n n' : ℕ)
      → n ≤ n'
      → (k : ℕ) (e : CapabilityEntry) → EntryOk t n k e
      → EntryOk t n' k e
  EntryOk-later t n n' le k e h = record {
    base = h.base;
    taken = omega (arith, h.taken);
    key = h.key;
    same = h.same;
  }

  new_entry-EntryOk :
      (t : CapType) (n next : ℕ) (c : Capability) (v : Bool)
      → n < next
      → let k = CapId.new t (CapId.flags (id c)) (is_weak c) n in
        EntryOk t next k (record { visible = v; capability = set_id c k })
  new_entry-EntryOk t n next c v lt =
      let fl = CapId.flags (id c) in
      let k = CapId.new t fl (is_weak c) n in
      record {
        base = n;
        taken = lt;
        key = rw (is_weak-set_id c k, flags-new t fl (is_weak c) n (flags-IsCapFlags (id c))) refl;
        same = id-set_id c k;
      }

  -- Inserting a capability keeps the space well formed.
  pub insert_inner-IsWf :
      (t : CapType) (room : Bool) (c : Capability) (v : Bool) (s : CapabilitySpace)
      → s.next_id < 2 ^ 54
      → IsWf s
      → IsWf (insert_inner t room c v s).0
  unfolding insert_inner HashMap.insert
  insert_inner-IsWf t false c v s lt h = record {
    entries = λ u.
        AllEntries-map (EntryOk u s.next_id) (EntryOk u ((s.next_id + 1) % 2 ^ 64)) (s.maps u)
          (EntryOk-later u _ _ (omega arith)) (h.entries u);
  }
  insert_inner-IsWf t true c v s lt h = record {
    entries =
        let n' = (s.next_id + 1) % 2 ^ 64 in
        let old : (u : CapType) → AllEntries (EntryOk u n') (s.maps u) = λ u.
          AllEntries-map (EntryOk u s.next_id) (EntryOk u n') (s.maps u)
            (EntryOk-later u _ _ (omega arith)) (h.entries u) in
        let k = CapId.new t (CapId.flags (id c)) (is_weak c) s.next_id in
        let entry : CapabilityEntry = record { visible = v; capability = set_id c k } in
        let new = new_entry-EntryOk t s.next_id n' c v (omega arith) in
        set_map_cases (λ u m. AllEntries (EntryOk u n') m) t _ s
          (AllEntries-put (EntryOk t n') k entry (s.maps t) new (old t)) old;
  }

  -- The maps of the space after a removal.
  removed-IsWf :
      (t : CapType) (k : ℕ) (s : CapabilitySpace)
      → IsWf s
      → IsWf (set_map t (HashMap.remove k (s.maps t)) s)
  removed-IsWf t k s h = record {
    entries =
        set_map_cases (λ u m. AllEntries (EntryOk u s.next_id) m) t _ s
          (AllEntries-remove (EntryOk t s.next_id) k (s.maps t) (h.entries t)) h.entries;
  }

  -- So do the other methods.
  pub remove-IsWf : (t : CapType) (k : ℕ) (s : CapabilitySpace) → IsWf s → IsWf (remove t k s).0
  unfolding remove
  remove-IsWf t k s h = elim (Option-cases (HashMap.get k (s.maps t))) [
    | inl e ↦ rw (e, remove) h
    | inr (entry, e) ↦ rw (e, remove) (removed-IsWf t k s h)
  ]

  pub make_visible-IsWf :
      (t : CapType) (k : ℕ) (s : CapabilitySpace) → IsWf s → IsWf (make_visible t k s).0
  unfolding make_visible
  make_visible-IsWf t k s h = elim (Option-cases (HashMap.get k (s.maps t))) [
    | inl e ↦ rw (e, make_visible) h
    | inr (entry, e) ↦
        let here = AllEntries-get (EntryOk t s.next_id) k entry (s.maps t) (h.entries t) e in
        let shown : EntryOk t s.next_id k (record entry { visible = true }) = record {
          base = here.base;
          taken = here.taken;
          key = here.key;
          same = here.same;
        } in
        rw (e, make_visible)
          (record {
            entries =
                set_map_cases (λ u m. AllEntries (EntryOk u s.next_id) m) t _ s
                  (AllEntries-put (EntryOk t s.next_id) k _ (s.maps t) shown (h.entries t))
                  h.entries;
          })
  ]

  upgrade_entry-IsWf :
      (t : CapType) (alive : ℕ → Bool) (auto : Bool) (k : ℕ) (c : Capability) (s : CapabilitySpace)
      → IsWf s
      → IsWf (upgrade_entry t alive auto k c s).0
  unfolding upgrade_entry
  upgrade_entry-IsWf t alive auto k (strong o i) s h = h
  upgrade_entry-IsWf t alive auto k (weak o i) s h =
      if_cases (λ (r : CapabilitySpace × KResult Capability). IsWf r.0) (alive o) (λ _. h)
        (λ _. if_cases IsWf auto (λ _. removed-IsWf t k s h) (λ _. h))

  pub get_with_perms-IsWf :
      (t : CapType) (alive : ℕ → Bool) (raw perms : ℕ) (auto : Bool) (s : CapabilitySpace)
      → IsWf s
      → IsWf (get_with_perms t alive raw perms auto s).0
  unfolding get_with_perms
  get_with_perms-IsWf t alive raw perms auto s h = elim (Option-cases (CapId.try_from raw)) [
    | inl e ↦ rw (e, get_with_perms) h
    | inr (k, e) ↦ elim (Option-cases (HashMap.get k (s.maps t))) [
      | inl e' ↦ rw (e, e', get_with_perms) h
      | inr (entry, e') ↦
          rw (e, e', get_with_perms)
            (if_cases (λ (r : CapabilitySpace × KResult Capability). IsWf r.0) entry.visible
              (λ _.
                if_cases (λ (r : CapabilitySpace × KResult Capability). IsWf r.0)
                  (bf.contains (CapId.flags (id entry.capability)) perms)
                  (λ _. upgrade_entry-IsWf t alive auto k entry.capability s h) (λ _. h))
              (λ _. h))
    ]
  ]

  -- No entry of a well formed space stands under the id that the next insertion takes.
  pub next_id_fresh :
      (t : CapType) (fl : ℕ) (w : Bool) (s : CapabilitySpace)
      → IsCapFlags fl
      → s.next_id < 2 ^ 54
      → IsWf s
      → HashMap.get (CapId.new t fl w s.next_id) (s.maps t) ≡ none
  next_id_fresh t fl w s hf lt h =
      let k = CapId.new t fl w s.next_id in
      elim (Option-cases (HashMap.get k (s.maps t))) [
        | inl e ↦ e
        | inr (entry, e) ↦
            let here = AllEntries-get (EntryOk t s.next_id) k entry (s.maps t) (h.entries t) e in
            let same =
              new-base_injective t t fl (CapId.flags k) w (is_weak entry.capability) s.next_id
                here.base hf (flags-IsCapFlags k) lt (omega (arith, here.taken)) here.key in
            absurd (omega (arith, here.taken, same))
      ]

  -- When an insertion into a well formed space with fewer than 2 ^ 54 numbers taken answers with
  -- an id, nothing stood under the id before, the capability stands under it afterwards with that
  -- id and the visibility asked for, and all other ids and the maps of the other types are as they
  -- were.
  pub insert_inner_adds :
      (t : CapType) (room : Bool) (c : Capability) (v : Bool) (s : CapabilitySpace) (new_id : ℕ)
      → s.next_id < 2 ^ 54
      → IsWf s
      → (insert_inner t room c v s).1 ≡ ok new_id
      → let s' = (insert_inner t room c v s).0 in
        (HashMap.get new_id (s.maps t) ≡ none)
        × (HashMap.get new_id (s'.maps t)
            ≡ some (record { visible = v; capability = set_id c new_id }))
        × ((k : ℕ) → k ≢ new_id → HashMap.get k (s'.maps t) ≡ HashMap.get k (s.maps t))
        × ((u : CapType) → u ≢ t → s'.maps u ≡ s.maps u)
  unfolding insert_inner HashMap.insert
  insert_inner_adds t false c v s new_id lt h e = cc
  insert_inner_adds t true c v s new_id lt h e =
      let fl = CapId.flags (id c) in
      let made : CapId.new t fl (is_weak c) s.next_id ≡ new_id = cc in
      let fresh = next_id_fresh t fl (is_weak c) s (flags-IsCapFlags (id c)) lt h in
      rw (← made) (
        fresh,
        rw (if_pos _ refl, get-put, ==_refl),
        λ k ne. rw (if_pos _ refl) (get-put _ k _ (s.maps t) ∙ if_ne _ k _ _ ne),
        λ u ne. rw (if_neg _ ne),
      )
