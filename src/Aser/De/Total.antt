-- ===== src/Aser/De/Total.antt =====
-- Termination of the visitor of a Value with the reader of userland/aser/src/de.rs.
use aurora_os.Prelude.{
  ℕ, zero, suc, ◌+◌, ◌*◌, ◌==◌, ◌≤◌, arith, Bool, true, false, List, [], ◌∷◌, length, if_cases, ◌-◌,
}
use aurora_os.Cap.CapId
use aurora_os.Aser.DataType.{DataType}
use aurora_os.Aser.Data.{serialize_enum_variant}
use aurora_os.Aser.Value
use aurora_os.Aser.Value.{Value, Values, Entries, OrderedMap}
use aurora_os.Aser.De.Input.{
  Reader, and_then, or_fail, take_u8, take_le, take_data_type, peek_data_type, check_if_finished,
  then_check,
}
use aurora_os.Aser.De.Call.{
  Text, Call, visit_newtype_struct, visit_some, visit_seq, visit_map, visit_enum, visit_capability,
  deserialize_any, skip_filler,
}
use aurora_os.Aser.De.Visitor.{
  Primitive, visit, elements, entries, variant_data, capability_of, take_id, u64_of,
}
use aurora_os.Aser.De.Within.{
  Within, and_then-Within, or_fail-Within, Within-mono, take_le-Within, then_check-Within,
}
use aurora_os.Aser.De.CallWithin.{deserialize_any-Within}

module _ ⦃txt : Text⦄ ⦃om : OrderedMap⦄ ⦃prim : Primitive⦄ (table : List ℕ) where
  capability_of-Within : (n m : ℕ) (s : List ℕ) → length s ≤ m → Within m (capability_of n s)
  unfolding capability_of Within
  capability_of-Within n m s h =
      and_then-Within m m (or_fail (CapId.try_from n) _ s) _
        (or_fail-Within m (CapId.try_from n) _ s h) (λ _ s' h'. h')

  take_id-Within :
      (has_data : Bool) (m : ℕ) (s : List ℕ) → length s ≤ m → Within m (take_id table has_data s)
  unfolding take_id Within
  take_id-Within true m s h =
      and_then-Within m m (deserialize_any table s) _
        (deserialize_any-Within table m s (omega arith))
        (λ call s' h'. or_fail-Within m (u64_of call) _ s' h')
  take_id-Within false m s h = tt

  -- The visitor with the fuel `f` ends on an input that it has enough fuel for.
  abbrev Ends : ℕ → Type 0
  Ends f =
      (call : Call) (m : ℕ) (s : List ℕ)
      → length s ≤ m
      → 2 * m + 2 ≤ f
      → Within m (visit table f call s)

  -- One value of the input, whose type is a byte of it.
  value_ends :
      (f k : ℕ) (s : List ℕ)
      → Ends f
      → length s ≤ suc k
      → 2 * k + 2 ≤ f
      → Within k (and_then (deserialize_any table s) (visit table f))
  value_ends f k s ends h enough =
      and_then-Within k k (deserialize_any table s) (visit table f)
        (deserialize_any-Within table k s h) (λ call s' h'. ends call k s' h' enough)

  some_value_ends :
      (f m : ℕ) (s : List ℕ)
      → Ends f
      → length s ≤ m
      → 2 * m ≤ f
      → Within m (and_then (deserialize_any table s) (visit table f))
  unfolding Within deserialize_any take_data_type take_u8 skip_filler
  some_value_ends f zero [] ends h enough = tt
  some_value_ends f zero (b ∷ s) ends h enough = absurd (omega arith)
  some_value_ends f (suc k) s ends h enough =
      Within-mono k (suc k) _ (omega arith) (value_ends f k s ends h (omega arith))

  mutual
    unfolding visit Within deserialize_any take_data_type take_u8 skip_filler then_check
        check_if_finished peek_data_type

    visit_ends :
        (f : ℕ) (call : Call) (m : ℕ) (s : List ℕ)
        → length s ≤ m
        → 2 * m + 2 ≤ f
        → Within m (visit table f call s)
    visit_ends zero call m s h enough = absurd (omega arith)
    visit_ends (suc f) visit_newtype_struct m s h enough =
        and_then-Within m m (and_then (deserialize_any table s) (visit table f)) _
          (some_value_ends f m s (visit_ends f) h (omega arith)) (λ _ s' h'. h')
    visit_ends (suc f) visit_some m s h enough =
        and_then-Within m m (and_then (deserialize_any table s) (visit table f)) _
          (some_value_ends f m s (visit_ends f) h (omega arith)) (λ _ s' h'. h')
    visit_ends (suc f) (visit_seq finished) m s h enough =
        and_then-Within m m (elements table f finished s) _
          (elements_end f finished m s h (omega arith)) (λ _ s' h'. h')
    visit_ends (suc f) (visit_map finished) m s h enough =
        and_then-Within m m (entries table f finished Value.empty s) _
          (entries_end f finished Value.empty m s h (omega arith)) (λ _ s' h'. h')
    visit_ends (suc f) (visit_enum has_data) m s h enough =
        and_then-Within (m - 4) m (take_le 4 s) _ (take_le-Within 4 (m - 4) s (omega arith))
          (λ n s' h'.
            if_cases (λ (r : Reader Value). Within m (r s')) (n == serialize_enum_variant)
              (λ _.
                and_then-Within m m (take_id table has_data s') capability_of
                  (take_id-Within has_data m s' (omega arith))
                  (λ c s'' h''. capability_of-Within c m s'' h''))
              (λ _.
                and_then-Within m m (variant_data table f has_data s') _
                  (Within-mono (m - 4) m _ (omega arith)
                    (variant_ends f has_data (m - 4) s' h' (omega arith)))
                  (λ _ s'' h''. h'')))
    visit_ends (suc f) (visit_capability cap_id) m s h enough = capability_of-Within cap_id m s h
    visit_ends (suc f) _ m s h enough = h

    variant_ends :
        (f : ℕ) (has_data : Bool) (m : ℕ) (s : List ℕ)
        → length s ≤ m
        → 2 * m + 1 ≤ f
        → Within m (variant_data table f has_data s)
    variant_ends zero has_data m s h enough = absurd (omega arith)
    variant_ends (suc f) false m s h enough = h
    variant_ends (suc f) true m s h enough = some_value_ends f m s (visit_ends f) h (omega arith)

    elements_end :
        (f : ℕ) (finished : Bool) (m : ℕ) (s : List ℕ)
        → length s ≤ m
        → 2 * m + 1 ≤ f
        → Within m (elements table f finished s)
    elements_end zero finished m s h enough = absurd (omega arith)
    elements_end (suc f) true m s h enough = h
    elements_end (suc f) false zero [] h enough = tt
    elements_end (suc f) false zero (b ∷ s) h enough = absurd (omega arith)
    elements_end (suc f) false (suc k) s h enough =
        and_then-Within k (suc k)
          (then_check DataType.sequence_end (and_then (deserialize_any table s) (visit table f))) _
          (then_check-Within DataType.sequence_end k _
            (value_ends f k s (visit_ends f) h (omega arith)))
          (λ next s' h'.
            and_then-Within k (suc k) (elements table f (next.1) s') _
              (elements_end f (next.1) k s' h' (omega arith)) (λ _ s'' h''. omega (arith, h'')))

    entries_end :
        (f : ℕ) (finished : Bool) (es : Entries) (m : ℕ) (s : List ℕ)
        → length s ≤ m
        → 2 * m + 1 ≤ f
        → Within m (entries table f finished es s)
    entries_end zero finished es m s h enough = absurd (omega arith)
    entries_end (suc f) true es m s h enough = h
    entries_end (suc f) false es zero [] h enough = tt
    entries_end (suc f) false es zero (b ∷ s) h enough = absurd (omega arith)
    entries_end (suc f) false es (suc k) s h enough =
        and_then-Within k (suc k) (and_then (deserialize_any table s) (visit table f)) _
          (value_ends f k s (visit_ends f) h (omega arith))
          (λ key s' h'.
            and_then-Within k (suc k)
              (then_check DataType.map_end (and_then (deserialize_any table s') (visit table f))) _
              (then_check-Within DataType.map_end k _
                (value_ends f k s' (visit_ends f) (omega arith) (omega arith)))
              (λ next s'' h''.
                Within-mono k (suc k) _ (omega arith)
                  (entries_end f (next.1) _ k s'' h'' (omega arith))))

  pub visit-Within :
      (f : ℕ) (call : Call) (m : ℕ) (s : List ℕ)
      → length s ≤ m
      → 2 * m + 2 ≤ f
      → Within m (visit table f call s)
  visit-Within f call m s h enough = visit_ends f call m s h enough
