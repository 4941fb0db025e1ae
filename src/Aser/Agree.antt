-- ===== src/Aser/Agree.antt =====
-- ValueSerializer and CapabilityCounter of userland/aser, and the format.
use aurora_os.Prelude.{
  ℕ, ◌+◌, ◌^◌, ◌<◌, ◌≡◌, refl, ap, ◌∙◌, arith, ◌++◌, length, none, some, length-append, inl, inr,
}
use aurora_os.Cap.CapId
use aurora_os.Aser.Result.{Result, ok, err, invalid_capability_id}
use aurora_os.Aser.Data
use aurora_os.Aser.Data.{Data, Items, Pairs, Fields, serialize_enum_variant}
use aurora_os.Aser.Value
use aurora_os.Aser.Value.{
  Value, Values, Entries, OrderedMap, from_serialize, build_sequence, build_map, build_struct,
}
use aurora_os.Aser.Counter.{count, count_elements, count_pairs, count_fields, count_capabilities}
use aurora_os.Aser.Ser.Emit.{caps, caps_items, caps_pairs, caps_fields, cap_of}
use aurora_os.Aser.De.Call.{Text}
use aurora_os.Aser.Meaning.{
  IsData, AreItems, ArePairs, AreFields, value_of, values_of, entries_of, members_of,
}

module _ ⦃txt : Text⦄ where
  module _ ⦃om : OrderedMap⦄ where
    capability_step :
        (n c : ℕ)
        → CapId.try_from n ≡ some c
        → elim (CapId.try_from n) as (λ _. Result Value) [
          | none ↦ err invalid_capability_id
          | some c ↦ ok (Value.capability c)
        ]
          ≡ ok (Value.capability c)
    capability_step n c t = rw t refl

    mutual
      unfolding from_serialize value_of IsData

      data_value : (d : Data) → IsData d → from_serialize d ≡ ok (value_of d)
      data_value (Data.bool v) h = refl
      data_value (Data.integer v) h = refl
      data_value (Data.float v) h = refl
      data_value (Data.char v) h = refl
      data_value (Data.str v) h = refl
      data_value (Data.bytes v) h = refl
      data_value Data.unit h = refl
      data_value Data.none_value h = refl
      data_value (Data.some_value d) h = rw (data_value d h) refl
      data_value Data.unit_struct h = refl
      data_value (Data.unit_variant n) h = refl
      data_value (Data.newtype_struct d) h = rw (data_value d h) refl
      data_value (Data.newtype_variant n d) (inl (e, (g, _, t))) =
          rw (e, g) (capability_step (cap_of d) (cap_of d) t)
      data_value (Data.newtype_variant n d) (inr (e, h)) = rw (e.1) (rw (data_value d h) refl)
      data_value (Data.seq xs) h = rw (items_value xs h) refl
      data_value (Data.tuple xs) h = rw (items_value xs h) refl
      data_value (Data.tuple_struct xs) h = rw (items_value xs h) refl
      data_value (Data.tuple_variant n xs) h = rw (items_value xs (h.1)) refl
      data_value (Data.map ps) h = rw (pairs_value ps Value.empty h) refl
      data_value (Data.structure fs) h = rw (fields_value fs Value.empty h) refl
      data_value (Data.struct_variant n fs) h = rw (fields_value fs Value.empty (h.1)) refl
      data_value (Data.display v) h = refl

      items_value : (xs : Items) → AreItems xs → build_sequence xs ≡ ok (values_of xs)
      items_value Data.no_items h = refl
      items_value (Data.item d xs) h = rw (data_value d (h.0), items_value xs (h.1)) refl

      pairs_value :
          (ps : Pairs) (es : Entries) → ArePairs ps → build_map ps es ≡ ok (entries_of ps es)
      pairs_value Data.no_pairs es h = refl
      pairs_value (Data.pair k d ps) es (hk, hd, hps) =
          rw (data_value k hk, data_value d hd)
            (pairs_value ps (om.insert (value_of k) (value_of d) es) hps)

      fields_value :
          (fs : Fields) (es : Entries) → AreFields fs → build_struct fs es ≡ ok (members_of fs es)
      fields_value Data.no_fields es h = refl
      fields_value (Data.field k d fs) es (hk, hd, hfs) =
          rw (data_value d hd) (fields_value fs (om.insert (Value.string k) (value_of d) es) hfs)

    pub from_serialize-value_of : (d : Data) → IsData d → from_serialize d ≡ ok (value_of d)
    from_serialize-value_of d h = data_value d h

  then_count : (a b n : ℕ) (r : Result ℕ) → r ≡ ok ((n + a) + b) → r ≡ ok (n + (a + b))
  then_count a b n r h = h ∙ ap (λ (m : ℕ). ok m) (omega arith)

  mutual
    unfolding count caps IsData

    data_count :
        (d : Data) (n : ℕ)
        → IsData d
        → n + length (caps d) < 2 ^ 64
        → count d n ≡ ok (n + length (caps d))
    data_count (Data.some_value d) n h small = data_count d n h small
    data_count (Data.newtype_struct d) n h small = data_count d n h small
    data_count (Data.newtype_variant i d) n (inl (e, (g, _, _))) small =
        let one : length (caps (Data.newtype_variant i d)) ≡ 1 = rw e refl in
        rw (e, g) (ap (λ (m : ℕ). ok m) (omega (arith, small, one)))
    data_count (Data.newtype_variant i d) n (inr (e, h)) small =
        let all : length (caps (Data.newtype_variant i d)) ≡ length (caps d) = rw (e.1) refl in
        rw (e.1) (data_count d n h (omega (arith, small, all)))
    data_count (Data.seq xs) n h small = items_count xs n h small
    data_count (Data.tuple xs) n h small = items_count xs n h small
    data_count (Data.tuple_struct xs) n h small = items_count xs n h small
    data_count (Data.tuple_variant i xs) n h small = items_count xs n (h.1) small
    data_count (Data.map ps) n h small = pairs_count ps n h small
    data_count (Data.structure fs) n h small = fields_count fs n h small
    data_count (Data.struct_variant i fs) n h small = fields_count fs n (h.1) small
    data_count (Data.bool v) n h small = ap (λ (m : ℕ). ok m) (omega arith)
    data_count _ n h small = ap (λ (m : ℕ). ok m) (omega arith)

    items_count :
        (xs : Items) (n : ℕ)
        → AreItems xs
        → n + length (caps_items xs) < 2 ^ 64
        → count_elements xs n ≡ ok (n + length (caps_items xs))
    items_count Data.no_items n h small = ap (λ (m : ℕ). ok m) (omega arith)
    items_count (Data.item d xs) n h small =
        let len : length (caps d ++ caps_items xs) ≡ length (caps d) + length (caps_items xs) =
          length-append (caps d) (caps_items xs) in
        rw (len, data_count d n (h.0) (omega (arith, small, len)))
          (then_count _ _ n _
            (items_count xs (n + length (caps d)) (h.1) (omega (arith, small, len))))

    pairs_count :
        (ps : Pairs) (n : ℕ)
        → ArePairs ps
        → n + length (caps_pairs ps) < 2 ^ 64
        → count_pairs ps n ≡ ok (n + length (caps_pairs ps))
    pairs_count Data.no_pairs n h small = ap (λ (m : ℕ). ok m) (omega arith)
    pairs_count (Data.pair k d ps) n (hk, hd, hps) small =
        let len : length (caps k ++ (caps d ++ caps_pairs ps))
            ≡ length (caps k) + (length (caps d) + length (caps_pairs ps)) =
          length-append (caps k) (caps d ++ caps_pairs ps)
          ∙ ap (λ (m : ℕ). length (caps k) + m) (length-append (caps d) (caps_pairs ps)) in
        rw
          (
            len,
            data_count k n hk (omega (arith, small, len)),
            data_count d (n + length (caps k)) hd (omega (arith, small, len)),
          )
          (then_count _ _ n _ (
            then_count _ _ (n + length (caps k)) _ (
              pairs_count ps ((n + length (caps k)) + length (caps d)) hps
                (omega (arith, small, len)))))

    fields_count :
        (fs : Fields) (n : ℕ)
        → AreFields fs
        → n + length (caps_fields fs) < 2 ^ 64
        → count_fields fs n ≡ ok (n + length (caps_fields fs))
    fields_count Data.no_fields n h small = ap (λ (m : ℕ). ok m) (omega arith)
    fields_count (Data.field k d fs) n (hk, hd, hfs) small =
        let len : length (caps d ++ caps_fields fs) ≡ length (caps d) + length (caps_fields fs) =
          length-append (caps d) (caps_fields fs) in
        rw (len, data_count d n hd (omega (arith, small, len)))
          (then_count _ _ n _
            (fields_count fs (n + length (caps d)) hfs (omega (arith, small, len))))

  pub count_capabilities-caps :
      (d : Data) → IsData d → length (caps d) < 2 ^ 64 → count_capabilities d ≡ ok (length (caps d))
  unfolding count_capabilities
  count_capabilities-caps d h small =
      data_count d 0 h (omega (arith, small)) ∙ ap (λ (m : ℕ). ok m) (omega arith)
