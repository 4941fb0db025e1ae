-- ===== src/Aser/Ser/Overflows.antt =====
-- The serializer of userland/aser/src/ser.rs when its table has not enough room.
use aurora_os.Prelude.{
  ℕ, zero, suc, ◌+◌, ◌-◌, ◌%◌, ◌^◌, ◌<◌, ◌≡◌, refl, sym, ◌∙◌, arith, List, [], ◌∷◌, ◌++◌, length,
  length-append, inl, inr, le-or-gt,
}
use aurora_os.Aser.Result.{Result, ok, err, ◌>>=◌, too_many_capabilities}
use aurora_os.Aser.Bytes.{le_bytes}
use aurora_os.Aser.DataType.{DataType, byte}
use aurora_os.Aser.Data
use aurora_os.Aser.Data.{Data, Integer, Float, Items, Pairs, Fields, serialize_enum_variant}
use aurora_os.Aser.Ser.{
  Serializer, to_bytes, extend, push_type, serialize, serialize_elements, serialize_pairs,
  serialize_fields, serialize_capability, collect_str, serialize_seq, serialize_map, start_variant,
}
use aurora_os.Aser.Ser.Emit.{emit, caps, caps_items, caps_pairs, caps_fields, text, cap_of}
use aurora_os.Aser.Ser.Texts.{collect_str-text}
use aurora_os.Aser.Ser.Buffer.{table, new-table, extend-extend, push_capability-full}
use aurora_os.Aser.Ser.Parts.{Appends, header}
use aurora_os.Aser.Ser.Appends.{serialize-Appends, extend-nil}
use aurora_os.Aser.De.Call.{Text}
use aurora_os.Aser.Meaning.{IsData, AreItems, ArePairs, AreFields}

-- A part of the serializer that fails when its capabilities `ks` do not fit.
Overflows : (Serializer → Result Serializer) → List ℕ → Type 0
Overflows r ks =
    (free : ℕ) (cs tail : List ℕ)
    → length cs + free < 2 ^ 59
    → free < length ks
    → r (extend tail (table free cs)) ≡ err too_many_capabilities

leaf : (r : Serializer → Result Serializer) → Overflows r []
unfolding Overflows
leaf r free cs tail small lt = absurd (omega (arith, lt))

behind :
    (g : Serializer → Serializer) (r r' : Serializer → Result Serializer) (b : List ℕ) (ks : List ℕ)
    → ((s : Serializer) → g s ≡ extend b s)
    → ((s : Serializer) → r' s ≡ r (g s))
    → Overflows r ks
    → Overflows r' ks
unfolding Overflows
behind g r r' b ks h h' a free cs tail small lt =
    rw
      (
        h' (extend tail (table free cs)),
        h (extend tail (table free cs)),
        extend-extend tail b (table free cs),
      )
      (a free cs (tail ++ b) small lt)

same :
    (r r' : Serializer → Result Serializer) (ks : List ℕ)
    → ((s : Serializer) → r' s ≡ r s)
    → Overflows r ks
    → Overflows r' ks
unfolding Overflows
same r r' ks h a free cs tail small lt = h (extend tail (table free cs)) ∙ a free cs tail small lt

sequel :
    (r r' : Serializer → Result Serializer) (e : ℕ → List ℕ) (ks ks' : List ℕ)
    → Appends r e ks
    → Overflows r ks
    → Overflows r' ks'
    → Overflows (λ s. r s >>= r') (ks ++ ks')
unfolding Appends Overflows
sequel r r' e ks ks' a o o' free cs tail small lt = elim (le-or-gt (length ks) free) [
  | inl le ↦
      let room : free ≡ length ks + (free - length ks) = omega (arith, le) in
      let len = length-append ks ks' in
      let len' = length-append cs ks in
      rw (room, a (free - length ks) cs tail (omega (arith, small, le)))
        (o' (free - length ks) (cs ++ ks) (tail ++ e (length cs)) (omega (arith, small, le, len'))
          (omega (arith, lt, len)))
  | inr gt ↦ rw (o free cs tail small gt) refl
]

capability-Overflows : (c : ℕ) → Overflows (serialize_capability (ok c)) (c ∷ [])
unfolding Overflows serialize_capability extend table
capability-Overflows c zero cs tail small lt =
    let place : List ℕ =
      byte DataType.capability ∷ le_bytes 2 ((suc (length cs) % 65536 + 65536 - 1) % 65536) in
    rw
      (
        header 2 ((suc (length cs) % 65536 + 65536 - 1) % 65536) DataType.capability
            (extend tail (table 0 cs)),
        extend-extend tail place (table 0 cs),
      )
      (push_capability-full cs (tail ++ place) c (omega (arith, small)))
capability-Overflows c (suc free) cs tail small lt = absurd (omega (arith, lt))

type_behind :
    (t : DataType) (r r' : Serializer → Result Serializer) (ks : List ℕ)
    → ((s : Serializer) → r' s ≡ r (push_type t s))
    → Overflows r ks
    → Overflows r' ks
unfolding push_type
type_behind t r r' ks h o = behind (push_type t) r r' (byte t ∷ []) ks (λ s. refl) h o

variant_behind :
    (n : ℕ) (r r' : Serializer → Result Serializer) (ks : List ℕ)
    → ((s : Serializer) → r' s ≡ r (start_variant n s))
    → Overflows r ks
    → Overflows r' ks
unfolding start_variant
variant_behind n r r' ks h o =
    behind (start_variant n) r r' (byte DataType.variant_value ∷ le_bytes 4 n) ks
      (header 4 n DataType.variant_value) h o

module _ ⦃txt : Text⦄ where
  mutual
    unfolding serialize caps IsData serialize_seq serialize_map

    data_over : (d : Data) → IsData d → Overflows (serialize d) (caps d)
    data_over (Data.some_value d) h =
        type_behind DataType.some_type (serialize d) _ (caps d) (λ s. refl) (data_over d h)
    data_over (Data.newtype_struct d) h =
        type_behind DataType.newtype (serialize d) _ (caps d) (λ s. refl) (data_over d h)
    data_over (Data.newtype_variant n d) (inl (e, (g, _, _))) = rw e (
        same (serialize_capability (ok (cap_of d))) _ _ (λ s. rw (serialize, e, g) refl)
          (capability-Overflows (cap_of d)))
    data_over (Data.newtype_variant n d) (inr (e, h)) =
        rw (e.1) (
          variant_behind n (serialize d) _ (caps d) (λ s. rw (serialize, e.1) refl) (data_over d h))
    data_over (Data.seq xs) h =
        type_behind DataType.sequence_start (serialize_elements xs) _ (caps_items xs) (λ s. refl)
          (items_over xs h)
    data_over (Data.tuple xs) h =
        type_behind DataType.sequence_start (serialize_elements xs) _ (caps_items xs) (λ s. refl)
          (items_over xs h)
    data_over (Data.tuple_struct xs) h =
        type_behind DataType.sequence_start (serialize_elements xs) _ (caps_items xs) (λ s. refl)
          (items_over xs h)
    data_over (Data.tuple_variant n xs) h =
        variant_behind n (serialize (Data.tuple xs)) _ (caps_items xs) (λ s. refl)
          (type_behind DataType.sequence_start (serialize_elements xs) _ (caps_items xs) (λ s. refl)
            (items_over xs (h.1)))
    data_over (Data.map ps) h =
        type_behind DataType.map_start (serialize_pairs ps) _ (caps_pairs ps) (λ s. refl)
          (pairs_over ps h)
    data_over (Data.structure fs) h =
        type_behind DataType.map_start (serialize_fields fs) _ (caps_fields fs) (λ s. refl)
          (fields_over fs h)
    data_over (Data.struct_variant n fs) h =
        variant_behind n (serialize (Data.structure fs)) _ (caps_fields fs) (λ s. refl)
          (type_behind DataType.map_start (serialize_fields fs) _ (caps_fields fs) (λ s. refl)
            (fields_over fs (h.1)))
    data_over (Data.bool v) h = leaf _
    data_over _ h = leaf _

    items_over : (xs : Items) → AreItems xs → Overflows (serialize_elements xs) (caps_items xs)
    items_over Data.no_items h = leaf _
    items_over (Data.item d xs) h =
        sequel (serialize d) (serialize_elements xs) (λ i. emit i d) (caps d) (caps_items xs)
          (serialize-Appends d (h.0)) (data_over d (h.0)) (items_over xs (h.1))

    pairs_over : (ps : Pairs) → ArePairs ps → Overflows (serialize_pairs ps) (caps_pairs ps)
    pairs_over Data.no_pairs h = leaf _
    pairs_over (Data.pair k d ps) (hk, hd, hps) =
        sequel (serialize k) _ (λ i. emit i k) (caps k) (caps d ++ caps_pairs ps)
          (serialize-Appends k hk) (data_over k hk)
          (sequel (serialize d) (serialize_pairs ps) (λ i. emit i d) (caps d) (caps_pairs ps)
            (serialize-Appends d hd) (data_over d hd) (pairs_over ps hps))

    fields_over : (fs : Fields) → AreFields fs → Overflows (serialize_fields fs) (caps_fields fs)
    fields_over Data.no_fields h = leaf _
    fields_over (Data.field k d fs) (hk, hd, hfs) =
        behind (collect_str k) _ _ (text k) (caps d ++ caps_fields fs) (collect_str-text k)
          (λ s. refl)
          (sequel (serialize d) (serialize_fields fs) (λ i. emit i d) (caps d) (caps_fields fs)
            (serialize-Appends d hd) (data_over d hd) (fields_over fs hfs))

  -- For what a serializer is called with, where numbers fit their widths, texts are valid and
  -- shorter than 2 ^ 64 bytes, only a capability's variant has the index of one and holds the id
  -- of one, to_bytes with a table of fewer entries than there are capabilities, and of fewer than
  -- 2 ^ 59, answers TooManyCapabilities.
  pub to_bytes-too_many :
      (d : Data) (n : ℕ)
      → IsData d
      → n < length (caps d)
      → n < 2 ^ 59
      → to_bytes d n ≡ err too_many_capabilities
  unfolding to_bytes Overflows
  to_bytes-too_many d n h lt small =
      rw
        (
          new-table n small ∙ sym (extend-nil (table n [])),
          data_over d h n [] [] (omega (arith, small)) lt,
        )
        refl
