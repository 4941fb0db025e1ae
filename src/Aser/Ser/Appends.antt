-- ===== src/Aser/Ser/Appends.antt =====
-- The bytes and the capabilities that the serializer of userland/aser/src/ser.rs appends.
use aurora_os.Prelude.{
  ℕ, ◌+◌, ◌^◌, ◌<◌, ◌≡◌, refl, sym, ap, ◌∙◌, arith, List, [], ◌∷◌, ◌++◌, length, append-nil, inl,
  inr, true, false,
}
use aurora_os.Aser.Result.{ok}
use aurora_os.Aser.Bytes.{le_bytes}
use aurora_os.Aser.DataType.{DataType, byte}
use aurora_os.Aser.Data
use aurora_os.Aser.Data.{Data, Integer, Float, Items, Pairs, Fields, serialize_enum_variant}
use aurora_os.Aser.Ser.{
  Serializer, new, to_bytes, extend, push_type, serialize, serialize_elements, serialize_pairs,
  serialize_fields, serialize_capability, collect_str, serialize_integer, serialize_float,
  serialize_bool, serialize_char, serialize_str, serialize_bytes, serialize_unit,
  serialize_unit_variant, serialize_seq, serialize_map, start_variant,
}
use aurora_os.Aser.Ser.Emit.{
  emit, emit_items, emit_pairs, emit_fields, caps, caps_items, caps_pairs, caps_fields, text,
  cap_of,
}
use aurora_os.Aser.Ser.Texts.{push_correct_size-sized, collect_str-text}
use aurora_os.Aser.Ser.Buffer.{table, words, fill, new-table}
use aurora_os.Aser.De.Call.{Text}
use aurora_os.Aser.Meaning.{IsData, AreItems, ArePairs, AreFields}
use aurora_os.Aser.Ser.Parts.{
  Appends, prefix, sequel, header, capability-Appends, serialize_integer-extend,
  serialize_float-extend, behind, sure, same, variant_part, regroup-table,
}

module _ ⦃txt : Text⦄ where
  mutual
    unfolding serialize emit caps IsData serialize_bool serialize_char serialize_str serialize_bytes
        serialize_unit serialize_unit_variant serialize_seq serialize_map start_variant push_type

    data_part : (d : Data) → IsData d → Appends (serialize d) (λ i. emit i d) (caps d)
    data_part (Data.bool true) h = sure _ _ (λ s. refl)
    data_part (Data.bool false) h = sure _ _ (λ s. refl)
    data_part (Data.integer v) h = sure (serialize_integer v) _ (serialize_integer-extend v)
    data_part (Data.float v) h = sure (serialize_float v) _ (serialize_float-extend v)
    data_part (Data.char v) h = sure (serialize_char v) _ (header 4 v DataType.char)
    data_part (Data.str v) h = sure (serialize_str v) _ (
        push_correct_size-sized v DataType.string8 DataType.string16 DataType.string32
          DataType.string64)
    data_part (Data.bytes v) h = sure (serialize_bytes v) _ (
        push_correct_size-sized v DataType.bytes8 DataType.bytes16 DataType.bytes32
          DataType.bytes64)
    data_part Data.unit h = sure _ _ (λ s. refl)
    data_part Data.none_value h = sure _ _ (λ s. refl)
    data_part (Data.some_value d) h =
        prefix (serialize d) _ (byte DataType.some_type ∷ []) (λ i. emit i d) (caps d) (λ s. refl)
          (data_part d h)
    data_part Data.unit_struct h = sure _ _ (λ s. refl)
    data_part (Data.unit_variant n) h =
        sure (serialize_unit_variant n) _ (header 4 n DataType.variant)
    data_part (Data.newtype_struct d) h =
        prefix (serialize d) _ (byte DataType.newtype ∷ []) (λ i. emit i d) (caps d) (λ s. refl)
          (data_part d h)
    data_part (Data.newtype_variant n d) (inl (e, (g, _, _))) = rw e (
        same (serialize_capability (ok (cap_of d))) _ _ _ (λ s. rw (serialize, e, g) refl)
          (capability-Appends (cap_of d)))
    data_part (Data.newtype_variant n d) (inr (e, h)) = rw (e.1) (
        variant_part n (serialize d) _ (λ i. emit i d) (caps d) (λ s. rw (serialize, e.1) refl)
          (data_part d h))
    data_part (Data.seq xs) h =
        prefix (serialize_elements xs) _ (byte DataType.sequence_start ∷ []) (λ i. emit_items i xs)
          (caps_items xs) (λ s. refl) (items_part xs h)
    data_part (Data.tuple xs) h =
        prefix (serialize_elements xs) _ (byte DataType.sequence_start ∷ []) (λ i. emit_items i xs)
          (caps_items xs) (λ s. refl) (items_part xs h)
    data_part (Data.tuple_struct xs) h =
        prefix (serialize_elements xs) _ (byte DataType.sequence_start ∷ []) (λ i. emit_items i xs)
          (caps_items xs) (λ s. refl) (items_part xs h)
    data_part (Data.tuple_variant n xs) h =
        variant_part n (serialize (Data.tuple xs)) _ (λ i. emit i (Data.tuple xs)) (caps_items xs)
          (λ s. refl)
          (prefix (serialize_elements xs) _ (byte DataType.sequence_start ∷ [])
            (λ i. emit_items i xs) (caps_items xs) (λ s. refl) (items_part xs (h.1)))
    data_part (Data.map ps) h =
        prefix (serialize_pairs ps) _ (byte DataType.map_start ∷ []) (λ i. emit_pairs i ps)
          (caps_pairs ps) (λ s. refl) (pairs_part ps h)
    data_part (Data.structure fs) h =
        prefix (serialize_fields fs) _ (byte DataType.map_start ∷ []) (λ i. emit_fields i fs)
          (caps_fields fs) (λ s. refl) (fields_part fs h)
    data_part (Data.struct_variant n fs) h =
        variant_part n (serialize (Data.structure fs)) _ (λ i. emit i (Data.structure fs))
          (caps_fields fs) (λ s. refl)
          (prefix (serialize_fields fs) _ (byte DataType.map_start ∷ []) (λ i. emit_fields i fs)
            (caps_fields fs) (λ s. refl) (fields_part fs (h.1)))
    data_part (Data.display v) h = sure (collect_str v) _ (collect_str-text v)

    items_part :
        (xs : Items)
        → AreItems xs
        → Appends (serialize_elements xs) (λ i. emit_items i xs) (caps_items xs)
    items_part Data.no_items h = sure _ _ (λ s. refl)
    items_part (Data.item d xs) h =
        sequel (serialize d) (serialize_elements xs) (λ i. emit i d) (λ i. emit_items i xs) (caps d)
          (caps_items xs) (data_part d (h.0)) (items_part xs (h.1))

    pairs_part :
        (ps : Pairs)
        → ArePairs ps
        → Appends (serialize_pairs ps) (λ i. emit_pairs i ps) (caps_pairs ps)
    pairs_part Data.no_pairs h = sure _ _ (λ s. refl)
    pairs_part (Data.pair k d ps) (hk, hd, hps) =
        sequel (serialize k) _ (λ i. emit i k) _ (caps k) _ (data_part k hk)
          (sequel (serialize d) (serialize_pairs ps) (λ i. emit i d) (λ i. emit_pairs i ps) (caps d)
            (caps_pairs ps) (data_part d hd) (pairs_part ps hps))

    fields_part :
        (fs : Fields)
        → AreFields fs
        → Appends (serialize_fields fs) (λ i. emit_fields i fs) (caps_fields fs)
    fields_part Data.no_fields h = sure _ _ (λ s. refl)
    fields_part (Data.field k d fs) (hk, hd, hfs) =
        behind (collect_str k) _ _ (text k) _ (caps d ++ caps_fields fs) (collect_str-text k)
          (λ s. refl)
          (sequel (serialize d) (serialize_fields fs) (λ i. emit i d) (λ i. emit_fields i fs)
            (caps d) (caps_fields fs) (data_part d hd) (fields_part fs hfs))

  pub serialize-Appends : (d : Data) → IsData d → Appends (serialize d) (λ i. emit i d) (caps d)
  serialize-Appends d h = data_part d h

  pub extend-nil : (s : Serializer) → extend [] s ≡ s
  unfolding extend
  extend-nil s = rw (append-nil s.buf) refl

  -- For what a serializer is called with, where numbers fit their widths, texts are valid and
  -- shorter than 2 ^ 64 bytes, only a capability's variant has the index of one and holds the id
  -- of one, and a table with room for its capabilities and fewer than 2 ^ 59 entries, to_bytes
  -- writes the number of capabilities, their ids in the order of their places, filler for the
  -- entries left, and then the bytes that the format prescribes for the value, in which a
  -- capability is its place in the table modulo 65536.
  pub to_bytes-emit :
      (d : Data) (free : ℕ)
      → IsData d
      → length (caps d) + free < 2 ^ 59
      → to_bytes d (length (caps d) + free)
        ≡ ok (le_bytes 8 (length (caps d)) ++ (words (caps d) ++ (fill free ++ emit 0 d)))
  unfolding to_bytes Appends
  to_bytes-emit d free h small =
      let start : new (length (caps d) + free) ≡ extend [] (table (length (caps d) + free) []) =
        new-table (length (caps d) + free) (omega (arith, small))
        ∙ sym (extend-nil (table (length (caps d) + free) [])) in
      rw (start, data_part d h free [] [] (omega (arith, small)))
        (ap (λ (l : List ℕ). ok l) (regroup-table (caps d) free (emit 0 d)))
