-- ===== src/Aser/De/Values.antt =====
-- The reader of userland/aser/src/de.rs on the bytes of a value: ValueVisitor builds the value.
use aurora_os.Prelude.{
  ℕ, zero, suc, ◌+◌, ◌≤◌, ◌≡◌, refl, ◌∙◌, arith, true, false, List, [], ◌∷◌, ◌++◌, length,
  length-append, append_assoc, inl, inr,
}
use aurora_os.Aser.Result.{ok}
use aurora_os.Aser.DataType.{DataType, byte}
use aurora_os.Aser.Data
use aurora_os.Aser.Data.{Data, Integer, Float, Items, Pairs, Fields, serialize_enum_variant}
use aurora_os.Aser.Value
use aurora_os.Aser.Value.{Value, Values, Entries, OrderedMap}
use aurora_os.Aser.Ser.Emit.{
  text, emit, emit_items, emit_pairs, emit_fields, caps, caps_items, caps_pairs, caps_fields,
  cap_of,
}
use aurora_os.Aser.De.Input.{step, returns}
use aurora_os.Aser.De.Call.{Text, deserialize_any, call_of}
use aurora_os.Aser.De.Visitor.{Primitive, visit, elements, entries}
use aurora_os.Aser.De.Reads.{
  reads-then, emit-pos, left_items, ends_items, items-check, left_pairs, ends_pairs, pairs-check,
  left_fields, ends_fields, fields-check,
}
use aurora_os.Aser.De.Calls.{
  At, At-front, At-back, deserialize_any-opens, integer-call, float-call, char-call, text-call,
  str-call, bytes-call, capability-call,
}
use aurora_os.Aser.Meaning.{
  IsData, AreItems, ArePairs, AreFields, value_of, values_of, entries_of, members_of,
}
use aurora_os.Aser.De.Starts.{
  then_check-ok, capability_of-try_from, emit_items-pos, emit_pairs-pos, emit_fields-pos,
  variant_length, read_value, visit-variant, variant_read, seq_read, map_read, struct_read,
  key_read,
}

module _ ⦃txt : Text⦄ ⦃om : OrderedMap⦄ ⦃prim : Primitive⦄ (table : List ℕ) where
  mutual
    unfolding visit emit left_items left_pairs left_fields caps IsData value_of call_of

    data_read :
        (f i : ℕ) (d : Data) (rest : List ℕ)
        → IsData d
        → length (emit i d) ≤ f
        → At table i (caps d)
        → length table ≤ 65536
        → read_value table f (emit i d ++ rest) ≡ step rest (ok (value_of d))
    data_read zero i d rest h fuel at few = absurd (omega (arith, emit-pos i d, fuel))
    data_read (suc f) i (Data.bool true) rest h fuel at few =
        reads-then (deserialize_any table) (visit table (suc f)) _
          (deserialize_any-opens table DataType.true_type _ refl)
    data_read (suc f) i (Data.bool false) rest h fuel at few =
        reads-then (deserialize_any table) (visit table (suc f)) _
          (deserialize_any-opens table DataType.false_type _ refl)
    data_read (suc f) i (Data.integer v) rest h fuel at few =
        reads-then (deserialize_any table) (visit table (suc f)) _ (integer-call table v rest h)
    data_read (suc f) i (Data.float v) rest h fuel at few =
        reads-then (deserialize_any table) (visit table (suc f)) _ (float-call table v rest h)
    data_read (suc f) i (Data.char v) rest (h, u) fuel at few =
        reads-then (deserialize_any table) (visit table (suc f)) _ (char-call table v rest h u)
    data_read (suc f) i (Data.str v) rest h fuel at few =
        reads-then (deserialize_any table) (visit table (suc f)) _ (str-call table v rest h)
    data_read (suc f) i (Data.bytes v) rest h fuel at few =
        reads-then (deserialize_any table) (visit table (suc f)) _ (bytes-call table v rest h)
    data_read (suc f) i Data.unit rest h fuel at few =
        reads-then (deserialize_any table) (visit table (suc f)) _
          (deserialize_any-opens table DataType.null _ refl)
    data_read (suc f) i Data.none_value rest h fuel at few =
        reads-then (deserialize_any table) (visit table (suc f)) _
          (deserialize_any-opens table DataType.null _ refl)
    data_read (suc f) i Data.unit_struct rest h fuel at few =
        reads-then (deserialize_any table) (visit table (suc f)) _
          (deserialize_any-opens table DataType.null _ refl)
    data_read (suc f) i (Data.display v) rest h fuel at few =
        reads-then (deserialize_any table) (visit table (suc f)) _ (text-call table v rest h)
    data_read (suc f) i (Data.some_value d) rest h fuel at few =
        reads-then (deserialize_any table) (visit table (suc f)) _
          (deserialize_any-opens table DataType.some_type (emit i d ++ rest) refl)
        ∙ reads-then (read_value table f) (λ value. returns (Value.some_value value)) _
            (data_read f i d rest h (omega (arith, fuel)) at few)
    data_read (suc f) i (Data.newtype_struct d) rest h fuel at few =
        reads-then (deserialize_any table) (visit table (suc f)) _
          (deserialize_any-opens table DataType.newtype (emit i d ++ rest) refl)
        ∙ reads-then (read_value table f) (λ value. returns (Value.newtype value)) _
            (data_read f i d rest h (omega (arith, fuel)) at few)
    data_read (suc f) i (Data.unit_variant n) rest h fuel at few =
        reads-then (deserialize_any table) (visit table (suc f)) _
          (deserialize_any-opens table DataType.variant _ refl)
        ∙ visit-variant table f n false rest h
        ∙ refl
    data_read (suc f) i (Data.seq xs) rest h fuel at few =
        seq_read table f i rest xs (items_read f i xs rest h (omega (arith, fuel)) at few)
    data_read (suc f) i (Data.tuple xs) rest h fuel at few =
        seq_read table f i rest xs (items_read f i xs rest h (omega (arith, fuel)) at few)
    data_read (suc f) i (Data.tuple_struct xs) rest h fuel at few =
        seq_read table f i rest xs (items_read f i xs rest h (omega (arith, fuel)) at few)
    data_read (suc f) i (Data.map ps) rest h fuel at few =
        map_read table f i rest ps
          (pairs_read f i ps Value.empty rest h (omega (arith, fuel)) at few)
    data_read (suc f) i (Data.structure fs) rest h fuel at few =
        struct_read table f i rest fs
          (fields_read f i fs Value.empty rest h (omega (arith, fuel)) at few)
    data_read (suc f) i (Data.newtype_variant n d) rest (inl (e, (g, lt, t))) fuel at few =
        let at' : At table i (cap_of d ∷ []) = rw e at at in
        rw e (
          reads-then (deserialize_any table) (visit table (suc f)) _
            (capability-call table i (cap_of d) rest at' few)
          ∙ capability_of-try_from (cap_of d) (cap_of d) rest t)
    data_read (suc f) i (Data.newtype_variant n d) rest (inr (e, h)) fuel at few =
        let at' : At table i (caps d) = rw (e.1) at at in
        let size : length (emit i (Data.newtype_variant n d)) ≡ 5 + length (emit i d) =
          rw (e.1) (variant_length n (emit i d)) in
        rw (e.1) (
          variant_read table n (emit i d) rest (value_of d) e (emit-pos i d)
            (λ g enough. data_read (suc g) i d rest h enough at' few) f (omega (arith, fuel, size)))
    data_read (suc f) i (Data.tuple_variant n xs) rest h fuel at few =
        variant_read table n (byte DataType.sequence_start ∷ emit_items i xs) rest
          (Value.sequence (values_of xs)) (h.0) (omega arith)
          (λ g enough.
            seq_read table g i rest xs
              (items_read g i xs rest (h.1) (omega (arith, enough)) at few))
          f (omega (arith, fuel, variant_length n (byte DataType.sequence_start ∷ emit_items i xs)))
    data_read (suc f) i (Data.struct_variant n fs) rest h fuel at few =
        variant_read table n (byte DataType.map_start ∷ emit_fields i fs) rest
          (Value.map (members_of fs Value.empty)) (h.0) (omega arith)
          (λ g enough.
            struct_read table g i rest fs
              (fields_read g i fs Value.empty rest (h.1) (omega (arith, enough)) at few))
          f (omega (arith, fuel, variant_length n (byte DataType.map_start ∷ emit_fields i fs)))

    items_read :
        (f i : ℕ) (xs : Items) (rest : List ℕ)
        → AreItems xs
        → length (emit_items i xs) ≤ f
        → At table i (caps_items xs)
        → length table ≤ 65536
        → elements table f (ends_items xs) (left_items i xs ++ rest) ≡ step rest (ok (values_of xs))
    items_read zero i xs rest h fuel at few = absurd (omega (arith, emit_items-pos i xs, fuel))
    items_read (suc f) i Data.no_items rest h fuel at few = refl
    items_read (suc f) i (Data.item d xs) rest (h, hs) fuel at few =
        let j = i + length (caps d) in
        let size = length-append (emit i d) (emit_items j xs) in
        rw
          (
            append_assoc (emit i d) (emit_items j xs) rest,
            data_read f i d (emit_items j xs ++ rest) h
                (omega (arith, fuel, size, emit_items-pos j xs))
                (At-front table i (caps d) (caps_items xs) at) few,
            then_check-ok DataType.sequence_end (value_of d) _ _ _ (items-check j xs rest),
          )
          (reads-then (elements table f (ends_items xs)) _ _ (
            items_read f j xs rest hs (omega (arith, fuel, size, emit-pos i d))
              (At-back table i (caps d) (caps_items xs) at) few))

    pairs_read :
        (f i : ℕ) (ps : Pairs) (es : Entries) (rest : List ℕ)
        → ArePairs ps
        → length (emit_pairs i ps) ≤ f
        → At table i (caps_pairs ps)
        → length table ≤ 65536
        → entries table f (ends_pairs ps) es (left_pairs i ps ++ rest)
          ≡ step rest (ok (entries_of ps es))
    pairs_read zero i ps es rest h fuel at few = absurd (omega (arith, emit_pairs-pos i ps, fuel))
    pairs_read (suc f) i Data.no_pairs es rest h fuel at few = refl
    pairs_read (suc f) i (Data.pair k d ps) es rest (hk, hd, hps) fuel at few =
        let j = i + length (caps k) in
        let m = j + length (caps d) in
        let size = length-append (emit i k) (emit j d ++ emit_pairs m ps) in
        let size' = length-append (emit j d) (emit_pairs m ps) in
        let at' = At-back table i (caps k) (caps d ++ caps_pairs ps) at in
        rw
          (
            append_assoc (emit i k) (emit j d ++ emit_pairs m ps) rest,
            append_assoc (emit j d) (emit_pairs m ps) rest,
            data_read f i k (emit j d ++ (emit_pairs m ps ++ rest)) hk
                (omega (arith, fuel, size, size', emit_pairs-pos m ps))
                (At-front table i (caps k) _ at) few,
            data_read f j d (emit_pairs m ps ++ rest) hd
                (omega (arith, fuel, size, size', emit_pairs-pos m ps))
                (At-front table j (caps d) (caps_pairs ps) at') few,
            then_check-ok DataType.map_end (value_of d) _ _ _ (pairs-check m ps rest),
          )
          (pairs_read f m ps (om.insert (value_of k) (value_of d) es) rest hps
            (omega (arith, fuel, size, size', emit-pos i k))
            (At-back table j (caps d) (caps_pairs ps) at') few)

    fields_read :
        (f i : ℕ) (fs : Fields) (es : Entries) (rest : List ℕ)
        → AreFields fs
        → length (emit_fields i fs) ≤ f
        → At table i (caps_fields fs)
        → length table ≤ 65536
        → entries table f (ends_fields fs) es (left_fields i fs ++ rest)
          ≡ step rest (ok (members_of fs es))
    fields_read zero i fs es rest h fuel at few = absurd (omega (arith, emit_fields-pos i fs, fuel))
    fields_read (suc f) i Data.no_fields es rest h fuel at few = refl
    fields_read (suc f) i (Data.field k d fs) es rest (hk, hd, hfs) fuel at few =
        let m = i + length (caps d) in
        let size = length-append (text k) (emit i d ++ emit_fields m fs) in
        let size' = length-append (emit i d) (emit_fields m fs) in
        rw
          (
            append_assoc (text k) (emit i d ++ emit_fields m fs) rest,
            append_assoc (emit i d) (emit_fields m fs) rest,
            key_read table f k (emit i d ++ (emit_fields m fs ++ rest)) hk
                (omega (arith, fuel, size, size', emit_fields-pos m fs)),
            data_read f i d (emit_fields m fs ++ rest) hd
                (omega (arith, fuel, size, size', emit_fields-pos m fs))
                (At-front table i (caps d) (caps_fields fs) at) few,
            then_check-ok DataType.map_end (value_of d) _ _ _ (fields-check m fs rest),
          )
          (fields_read f m fs (om.insert (Value.string k) (value_of d) es) rest hfs
            (omega (arith, fuel, size, size')) (At-back table i (caps d) (caps_fields fs) at) few)

  pub value-read :
      (f i : ℕ) (d : Data) (rest : List ℕ)
      → IsData d
      → length (emit i d) ≤ f
      → At table i (caps d)
      → length table ≤ 65536
      → read_value table f (emit i d ++ rest) ≡ step rest (ok (value_of d))
  value-read f i d rest h fuel at few = data_read f i d rest h fuel at few
