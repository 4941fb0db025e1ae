-- ===== src/Aser/De/Starts.antt =====
-- The start of a variant, of a sequence and of a map in userland/aser/src/de.rs.
use aurora_os.Prelude.{
  ℕ, zero, suc, ◌+◌, ◌<◌, ◌≤◌, ◌≡◌, refl, ◌∙◌, arith, Bool, true, List, ◌∷◌, ◌++◌, length,
  length-append, append_assoc, some,
}
use aurora_os.Cap.CapId
use aurora_os.Aser.Result.{ok}
use aurora_os.Aser.Bytes.{le_bytes}
use aurora_os.Aser.Bytes.Laws.{length-le_bytes}
use aurora_os.Aser.DataType.{DataType, byte}
use aurora_os.Aser.Data
use aurora_os.Aser.Data.{Data, Integer, Float, Items, Pairs, Fields, serialize_enum_variant}
use aurora_os.Aser.Value
use aurora_os.Aser.Value.{Value, Values, Entries, OrderedMap}
use aurora_os.Aser.Ser.Emit.{text, emit, emit_items, emit_pairs, emit_fields, caps}
use aurora_os.Aser.De.Input.{step, Reader, ◌>>=◌, returns, take_le, then_check, check_if_finished}
use aurora_os.Aser.De.Call.{Text, visit_enum, deserialize_any, call_of}
use aurora_os.Aser.De.Visitor.{Primitive, visit, elements, entries, variant_data, capability_of}
use aurora_os.Aser.De.Reads.{
  reads-then, take_le-append, emit-pos, left_items, ends_items, left_pairs, ends_pairs, left_fields,
  ends_fields,
}
use aurora_os.Aser.De.Calls.{deserialize_any-opens, text-call, items-call, pairs-call, fields-call}
use aurora_os.Aser.Meaning.{values_of, entries_of, members_of, IsIndex, IsText}

pub then_check-ok {ℓ} :
    {A : Type ℓ} (end : DataType) (a : A) (s s' : List ℕ) (finished : Bool)
    → check_if_finished end s ≡ step s' (ok finished)
    → then_check end (step s (ok a)) ≡ step s' (ok (a, finished))
unfolding then_check
then_check-ok end a s s' finished h = rw h refl

pub capability_of-try_from :
    (n c : ℕ) (s : List ℕ)
    → CapId.try_from n ≡ some c
    → capability_of n s ≡ step s (ok (Value.capability c))
unfolding capability_of
capability_of-try_from n c s h = rw h refl

pub emit_items-pos : (i : ℕ) (xs : Items) → 0 < length (emit_items i xs)
unfolding emit
emit_items-pos i Data.no_items = omega arith
emit_items-pos i (Data.item d xs) =
    omega (arith, length-append (emit i d) (emit_items (i + length (caps d)) xs), emit-pos i d)

pub emit_pairs-pos : (i : ℕ) (ps : Pairs) → 0 < length (emit_pairs i ps)
unfolding emit
emit_pairs-pos i Data.no_pairs = omega arith
emit_pairs-pos i (Data.pair k d ps) =
    let j = i + length (caps k) in
    omega (
      arith,
      length-append (emit i k) (emit j d ++ emit_pairs (j + length (caps d)) ps),
      emit-pos i k,
    )

pub emit_fields-pos : (i : ℕ) (fs : Fields) → 0 < length (emit_fields i fs)
unfolding emit
emit_fields-pos i Data.no_fields = omega arith
emit_fields-pos i (Data.field k d fs) = omega arith

pub variant_length :
    (n : ℕ) (b : List ℕ) → length (byte DataType.variant_value ∷ (le_bytes 4 n ++ b)) ≡ 5 + length b
variant_length n b = omega (arith, length-append (le_bytes 4 n) b, length-le_bytes 4 n)

module _ ⦃txt : Text⦄ ⦃om : OrderedMap⦄ ⦃prim : Primitive⦄ (table : List ℕ) where
  abbrev pub read_value : ℕ → Reader Value
  read_value f = deserialize_any table >>= visit table f

  -- The index of a variant, then its data.
  module _ (f n : ℕ) (has_data : Bool) (rest : List ℕ) (h : IsIndex n) where
    pub visit-variant :
        visit table (suc f) (visit_enum has_data) (le_bytes 4 n ++ rest)
        ≡ (variant_data table f has_data >>= λ value. returns (Value.enum_variant n value)) rest
    unfolding visit
    visit-variant = reads-then (take_le 4) _ _ (take_le-append 4 n rest (h.0)) ∙ rw (h.1) refl

  module _ (n : ℕ) (b rest : List ℕ) (value : Value) (h : IsIndex n) (pos : 0 < length b)
      (data_of : (g : ℕ)
        → length b ≤ suc g
        → read_value (suc g) (b ++ rest) ≡ step rest (ok value)) where
    pub variant_read :
        (f : ℕ)
        → length b + 4 ≤ f
        → read_value (suc f) (byte DataType.variant_value ∷ ((le_bytes 4 n ++ b) ++ rest))
          ≡ step rest (ok (Value.enum_variant n value))
    unfolding visit call_of
    variant_read zero enough = absurd (omega arith)
    variant_read (suc zero) enough = absurd (omega arith)
    variant_read (suc (suc g)) enough = rw (append_assoc (le_bytes 4 n) b rest) (
        reads-then (deserialize_any table) (visit table (suc (suc (suc g)))) _
          (deserialize_any-opens table DataType.variant_value _ refl)
        ∙ visit-variant (suc (suc g)) n true (b ++ rest) h
        ∙ reads-then (variant_data table (suc (suc g)) true) _ (b ++ rest)
            (data_of g (omega (arith, enough))))

  module _ (f i : ℕ) (rest : List ℕ) where
    pub seq_read :
        (xs : Items)
        → elements table f (ends_items xs) (left_items i xs ++ rest) ≡ step rest (ok (values_of xs))
        → read_value (suc f) (byte DataType.sequence_start ∷ (emit_items i xs ++ rest))
          ≡ step rest (ok (Value.sequence (values_of xs)))
    unfolding visit
    seq_read xs e =
        reads-then (deserialize_any table) (visit table (suc f)) _ (items-call table i xs rest)
        ∙ reads-then (elements table f (ends_items xs)) _ _ e

    pub map_read :
        (ps : Pairs)
        → entries table f (ends_pairs ps) Value.empty (left_pairs i ps ++ rest)
          ≡ step rest (ok (entries_of ps Value.empty))
        → read_value (suc f) (byte DataType.map_start ∷ (emit_pairs i ps ++ rest))
          ≡ step rest (ok (Value.map (entries_of ps Value.empty)))
    unfolding visit
    map_read ps e =
        reads-then (deserialize_any table) (visit table (suc f)) _ (pairs-call table i ps rest)
        ∙ reads-then (entries table f (ends_pairs ps) Value.empty) _ _ e

    pub struct_read :
        (fs : Fields)
        → entries table f (ends_fields fs) Value.empty (left_fields i fs ++ rest)
          ≡ step rest (ok (members_of fs Value.empty))
        → read_value (suc f) (byte DataType.map_start ∷ (emit_fields i fs ++ rest))
          ≡ step rest (ok (Value.map (members_of fs Value.empty)))
    unfolding visit
    struct_read fs e =
        reads-then (deserialize_any table) (visit table (suc f)) _ (fields-call table i fs rest)
        ∙ reads-then (entries table f (ends_fields fs) Value.empty) _ _ e

  pub key_read :
      (f : ℕ) (k rest : List ℕ)
      → IsText k
      → 0 < f
      → read_value f (text k ++ rest) ≡ step rest (ok (Value.string k))
  unfolding visit
  key_read zero k rest h pos = absurd (omega arith)
  key_read (suc f) k rest h pos =
      reads-then (deserialize_any table) (visit table (suc f)) _ (text-call table k rest h)
