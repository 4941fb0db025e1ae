-- ===== src/Aser/De/Calls.antt =====
-- `deserialize_any` of userland/aser/src/de.rs on the bytes of a value: the call of the visitor.
use mathlib.Core.Bool.{false≢true}
use aurora_os.Prelude.{
  ℕ, suc, ◌+◌, ◌%◌, ◌^◌, ◌<◌, ◌≤◌, ◌≡◌, refl, sym, ap, ◌∙◌, arith, true, List, [], ◌∷◌, ◌++◌,
  length, length-append, append_assoc, get_elem?, get_elem?-append, some,
}
use aurora_os.Aser.Result.{ok}
use aurora_os.Aser.Bytes.{le_bytes}
use aurora_os.Aser.DataType
use aurora_os.Aser.DataType.{DataType, byte}
use aurora_os.Aser.Data
use aurora_os.Aser.Data.{Data, Integer, Float, Items, Pairs, Fields}
use aurora_os.Aser.Ser.Emit.{
  bits, width, integer_type, float_bytes, sized, text, emit_items, emit_pairs, emit_fields,
}
use aurora_os.Aser.De.Input.{step, take_bytes, take_le, take_data_type, take_u8, check_if_finished}
use aurora_os.Aser.De.Call.{
  Text, visit_integer, visit_float, visit_char, visit_str, visit_bytes, visit_seq, visit_map,
  visit_capability, integer_call, bytes_call, str_call, char_call, take_str, call_of,
  capability_call, deserialize_any, skip_filler, end_call,
}
use aurora_os.Aser.De.Reads.{
  reads-then, take_bytes-append, take_le-append, opens, sized_cases, left_items, ends_items,
  items-check, left_pairs, ends_pairs, pairs-check, left_fields, ends_fields, fields-check,
}
use aurora_os.Aser.Meaning.{IsText, FitsFloat}

-- The place of the capabilities `ks` in the table, from the place `i`.
abbrev pub At : List ℕ → ℕ → List ℕ → Type 0
At capabilities i ks =
    (pre : List ℕ) × (post : List ℕ) × (length pre ≡ i) × (capabilities ≡ pre ++ (ks ++ post))

pub At-front : (table : List ℕ) (i : ℕ) (ks ks' : List ℕ) → At table i (ks ++ ks') → At table i ks
At-front table i ks ks' (pre, post, l, e) =
    (pre, ks' ++ post, l, e ∙ ap (λ (r : List ℕ). pre ++ r) (append_assoc ks ks' post))

pub At-back :
    (table : List ℕ) (i : ℕ) (ks ks' : List ℕ)
    → At table i (ks ++ ks')
    → At table (i + length ks) ks'
At-back table i ks ks' (pre, post, l, e) = (
  pre ++ ks,
  post,
  length-append pre ks ∙ ap (λ (n : ℕ). n + length ks) l,
  e
      ∙ ap (λ (r : List ℕ). pre ++ r) (append_assoc ks ks' post)
      ∙ sym (append_assoc pre ks (ks' ++ post)),
)

pub integer_call-le_bytes :
    (k n : ℕ) (con : ℕ → Integer) (rest : List ℕ)
    → n < 256 ^ k
    → integer_call k con (le_bytes k n ++ rest) ≡ step rest (ok (visit_integer (con n)))
unfolding integer_call
integer_call-le_bytes k n con rest lt = reads-then (take_le k) _ _ (take_le-append k n rest lt)

bytes_call-le_bytes :
    (k : ℕ) (v rest : List ℕ)
    → length v < 256 ^ k
    → bytes_call k ((le_bytes k (length v) ++ v) ++ rest) ≡ step rest (ok (visit_bytes v))
unfolding bytes_call
bytes_call-le_bytes k v rest lt = rw (append_assoc (le_bytes k (length v)) v rest) (
    reads-then (take_le k) _ _ (take_le-append k (length v) (v ++ rest) lt)
    ∙ reads-then (take_bytes (length v)) _ _ (take_bytes-append (length v) v rest refl))

module _ ⦃txt : Text⦄ where
  str_call-le_bytes :
      (k : ℕ) (v rest : List ℕ)
      → length v < 256 ^ k
      → txt.is_utf8 v ≡ true
      → str_call k ((le_bytes k (length v) ++ v) ++ rest) ≡ step rest (ok (visit_str v))
  unfolding str_call take_str
  str_call-le_bytes k v rest lt u = rw (append_assoc (le_bytes k (length v)) v rest) (
      reads-then (take_le k) _ _ (take_le-append k (length v) (v ++ rest) lt)
      ∙ reads-then (take_str (length v)) _ _ (
          reads-then (take_bytes (length v)) _ _ (take_bytes-append (length v) v rest refl)
          ∙ rw u refl))

  char_call-le_bytes :
      (n : ℕ) (rest : List ℕ)
      → n < 256 ^ 4
      → txt.is_char n ≡ true
      → char_call (le_bytes 4 n ++ rest) ≡ step rest (ok (visit_char n))
  unfolding char_call
  char_call-le_bytes n rest lt u =
      reads-then (take_le 4) _ _ (take_le-append 4 n rest lt) ∙ rw u refl

  module _ (capabilities : List ℕ) where
    pub deserialize_any-opens :
        (t : DataType) (s : List ℕ)
        → opens t ≡ true
        → deserialize_any capabilities (byte t ∷ s) ≡ call_of capabilities t s
    unfolding deserialize_any take_data_type take_u8 skip_filler byte DataType.try_from
    deserialize_any-opens DataType.sequence_end s o = absurd (false≢true o)
    deserialize_any-opens DataType.map_end s o = absurd (false≢true o)
    deserialize_any-opens DataType.filler s o = absurd (false≢true o)
    deserialize_any-opens _ s o = refl

    pub integer-call :
        (v : Integer) (rest : List ℕ)
        → bits v < 256 ^ width v
        → deserialize_any capabilities
            (byte (integer_type v) ∷ (le_bytes (width v) (bits v) ++ rest))
          ≡ step rest (ok (visit_integer v))
    unfolding call_of
    integer-call (Data.i8 v) rest lt =
        deserialize_any-opens DataType.i8 _ refl ∙ integer_call-le_bytes 1 v Data.i8 rest lt
    integer-call (Data.i16 v) rest lt =
        deserialize_any-opens DataType.i16 _ refl ∙ integer_call-le_bytes 2 v Data.i16 rest lt
    integer-call (Data.i32 v) rest lt =
        deserialize_any-opens DataType.i32 _ refl ∙ integer_call-le_bytes 4 v Data.i32 rest lt
    integer-call (Data.i64 v) rest lt =
        deserialize_any-opens DataType.i64 _ refl ∙ integer_call-le_bytes 8 v Data.i64 rest lt
    integer-call (Data.i128 v) rest lt =
        deserialize_any-opens DataType.i128 _ refl ∙ integer_call-le_bytes 16 v Data.i128 rest lt
    integer-call (Data.u8 v) rest lt =
        deserialize_any-opens DataType.u8 _ refl ∙ integer_call-le_bytes 1 v Data.u8 rest lt
    integer-call (Data.u16 v) rest lt =
        deserialize_any-opens DataType.u16 _ refl ∙ integer_call-le_bytes 2 v Data.u16 rest lt
    integer-call (Data.u32 v) rest lt =
        deserialize_any-opens DataType.u32 _ refl ∙ integer_call-le_bytes 4 v Data.u32 rest lt
    integer-call (Data.u64 v) rest lt =
        deserialize_any-opens DataType.u64 _ refl ∙ integer_call-le_bytes 8 v Data.u64 rest lt
    integer-call (Data.u128 v) rest lt =
        deserialize_any-opens DataType.u128 _ refl ∙ integer_call-le_bytes 16 v Data.u128 rest lt

    pub float-call :
        (v : Float) (rest : List ℕ)
        → FitsFloat v
        → deserialize_any capabilities (float_bytes v ++ rest) ≡ step rest (ok (visit_float v))
    unfolding call_of
    float-call (Data.f32 v) rest lt =
        deserialize_any-opens DataType.f32 _ refl
        ∙ reads-then (take_le 4) _ _ (take_le-append 4 v rest lt)
    float-call (Data.f64 v) rest lt =
        deserialize_any-opens DataType.f64 _ refl
        ∙ reads-then (take_le 8) _ _ (take_le-append 8 v rest lt)

    pub char-call :
        (n : ℕ) (rest : List ℕ)
        → n < 256 ^ 4
        → txt.is_char n ≡ true
        → deserialize_any capabilities (byte DataType.char ∷ (le_bytes 4 n ++ rest))
          ≡ step rest (ok (visit_char n))
    unfolding call_of
    char-call n rest lt u =
        deserialize_any-opens DataType.char _ refl ∙ char_call-le_bytes n rest lt u

    pub text-call :
        (v rest : List ℕ)
        → IsText v
        → deserialize_any capabilities (text v ++ rest) ≡ step rest (ok (visit_str v))
    unfolding call_of
    text-call v rest (lt, u) =
        deserialize_any-opens DataType.string64 _ refl ∙ str_call-le_bytes 8 v rest lt u

    pub str-call :
        (v rest : List ℕ)
        → IsText v
        → deserialize_any capabilities
            (sized DataType.string8 DataType.string16 DataType.string32 DataType.string64 v ++ rest)
          ≡ step rest (ok (visit_str v))
    unfolding call_of
    str-call v rest (lt, u) =
        sized_cases (λ l. deserialize_any capabilities (l ++ rest) ≡ step rest (ok (visit_str v))) _
          _ _ _ v lt
          (λ small.
            deserialize_any-opens DataType.string8 _ refl ∙ str_call-le_bytes 1 v rest small u)
          (λ small.
            deserialize_any-opens DataType.string16 _ refl ∙ str_call-le_bytes 2 v rest small u)
          (λ small.
            deserialize_any-opens DataType.string32 _ refl ∙ str_call-le_bytes 4 v rest small u)
          (λ small.
            deserialize_any-opens DataType.string64 _ refl ∙ str_call-le_bytes 8 v rest small u)

    pub bytes-call :
        (v rest : List ℕ)
        → length v < 256 ^ 8
        → deserialize_any capabilities
            (sized DataType.bytes8 DataType.bytes16 DataType.bytes32 DataType.bytes64 v ++ rest)
          ≡ step rest (ok (visit_bytes v))
    unfolding call_of
    bytes-call v rest lt =
        sized_cases (λ l. deserialize_any capabilities (l ++ rest) ≡ step rest (ok (visit_bytes v)))
          _ _ _ _ v lt
          (λ small.
            deserialize_any-opens DataType.bytes8 _ refl ∙ bytes_call-le_bytes 1 v rest small)
          (λ small.
            deserialize_any-opens DataType.bytes16 _ refl ∙ bytes_call-le_bytes 2 v rest small)
          (λ small.
            deserialize_any-opens DataType.bytes32 _ refl ∙ bytes_call-le_bytes 4 v rest small)
          (λ small.
            deserialize_any-opens DataType.bytes64 _ refl ∙ bytes_call-le_bytes 8 v rest small)

    pub items-call :
        (i : ℕ) (xs : Items) (rest : List ℕ)
        → deserialize_any capabilities (byte DataType.sequence_start ∷ (emit_items i xs ++ rest))
          ≡ step (left_items i xs ++ rest) (ok (visit_seq (ends_items xs)))
    unfolding call_of end_call
    items-call i xs rest =
        deserialize_any-opens DataType.sequence_start _ refl
        ∙ reads-then (check_if_finished DataType.sequence_end) _ _ (items-check i xs rest)

    pub pairs-call :
        (i : ℕ) (ps : Pairs) (rest : List ℕ)
        → deserialize_any capabilities (byte DataType.map_start ∷ (emit_pairs i ps ++ rest))
          ≡ step (left_pairs i ps ++ rest) (ok (visit_map (ends_pairs ps)))
    unfolding call_of end_call
    pairs-call i ps rest =
        deserialize_any-opens DataType.map_start _ refl
        ∙ reads-then (check_if_finished DataType.map_end) _ _ (pairs-check i ps rest)

    pub fields-call :
        (i : ℕ) (fs : Fields) (rest : List ℕ)
        → deserialize_any capabilities (byte DataType.map_start ∷ (emit_fields i fs ++ rest))
          ≡ step (left_fields i fs ++ rest) (ok (visit_map (ends_fields fs)))
    unfolding call_of end_call
    fields-call i fs rest =
        deserialize_any-opens DataType.map_start _ refl
        ∙ reads-then (check_if_finished DataType.map_end) _ _ (fields-check i fs rest)

    pub capability-call :
        (i c : ℕ) (rest : List ℕ)
        → At capabilities i (c ∷ [])
        → length capabilities ≤ 65536
        → deserialize_any capabilities (byte DataType.capability ∷ (le_bytes 2 (i % 65536) ++ rest))
          ≡ step rest (ok (visit_capability c))
    unfolding call_of capability_call
    capability-call i c rest (pre, post, l, e) few =
        let index : i % 65536 ≡ i =
          let size : length capabilities ≡ length pre + suc (length post) =
            ap (λ (r : List ℕ). length r) e ∙ length-append pre (c ∷ post) in
          omega (arith, size, few, l) in
        let found : get_elem? capabilities i ≡ some c =
          let place : i ≡ length pre + 0 = omega (arith, l) in
          rw (e, place) (get_elem?-append pre (c ∷ post) 0) in
        deserialize_any-opens DataType.capability _ refl
        ∙ reads-then (take_le 2) _ _ (take_le-append 2 (i % 65536) rest (omega arith))
        ∙ rw (index, found) refl
