-- ===== src/Aser/Ser/Emit.antt =====
-- The format of userland/aser, independent of the serializer: the bytes of each value, and
-- the capabilities in it.
use aurora_os.Prelude.{
  ℕ, ◌+◌, ◌%◌, ◌==◌, true, false, List, [], ◌∷◌, ◌++◌, leb, if◌then◌else◌, length,
}
use aurora_os.Aser.Bytes.{le_bytes}
use aurora_os.Aser.DataType.{DataType, byte}
use aurora_os.Aser.Data
use aurora_os.Aser.Data.{Data, Integer, Float, Items, Pairs, Fields, serialize_enum_variant}

abbrev pub bits : Integer → ℕ
bits (Data.i8 v) = v
bits (Data.i16 v) = v
bits (Data.i32 v) = v
bits (Data.i64 v) = v
bits (Data.i128 v) = v
bits (Data.u8 v) = v
bits (Data.u16 v) = v
bits (Data.u32 v) = v
bits (Data.u64 v) = v
bits (Data.u128 v) = v

abbrev pub width : Integer → ℕ
width (Data.i8 v) = 1
width (Data.i16 v) = 2
width (Data.i32 v) = 4
width (Data.i64 v) = 8
width (Data.i128 v) = 16
width (Data.u8 v) = 1
width (Data.u16 v) = 2
width (Data.u32 v) = 4
width (Data.u64 v) = 8
width (Data.u128 v) = 16

abbrev pub integer_type : Integer → DataType
integer_type (Data.i8 v) = DataType.i8
integer_type (Data.i16 v) = DataType.i16
integer_type (Data.i32 v) = DataType.i32
integer_type (Data.i64 v) = DataType.i64
integer_type (Data.i128 v) = DataType.i128
integer_type (Data.u8 v) = DataType.u8
integer_type (Data.u16 v) = DataType.u16
integer_type (Data.u32 v) = DataType.u32
integer_type (Data.u64 v) = DataType.u64
integer_type (Data.u128 v) = DataType.u128

abbrev pub float_bytes : Float → List ℕ
float_bytes (Data.f32 v) = byte DataType.f32 ∷ le_bytes 4 v
float_bytes (Data.f64 v) = byte DataType.f64 ∷ le_bytes 8 v

-- A type and a length before the bytes of a text.
unfoldable pub sized : DataType → DataType → DataType → DataType → List ℕ → List ℕ
sized t8 t16 t32 t64 v =
    if leb (length v) 255
    then byte t8 ∷ (le_bytes 1 (length v) ++ v)
    else if leb (length v) 65535
    then byte t16 ∷ (le_bytes 2 (length v) ++ v)
    else if leb (length v) 4294967295
    then byte t32 ∷ (le_bytes 4 (length v) ++ v)
    else byte t64 ∷ (le_bytes 8 (length v) ++ v)

abbrev pub text : List ℕ → List ℕ
text v = byte DataType.string64 ∷ (le_bytes 8 (length v) ++ v)

-- The id of a capability.
abbrev pub cap_of : Data → ℕ
cap_of (Data.integer (Data.u64 n)) = n
cap_of _ = 0

unfoldable mutual
  -- The capabilities of a value, in the order of their places.
  pub caps : Data → List ℕ
  caps (Data.some_value d) = caps d
  caps (Data.newtype_struct d) = caps d
  caps (Data.newtype_variant n d) = if n == serialize_enum_variant then cap_of d ∷ [] else caps d
  caps (Data.seq xs) = caps_items xs
  caps (Data.tuple xs) = caps_items xs
  caps (Data.tuple_struct xs) = caps_items xs
  caps (Data.tuple_variant n xs) = caps_items xs
  caps (Data.map ps) = caps_pairs ps
  caps (Data.structure fs) = caps_fields fs
  caps (Data.struct_variant n fs) = caps_fields fs
  caps _ = []

  pub caps_items : Items → List ℕ
  caps_items Data.no_items = []
  caps_items (Data.item d xs) = caps d ++ caps_items xs

  pub caps_pairs : Pairs → List ℕ
  caps_pairs Data.no_pairs = []
  caps_pairs (Data.pair k d ps) = caps k ++ (caps d ++ caps_pairs ps)

  pub caps_fields : Fields → List ℕ
  caps_fields Data.no_fields = []
  caps_fields (Data.field k d fs) = caps d ++ caps_fields fs

unfoldable mutual
  unfolding sized

  -- The bytes of a value, when `i` capabilities stand before it.
  pub emit : ℕ → Data → List ℕ
  emit i (Data.bool true) = byte DataType.true_type ∷ []
  emit i (Data.bool false) = byte DataType.false_type ∷ []
  emit i (Data.integer v) = byte (integer_type v) ∷ le_bytes (width v) (bits v)
  emit i (Data.float v) = float_bytes v
  emit i (Data.char v) = byte DataType.char ∷ le_bytes 4 v
  emit i (Data.str v) =
      sized DataType.string8 DataType.string16 DataType.string32 DataType.string64 v
  emit i (Data.bytes v) = sized DataType.bytes8 DataType.bytes16 DataType.bytes32 DataType.bytes64 v
  emit i Data.unit = byte DataType.null ∷ []
  emit i Data.none_value = byte DataType.null ∷ []
  emit i (Data.some_value d) = byte DataType.some_type ∷ emit i d
  emit i Data.unit_struct = byte DataType.null ∷ []
  emit i (Data.unit_variant n) = byte DataType.variant ∷ le_bytes 4 n
  emit i (Data.newtype_struct d) = byte DataType.newtype ∷ emit i d
  emit i (Data.newtype_variant n d) =
      if n == serialize_enum_variant
      then byte DataType.capability ∷ le_bytes 2 (i % 65536)
      else byte DataType.variant_value ∷ (le_bytes 4 n ++ emit i d)
  emit i (Data.seq xs) = byte DataType.sequence_start ∷ emit_items i xs
  emit i (Data.tuple xs) = byte DataType.sequence_start ∷ emit_items i xs
  emit i (Data.tuple_struct xs) = byte DataType.sequence_start ∷ emit_items i xs
  emit i (Data.tuple_variant n xs) =
      byte DataType.variant_value
      ∷ (le_bytes 4 n ++ (byte DataType.sequence_start ∷ emit_items i xs))
  emit i (Data.map ps) = byte DataType.map_start ∷ emit_pairs i ps
  emit i (Data.structure fs) = byte DataType.map_start ∷ emit_fields i fs
  emit i (Data.struct_variant n fs) =
      byte DataType.variant_value ∷ (le_bytes 4 n ++ (byte DataType.map_start ∷ emit_fields i fs))
  emit i (Data.display v) = text v

  pub emit_items : ℕ → Items → List ℕ
  emit_items i Data.no_items = byte DataType.sequence_end ∷ []
  emit_items i (Data.item d xs) = emit i d ++ emit_items (i + length (caps d)) xs

  pub emit_pairs : ℕ → Pairs → List ℕ
  emit_pairs i Data.no_pairs = byte DataType.map_end ∷ []
  emit_pairs i (Data.pair k d ps) =
      let j = i + length (caps k) in emit i k ++ (emit j d ++ emit_pairs (j + length (caps d)) ps)

  pub emit_fields : ℕ → Fields → List ℕ
  emit_fields i Data.no_fields = byte DataType.map_end ∷ []
  emit_fields i (Data.field k d fs) = text k ++ (emit i d ++ emit_fields (i + length (caps d)) fs)
