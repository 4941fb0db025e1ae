-- ===== src/Aser/Ser.antt =====
-- userland/aser/src/ser.rs: the serializer into bytes. The buffer begins with a table of
-- capabilities, their number first, which is filled in while the data is appended behind it.
pub mod Emit
pub mod Buffer
pub mod Texts
pub mod Parts
pub mod Appends
pub mod Overflows
use aurora_os.Prelude.{
  ℕ, ◌+◌, ◌-◌, ◌*◌, ◌%◌, ◌==◌, Bool, true, false, List, [], ◌∷◌, ◌++◌, leb, if◌then◌else◌, length,
  take, drop, replicate,
}
use aurora_os.BitUtils.{usize_mod}
use aurora_os.Aser.Result.{Result, ok, err, panic, out_of_fuel, ◌>>=◌, too_many_capabilities}
use aurora_os.Aser.Bytes.{le_bytes, get_usize, set_usize}
use aurora_os.Aser.DataType
use aurora_os.Aser.DataType.{DataType, byte}
use aurora_os.Aser.Data
use aurora_os.Aser.Data.{Data, Integer, Float, Items, Pairs, Fields, serialize_enum_variant}
use aurora_os.Aser.Counter.{get_capability, count_capabilities}

pub record Serializer : Type 0 where
  pub capability_index : ℕ
  pub data_offset : ℕ
  pub buf : List ℕ

-- Serializer::new
unfoldable pub new : ℕ → Serializer
new num_capabilities =
    let buf = le_bytes 8 0 ++ replicate (num_capabilities * 8 % usize_mod) (byte DataType.filler) in
    record { capability_index = 1; data_offset = length buf; buf = buf }

-- `buf.extend_from_slice`
unfoldable pub extend : List ℕ → Serializer → Serializer
extend bytes s = record s { buf = s.buf ++ bytes }

unfoldable pub push_type : DataType → Serializer → Serializer
unfolding extend
push_type t = extend (byte t ∷ [])

-- push_u16 to push_u128, and the push of one byte, by the number of bytes.
unfoldable pub push_le : ℕ → ℕ → Serializer → Serializer
unfolding extend
push_le k val = extend (le_bytes k val)

-- `r.unwrap()`
abbrev pub unwrap {ℓ} : {A : Type ℓ} → Result A → Result A
unwrap (err e) = panic
unwrap r = r

unfoldable pub push_capability : ℕ → Serializer → Result Serializer
push_capability cap_id s = elim (leb s.data_offset (s.capability_index * 8 % usize_mod)) [
  | true ↦ err too_many_capabilities
  | false ↦ do
    buf ← unwrap (set_usize s.buf s.capability_index cap_id)
    cap_count ← unwrap (get_usize buf 0)
    buf' ← unwrap (set_usize buf 0 ((cap_count + 1) % usize_mod))
    ok (record s { buf = buf'; capability_index = (s.capability_index + 1) % usize_mod })
]

-- The type and the length of a text or of bytes, in as few bytes as hold the length.
unfoldable pub push_correct_size :
    ℕ → DataType → DataType → DataType → DataType → Serializer → Serializer
push_correct_size size t8 t16 t32 t64 s =
    if leb size 255
    then push_le 1 size (push_type t8 s)
    else if leb size 65535
    then push_le 2 size (push_type t16 s)
    else if leb size 4294967295
    then push_le 4 size (push_type t32 s)
    else push_le 8 size (push_type t64 s)

unfoldable pub serialize_bool : Bool → Serializer → Serializer
serialize_bool true = push_type DataType.true_type
serialize_bool false = push_type DataType.false_type

-- serialize_i8 to serialize_u128
unfoldable pub serialize_integer : Integer → Serializer → Serializer
serialize_integer (Data.i8 v) s = push_le 1 v (push_type DataType.i8 s)
serialize_integer (Data.i16 v) s = push_le 2 v (push_type DataType.i16 s)
serialize_integer (Data.i32 v) s = push_le 4 v (push_type DataType.i32 s)
serialize_integer (Data.i64 v) s = push_le 8 v (push_type DataType.i64 s)
serialize_integer (Data.i128 v) s = push_le 16 v (push_type DataType.i128 s)
serialize_integer (Data.u8 v) s = push_le 1 v (push_type DataType.u8 s)
serialize_integer (Data.u16 v) s = push_le 2 v (push_type DataType.u16 s)
serialize_integer (Data.u32 v) s = push_le 4 v (push_type DataType.u32 s)
serialize_integer (Data.u64 v) s = push_le 8 v (push_type DataType.u64 s)
serialize_integer (Data.u128 v) s = push_le 16 v (push_type DataType.u128 s)

unfoldable pub serialize_float : Float → Serializer → Serializer
serialize_float (Data.f32 v) s = push_le 4 v (push_type DataType.f32 s)
serialize_float (Data.f64 v) s = push_le 8 v (push_type DataType.f64 s)

unfoldable pub serialize_char : ℕ → Serializer → Serializer
serialize_char v s = push_le 4 v (push_type DataType.char s)

unfoldable pub serialize_str : List ℕ → Serializer → Serializer
serialize_str v s = extend v (
    push_correct_size (length v) DataType.string8 DataType.string16 DataType.string32
      DataType.string64 s)

unfoldable pub serialize_bytes : List ℕ → Serializer → Serializer
serialize_bytes v s = extend v (
    push_correct_size (length v) DataType.bytes8 DataType.bytes16 DataType.bytes32 DataType.bytes64
      s)

unfoldable pub serialize_unit : Serializer → Serializer
serialize_unit = push_type DataType.null

unfoldable pub serialize_unit_variant : ℕ → Serializer → Serializer
serialize_unit_variant variant_index s = push_le 4 variant_index (push_type DataType.variant s)

-- The start of a variant that holds data.
unfoldable pub start_variant : ℕ → Serializer → Serializer
start_variant variant_index s = push_le 4 variant_index (push_type DataType.variant_value s)

unfoldable pub serialize_seq : Serializer → Serializer
serialize_seq = push_type DataType.sequence_start

unfoldable pub serialize_map : Serializer → Serializer
serialize_map = push_type DataType.map_start

-- collect_str: the length is written when the text is.
unfoldable pub collect_str : List ℕ → Serializer → Serializer
collect_str value s =
    let s₁ = push_type DataType.string64 s in
    let size_index = length s₁.buf in
    let s₂ = push_le 8 0 s₁ in
    let start_write_index = length s₂.buf in
    let s₃ = extend value s₂ in
    let write_size = length s₃.buf - start_write_index in
    record s₃ {
      buf = take size_index s₃.buf ++ (le_bytes 8 write_size ++ drop start_write_index s₃.buf);
    }

-- serialize_newtype_variant of a capability: its place in the table, then its entry there.
unfoldable pub serialize_capability : Result ℕ → Serializer → Result Serializer
serialize_capability cap s =
    let index = (s.capability_index % 65536 + 65536 - 1) % 65536 in
    cap >>= λ cap_id. push_capability cap_id (push_le 2 index (push_type DataType.capability s))

unfoldable mutual
  pub serialize : Data → Serializer → Result Serializer
  serialize (Data.bool v) s = ok (serialize_bool v s)
  serialize (Data.integer v) s = ok (serialize_integer v s)
  serialize (Data.float v) s = ok (serialize_float v s)
  serialize (Data.char v) s = ok (serialize_char v s)
  serialize (Data.str v) s = ok (serialize_str v s)
  serialize (Data.bytes v) s = ok (serialize_bytes v s)
  serialize Data.unit s = ok (serialize_unit s)
  serialize Data.none_value s = ok (serialize_unit s)
  serialize (Data.some_value d) s = serialize d (push_type DataType.some_type s)
  serialize Data.unit_struct s = ok (serialize_unit s)
  serialize (Data.unit_variant variant_index) s = ok (serialize_unit_variant variant_index s)
  serialize (Data.newtype_struct d) s = serialize d (push_type DataType.newtype s)
  serialize (Data.newtype_variant variant_index d) s =
      if variant_index == serialize_enum_variant
      then serialize_capability (get_capability d) s
      else serialize d (start_variant variant_index s)
  serialize (Data.seq xs) s = serialize_elements xs (serialize_seq s)
  serialize (Data.tuple xs) s = serialize_elements xs (serialize_seq s)
  serialize (Data.tuple_struct xs) s = serialize_elements xs (serialize_seq s)
  serialize (Data.tuple_variant variant_index xs) s =
      serialize_elements xs (serialize_seq (start_variant variant_index s))
  serialize (Data.map ps) s = serialize_pairs ps (serialize_map s)
  serialize (Data.structure fs) s = serialize_fields fs (serialize_map s)
  serialize (Data.struct_variant variant_index fs) s =
      serialize_fields fs (serialize_map (start_variant variant_index s))
  serialize (Data.display v) s = ok (collect_str v s)

  pub serialize_elements : Items → Serializer → Result Serializer
  serialize_elements Data.no_items s = ok (push_type DataType.sequence_end s)
  serialize_elements (Data.item d xs) s = do s' ← serialize d s; serialize_elements xs s'

  pub serialize_pairs : Pairs → Serializer → Result Serializer
  serialize_pairs Data.no_pairs s = ok (push_type DataType.map_end s)
  serialize_pairs (Data.pair k d ps) s = do
    s' ← serialize k s
    s'' ← serialize d s'
    serialize_pairs ps s''

  pub serialize_fields : Fields → Serializer → Result Serializer
  serialize_fields Data.no_fields s = ok (push_type DataType.map_end s)
  serialize_fields (Data.field k d fs) s = do
    s' ← serialize d (collect_str k s)
    serialize_fields fs s'

unfoldable pub to_bytes : Data → ℕ → Result (List ℕ)
to_bytes d num_capabilities = do s ← serialize d (new num_capabilities); ok (Serializer.buf s)

unfoldable pub to_bytes_count_cap : Data → Result (List ℕ)
to_bytes_count_cap d = do num_capabilities ← count_capabilities d; to_bytes d num_capabilities
