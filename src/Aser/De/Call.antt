-- ===== src/Aser/De/Call.antt =====
-- `deserialize_any` of userland/aser/src/de.rs: the bytes up to the call of a visitor, and the call.
use aurora_os.Prelude.{ℕ, ◌==◌, Bool, true, false, List, [], ◌∷◌, get_elem?, if◌then◌else◌}
use aurora_os.Aser.Result.{panic, invalid_utf8, unexpected_terminator, invalid_capability_index}
use aurora_os.Aser.DataType.{DataType, byte}
use aurora_os.Aser.Data
use aurora_os.Aser.Data.{Integer, Float}
use aurora_os.Aser.De.Input.{
  step, Reader, ◌>>=◌, returns, fails, or_fail, take_bytes, take_le, take_data_type,
  check_if_finished,
}

-- Rust's tests of bytes and of numbers: `str::from_utf8`, `char::try_from`.
pub record Text : Type 0 where
  pub is_utf8 : List ℕ → Bool
  pub is_char : ℕ → Bool

-- The methods of a visitor that the reader calls.
pub data Call : Type 0 where
  visit_unit : Call
  visit_bool : Bool → Call
  visit_integer : Integer → Call
  visit_float : Float → Call
  visit_char : ℕ → Call
  visit_str visit_bytes : List ℕ → Call
  visit_newtype_struct visit_some : Call
  -- whether the end was read already
  visit_seq visit_map : Bool → Call
  -- whether the variant has data
  visit_enum : Bool → Call
  visit_capability : ℕ → Call

unfoldable pub integer_call : ℕ → (ℕ → Integer) → Reader Call
integer_call k con = do n ← take_le k; returns (visit_integer (con n))

unfoldable pub bytes_call : ℕ → Reader Call
bytes_call k = do num_bytes ← take_le k; bytes ← take_bytes num_bytes; returns (visit_bytes bytes)

unfoldable pub end_call : DataType → (Bool → Call) → Reader Call
end_call end con = do finished ← check_if_finished end; returns (con finished)

-- `while let DataType::Filler = self.peek_data_type()?`
unfoldable pub skip_filler : List ℕ → List ℕ
skip_filler [] = []
skip_filler (b ∷ input) =
    let rest = skip_filler input in if b == byte DataType.filler then rest else b ∷ input

module _ ⦃text : Text⦄ where
  unfoldable pub take_str : ℕ → Reader (List ℕ)
  take_str num_bytes = do
    bytes ← take_bytes num_bytes
    if text.is_utf8 bytes then returns bytes else fails invalid_utf8

  unfoldable pub str_call : ℕ → Reader Call
  str_call k = do num_bytes ← take_le k; s ← take_str num_bytes; returns (visit_str s)

  unfoldable pub char_call : Reader Call
  char_call = do
    n ← take_le 4
    if text.is_char n then returns (visit_char n) else fails invalid_utf8

  module _ (capabilities : List ℕ) where
    unfoldable pub capability_call : Reader Call
    capability_call = do
      index ← take_le 2
      value ← or_fail (get_elem? capabilities index) invalid_capability_index
      returns (visit_capability value)

    -- The match on the type.
    unfoldable pub call_of : DataType → Reader Call
    call_of DataType.filler = λ s. step s panic
    call_of DataType.null = returns visit_unit
    call_of DataType.true_type = returns (visit_bool true)
    call_of DataType.false_type = returns (visit_bool false)
    call_of DataType.i8 = integer_call 1 Data.i8
    call_of DataType.i16 = integer_call 2 Data.i16
    call_of DataType.i32 = integer_call 4 Data.i32
    call_of DataType.i64 = integer_call 8 Data.i64
    call_of DataType.i128 = integer_call 16 Data.i128
    call_of DataType.u8 = integer_call 1 Data.u8
    call_of DataType.u16 = integer_call 2 Data.u16
    call_of DataType.u32 = integer_call 4 Data.u32
    call_of DataType.u64 = integer_call 8 Data.u64
    call_of DataType.u128 = integer_call 16 Data.u128
    call_of DataType.f32 = do n ← take_le 4; returns (visit_float (Data.f32 n))
    call_of DataType.f64 = do n ← take_le 8; returns (visit_float (Data.f64 n))
    call_of DataType.char = char_call
    call_of DataType.string8 = str_call 1
    call_of DataType.string16 = str_call 2
    call_of DataType.string32 = str_call 4
    call_of DataType.string64 = str_call 8
    call_of DataType.bytes8 = bytes_call 1
    call_of DataType.bytes16 = bytes_call 2
    call_of DataType.bytes32 = bytes_call 4
    call_of DataType.bytes64 = bytes_call 8
    call_of DataType.newtype = returns visit_newtype_struct
    call_of DataType.some_type = returns visit_some
    call_of DataType.sequence_start = end_call DataType.sequence_end visit_seq
    call_of DataType.sequence_end = fails unexpected_terminator
    call_of DataType.map_start = end_call DataType.map_end visit_map
    call_of DataType.map_end = fails unexpected_terminator
    call_of DataType.variant = returns (visit_enum false)
    call_of DataType.variant_value = returns (visit_enum true)
    call_of DataType.capability = capability_call

    unfoldable pub deserialize_any : Reader Call
    deserialize_any input = (take_data_type >>= call_of) (skip_filler input)
