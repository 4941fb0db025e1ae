-- ===== src/Aser/DataType.antt =====
-- DataType of userland/aser/src/lib.rs: the byte before every serialized field.
use native.Mathlib.Omega.{arith}
use aurora_os.Prelude.{ℕ, Bool, true, false, Option, none, some, ◌==◌, ◌≡◌, refl, if◌then◌else◌}

pub data DataType : Type 0 where
  null true_type false_type i8 i16 i32 i64 i128 u8 u16 u32 u64 u128 f32 f64 char : DataType
  string8 string16 string32 string64 bytes8 bytes16 bytes32 bytes64 newtype some_type : DataType
  sequence_start sequence_end map_start map_end variant variant_value capability filler : DataType

-- `data_type as u8`
unfoldable pub byte : DataType → ℕ
byte null = 0
byte true_type = 1
byte false_type = 2
byte i8 = 3
byte i16 = 4
byte i32 = 5
byte i64 = 6
byte i128 = 7
byte u8 = 8
byte u16 = 9
byte u32 = 10
byte u64 = 11
byte u128 = 12
byte f32 = 13
byte f64 = 14
byte char = 15
byte string8 = 16
byte string16 = 17
byte string32 = 18
byte string64 = 19
byte bytes8 = 20
byte bytes16 = 21
byte bytes32 = 22
byte bytes64 = 23
byte newtype = 24
byte some_type = 25
byte sequence_start = 26
byte sequence_end = 27
byte map_start = 28
byte map_end = 29
byte variant = 30
byte variant_value = 31
byte capability = 32
byte filler = 255

-- `DataType::try_from`, which is derived from the numbers of the enumeration.
unfoldable pub try_from : ℕ → Option DataType
try_from n =
    if n == 0
    then some null
    else (if n == 1
        then some true_type
        else (if n == 2
            then some false_type
            else (if n == 3
                then some i8
                else (if n == 4
                    then some i16
                    else (if n == 5
                        then some i32
                        else (if n == 6
                            then some i64
                            else (if n == 7
                                then some i128
                                else (if n == 8
                                    then some u8
                                    else (if n == 9
                                        then some u16
                                        else (if n == 10
                                            then some u32
                                            else (if n == 11
                                                then some u64
                                                else (if n == 12
                                                    then some u128
                                                    else (if n == 13
                                                        then some f32
                                                        else (if n == 14
                                                            then some f64
                                                            else (if n == 15
                                                            then some char
                                                            else (if n == 16
                                                            then some string8
                                                            else (if n == 17
                                                            then some string16
                                                            else (if n == 18
                                                            then some string32
                                                            else (if n == 19
                                                            then some string64
                                                            else (if n == 20
                                                            then some bytes8
                                                            else (if n == 21
                                                            then some bytes16
                                                            else (if n == 22
                                                            then some bytes32
                                                            else (if n == 23
                                                            then some bytes64
                                                            else (if n == 24
                                                            then some newtype
                                                            else (if n == 25
                                                            then some some_type
                                                            else (if n == 26
                                                            then some sequence_start
                                                            else (if n == 27
                                                            then some sequence_end
                                                            else (if n == 28
                                                            then some map_start
                                                            else (if n == 29
                                                            then some map_end
                                                            else (if n == 30
                                                            then some variant
                                                            else (if n == 31
                                                            then some variant_value
                                                            else (if n == 32
                                                            then some capability
                                                            else (if n == 255
                                                            then some filler
                                                            else none)))))))))))))))))))))))))))))))))

pub try_from-byte : (t : DataType) → try_from (byte t) ≡ some t
unfolding try_from byte
try_from-byte null = refl
try_from-byte _ = refl

-- Whether a type that was read is the filler.
abbrev pub is_filler : Option DataType → Bool
is_filler (some filler) = true
is_filler _ = false

pub try_from-is_filler : (n : ℕ) → (n == 255) ≡ false → is_filler (try_from n) ≡ false
unfolding try_from
try_from-is_filler n h = ground arith
