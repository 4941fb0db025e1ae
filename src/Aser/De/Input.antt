-- ===== src/Aser/De/Input.antt =====
-- The input of userland/aser/src/de.rs: a read takes bytes from its front, or fails and leaves it.
use aurora_os.Prelude.{
  ℕ, zero, suc, ◌==◌, Option, none, some, Bool, true, false, List, [], ◌∷◌, leb, if◌then◌else◌,
  length, take, drop,
}
use aurora_os.Aser.Result.{
  Result, AserError, ok, err, panic, out_of_fuel, end_of_input, invalid_data_type,
}
use aurora_os.Aser.Bytes.{from_le}
use aurora_os.Aser.DataType
use aurora_os.Aser.DataType.{DataType, byte}

-- What a read leaves of the input, and what it returns.
pub data Step {ℓ} (A : Type ℓ) : Type ℓ where
  step : List ℕ → Result A → Step A

abbrev pub Reader {ℓ} : Type ℓ → Type ℓ
Reader A = List ℕ → Step A

abbrev pub and_then {ℓ κ} : {A : Type ℓ} {B : Type κ} → Step A → (A → Reader B) → Step B
and_then (step s (ok a)) f = f a s
and_then (step s (err e)) f = step s (err e)
and_then (step s panic) f = step s panic
and_then (step s out_of_fuel) f = step s out_of_fuel

infixl 5 ◌>>=◌
abbrev pub ◌>>=◌ {ℓ κ} : {A : Type ℓ} {B : Type κ} → Reader A → (A → Reader B) → Reader B
(r >>= f) s = and_then (r s) f

abbrev pub returns {ℓ} : {A : Type ℓ} → A → Reader A
returns a s = step s (ok a)

abbrev pub fails {ℓ} : {A : Type ℓ} → AserError → Reader A
fails e s = step s (err e)

-- A value that a test of the library accepts, or the error.
abbrev pub or_fail {ℓ} : {A : Type ℓ} → Option A → AserError → Reader A
or_fail none e = fails e
or_fail (some a) e = returns a

unfoldable pub take_bytes : ℕ → Reader (List ℕ)
take_bytes num_bytes input =
    if leb num_bytes (length input)
    then step (drop num_bytes input) (ok (take num_bytes input))
    else step input (err end_of_input)

unfoldable pub take_u8 : Reader ℕ
take_u8 [] = step [] (err end_of_input)
take_u8 (b ∷ input) = step input (ok b)

-- take_u16 to take_u128, by the number of bytes.
unfoldable pub take_le : ℕ → Reader ℕ
take_le k = do bytes ← take_bytes k; returns (from_le bytes)

unfoldable pub take_data_type : Reader DataType
take_data_type = do b ← take_u8; or_fail (DataType.try_from b) invalid_data_type

unfoldable pub peek_data_type : Reader DataType
peek_data_type [] = step [] (err end_of_input)
peek_data_type (b ∷ input) = or_fail (DataType.try_from b) invalid_data_type (b ∷ input)

-- check_if_finished of a sequence or a map that `end` ends: it takes the end byte.
unfoldable pub check_if_finished : DataType → Reader Bool
check_if_finished end = do
  t ← peek_data_type
  if byte t == byte end then (do _ ← take_data_type; returns true) else returns false

-- A read that returns, then check_if_finished, whose error comes before that of the read.
unfoldable pub then_check {ℓ} : {A : Type ℓ} → DataType → Step A → Step (A × Bool)
then_check end (step s (ok a)) =
    and_then (check_if_finished end s) (λ finished s'. step s' (ok (a, finished)))
then_check end (step s (err e)) =
    and_then (check_if_finished end s) (λ finished s'. step s' (err e))
then_check end (step s panic) = step s panic
then_check end (step s out_of_fuel) = step s out_of_fuel

-- The words of a slice of 8-byte words.
unfoldable pub read_words : ℕ → List ℕ → List ℕ
read_words zero bytes = []
read_words (suc n) bytes = from_le (take 8 bytes) ∷ read_words n (drop 8 bytes)
