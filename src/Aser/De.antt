-- ===== src/Aser/De.antt =====
-- userland/aser/src/de.rs: `from_bytes`, which reads a value from bytes.
pub mod Input
pub mod Call
pub mod Visitor
pub mod Reads
pub mod Calls
pub mod Starts
pub mod Values
pub mod Within
pub mod CallWithin
pub mod Total
use aurora_os.Prelude.{ℕ, ◌+◌, ◌*◌, ◌/◌, ◌%◌, List, [], ◌∷◌, length}
use aurora_os.BitUtils.{usize_mod}
use aurora_os.Aser.Result.{Result, ok, err, panic, out_of_fuel, trailing_input}
use aurora_os.Aser.Bytes.{from_le}
use aurora_os.Aser.Value.{Value, OrderedMap}
use aurora_os.Aser.De.Input.{Step, step, Reader, ◌>>=◌, and_then, returns, take_bytes, read_words}
use aurora_os.Aser.De.Call.{Text, deserialize_any}
use aurora_os.Aser.De.Visitor.{Primitive, visit}

-- Deserializer::from_bytes: the table of capabilities.
unfoldable pub take_capabilities : Reader (List ℕ)
take_capabilities = do
  num_capabilities ← take_bytes 8
  capabilities ← take_bytes (8 * from_le num_capabilities % usize_mod)
  returns (read_words (length capabilities / 8) capabilities)

-- The outcome of a read, which has to leave no input.
unfoldable pub finish {ℓ} : {A : Type ℓ} → Step A → Result A
finish (step [] (ok a)) = ok a
finish (step (b ∷ input) (ok a)) = err trailing_input
finish (step input (err e)) = err e
finish (step input panic) = panic
finish (step input out_of_fuel) = out_of_fuel

module _ ⦃text : Text⦄ ⦃om : OrderedMap⦄ ⦃prim : Primitive⦄ where
  unfoldable pub from_bytes : List ℕ → Result Value
  from_bytes bytes = finish (
      (do
        capabilities ← take_capabilities
        call ← deserialize_any capabilities
        visit capabilities (2 * length bytes + 2) call)
        bytes)
