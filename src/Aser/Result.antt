-- ===== src/Aser/Result.antt =====
-- AserError, with the error of a system call from AserCloneCapsError, and Result of
-- userland/aser/src/lib.rs. A panic and a reader that is out of fuel are
-- outcomes of their own.
use aurora_os.Prelude.{ℕ}

pub data AserError : Type 0 where
  serialize_message deserialize_message too_many_capabilities expected_capability : AserError
  multiple_capabilities formatting_error end_of_input invalid_data_type invalid_utf8 : AserError
  unexpected_terminator enum_unexpected_data invalid_capability_index : AserError
  invalid_capability_id trailing_input : AserError
  sys_err : ℕ → AserError

pub data Result {ℓ} (A : Type ℓ) : Type ℓ where
  ok : A → Result A
  err : AserError → Result A
  panic : Result A
  out_of_fuel : Result A

infixl 5 ◌>>=◌
abbrev pub ◌>>=◌ {ℓ κ} : {A : Type ℓ} {B : Type κ} → Result A → (A → Result B) → Result B
ok a >>= f = f a
err e >>= f = err e
panic >>= f = panic
out_of_fuel >>= f = out_of_fuel
