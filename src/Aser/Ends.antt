-- ===== src/Aser/Ends.antt =====
-- `from_bytes` of userland/aser/src/de.rs on inputs that no serializer need have written.
use aurora_os.Prelude.{ℕ, ◌+◌, ◌*◌, ◌%◌, ◌≢◌, ◌≤◌, subst, arith, List, [], ◌∷◌, length}
use aurora_os.BitUtils.{usize_mod}
use aurora_os.Aser.Result.{Result, ok, err, panic, out_of_fuel}
use aurora_os.Aser.Bytes.{from_le}
use aurora_os.Aser.Value.{OrderedMap}
use aurora_os.Aser.De.{take_capabilities, finish, from_bytes}
use aurora_os.Aser.De.Input.{Step, step, take_bytes}
use aurora_os.Aser.De.Call.{Text, deserialize_any}
use aurora_os.Aser.De.Visitor.{Primitive, visit}
use aurora_os.Aser.De.Within.{Within, and_then-Within, take_bytes-Within}
use aurora_os.Aser.De.CallWithin.{deserialize_any-Within}
use aurora_os.Aser.De.Total.{visit-Within}

Answers {ℓ} : {A : Type ℓ} → Result A → Type 0
Answers (ok a) = Unit
Answers (err e) = Unit
Answers panic = ¬ Unit
Answers out_of_fuel = ¬ Unit

finish-Answers {ℓ} : {A : Type ℓ} (m : ℕ) (t : Step A) → Within m t → Answers (finish t)
unfolding finish Within Answers
finish-Answers m (step [] (ok a)) h = tt
finish-Answers m (step (b ∷ s) (ok a)) h = tt
finish-Answers m (step s (err e)) h = tt
finish-Answers m (step s panic) h = h
finish-Answers m (step s out_of_fuel) h = h

take_capabilities-Within : (m : ℕ) (s : List ℕ) → length s ≤ m → Within m (take_capabilities s)
unfolding take_capabilities Within
take_capabilities-Within m s h =
    and_then-Within m m (take_bytes 8 s) _ (take_bytes-Within 8 m s (omega (arith, h))) (λ n s' h'.
      and_then-Within m m (take_bytes (8 * from_le n % usize_mod) s') _
        (take_bytes-Within (8 * from_le n % usize_mod) m s' (omega (arith, h'))) (λ _ s'' h''. h''))

module _ ⦃txt : Text⦄ ⦃om : OrderedMap⦄ ⦃prim : Primitive⦄ where
  from_bytes-Answers : (bytes : List ℕ) → Answers (from_bytes bytes)
  unfolding from_bytes
  from_bytes-Answers bytes =
      let m = length bytes in
      finish-Answers m _ (
        and_then-Within m m (take_capabilities bytes) _
          (take_capabilities-Within m bytes (omega arith))
          (λ table s h.
            and_then-Within m m (deserialize_any table s) (visit table (2 * m + 2))
              (deserialize_any-Within table m s (omega (arith, h)))
              (λ call s' h'. visit-Within table (2 * m + 2) call m s' h' (omega arith))))

  -- On every input, also one that no serializer wrote, from_bytes comes to an end within its fuel
  -- and without a panic: it answers with a value or an error.
  pub from_bytes_answers :
      (bytes : List ℕ) → (from_bytes bytes ≢ panic) × (from_bytes bytes ≢ out_of_fuel)
  unfolding Answers
  from_bytes_answers bytes = (
    λ e. (subst Answers e (from_bytes-Answers bytes)) tt,
    λ e. (subst Answers e (from_bytes-Answers bytes)) tt,
  )
