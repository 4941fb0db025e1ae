-- ===== src/Aser/De/Within.antt =====
-- Reads of userland/aser/src/de.rs, and how much of the input they leave.
use aurora_os.Prelude.{
  ℕ, zero, suc, ◌+◌, ◌==◌, ◌≤◌, ◌≡◌, arith, Bool, List, [], ◌∷◌, length, drop, leb, leb_iff,
  if_cases, Option, none, some,
}
use aurora_os.Aser.Result.{AserError, ok, err, panic, out_of_fuel}
use aurora_os.Aser.DataType
use aurora_os.Aser.DataType.{DataType, byte, is_filler, try_from-is_filler}
use aurora_os.Aser.Data
use aurora_os.Aser.Data.{serialize_enum_variant}
use aurora_os.Aser.De.Input.{
  Step, step, Reader, and_then, or_fail, take_bytes, take_u8, take_le, take_data_type,
  peek_data_type, check_if_finished, then_check,
}
use aurora_os.Aser.De.Call.{Call, integer_call, bytes_call, end_call}

-- A read that ends without a panic, and that leaves at most `m` bytes when it succeeds.
unfoldable pub Within {ℓ} : {A : Type ℓ} → ℕ → Step A → Type 0
Within m (step s (ok a)) = length s ≤ m
Within m (step s (err e)) = Unit
Within m (step s panic) = ¬ Unit
Within m (step s out_of_fuel) = ¬ Unit

pub and_then-Within {ℓ κ} :
    {A : Type ℓ} {B : Type κ} (m k : ℕ) (t : Step A) (f : A → Reader B)
    → Within m t
    → ((a : A) (s : List ℕ) → length s ≤ m → Within k (f a s))
    → Within k (and_then t f)
unfolding Within
and_then-Within m k (step s (ok a)) f h g = g a s h
and_then-Within m k (step s (err e)) f h g = tt
and_then-Within m k (step s panic) f h g = absurd (h tt)
and_then-Within m k (step s out_of_fuel) f h g = absurd (h tt)

pub or_fail-Within {ℓ} :
    {A : Type ℓ} (m : ℕ) (o : Option A) (e : AserError) (s : List ℕ)
    → length s ≤ m
    → Within m (or_fail o e s)
unfolding Within
or_fail-Within m none e s h = tt
or_fail-Within m (some a) e s h = h

pub length-drop : (n : ℕ) (s : List ℕ) → n ≤ length s → length (drop n s) + n ≡ length s
length-drop zero s h = omega arith
length-drop (suc n) [] h = absurd (omega arith)
length-drop (suc n) (b ∷ s) h = omega (arith, length-drop n s (omega arith))

pub Within-mono {ℓ} : {A : Type ℓ} (m k : ℕ) (t : Step A) → m ≤ k → Within m t → Within k t
unfolding Within
Within-mono m k (step s (ok a)) le h = omega (arith, le, h)
Within-mono m k (step s (err e)) le h = tt
Within-mono m k (step s panic) le h = absurd (h tt)
Within-mono m k (step s out_of_fuel) le h = absurd (h tt)

pub take_bytes-Within : (k m : ℕ) (s : List ℕ) → length s ≤ k + m → Within m (take_bytes k s)
unfolding take_bytes Within
take_bytes-Within k m s h =
    if_cases (Within m) (leb k (length s))
      (λ b. omega (arith, length-drop k s ((leb_iff _ _).0 b), h)) (λ _. tt)

pub take_le-Within : (k m : ℕ) (s : List ℕ) → length s ≤ k + m → Within m (take_le k s)
unfolding take_le Within
take_le-Within k m s h =
    and_then-Within m m (take_bytes k s) _ (take_bytes-Within k m s h) (λ a s' h'. h')

pub take_data_type-Within : (m : ℕ) (s : List ℕ) → length s ≤ suc m → Within m (take_data_type s)
unfolding take_data_type take_u8 Within
take_data_type-Within m [] h = tt
take_data_type-Within m (b ∷ s) h = or_fail-Within m (DataType.try_from b) _ s (omega arith)

pub check_if_finished-Within :
    (end : DataType) (m : ℕ) (s : List ℕ) → length s ≤ m → Within m (check_if_finished end s)
unfolding check_if_finished peek_data_type Within
check_if_finished-Within end m [] h = tt
check_if_finished-Within end m (b ∷ s) h =
    and_then-Within m m (or_fail (DataType.try_from b) _ (b ∷ s)) _
      (or_fail-Within m (DataType.try_from b) _ (b ∷ s) h)
      (λ t s' h'.
        if_cases (λ (r : Reader Bool). Within m (r s')) (byte t == byte end)
          (λ _.
            and_then-Within m m (take_data_type s') _ (take_data_type-Within m s' (omega arith))
              (λ _ s'' h''. h''))
          (λ _. h'))

pub then_check-Within {ℓ} :
    {A : Type ℓ} (end : DataType) (m : ℕ) (t : Step A) → Within m t → Within m (then_check end t)
unfolding then_check Within
then_check-Within end m (step s (ok a)) h =
    and_then-Within m m (check_if_finished end s) _ (check_if_finished-Within end m s h)
      (λ f s' h'. h')
then_check-Within end m (step s (err e)) h =
    and_then-Within (length s) m (check_if_finished end s) _
      (check_if_finished-Within end (length s) s (omega arith)) (λ f s' h'. tt)
then_check-Within end m (step s panic) h = absurd (h tt)
then_check-Within end m (step s out_of_fuel) h = absurd (h tt)

pub integer_call-Within :
    (k : ℕ) (con : ℕ → Data.Integer) (m : ℕ) (s : List ℕ)
    → length s ≤ m
    → Within m (integer_call k con s)
unfolding integer_call Within
integer_call-Within k con m s h =
    and_then-Within m m (take_le k s) _ (take_le-Within k m s (omega arith)) (λ _ s' h'. h')

pub bytes_call-Within : (k m : ℕ) (s : List ℕ) → length s ≤ m → Within m (bytes_call k s)
unfolding bytes_call Within
bytes_call-Within k m s h =
    and_then-Within m m (take_le k s) _ (take_le-Within k m s (omega arith)) (λ n s' h'.
      and_then-Within m m (take_bytes n s') _ (take_bytes-Within n m s' (omega arith))
        (λ _ s'' h''. h''))

pub end_call-Within :
    (end : DataType) (con : Bool → Call) (m : ℕ) (s : List ℕ)
    → length s ≤ m
    → Within m (end_call end con s)
unfolding end_call Within
end_call-Within end con m s h =
    and_then-Within m m (check_if_finished end s) _ (check_if_finished-Within end m s h)
      (λ _ s' h'. h')
