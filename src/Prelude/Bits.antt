-- ===== src/Prelude/Bits.antt =====
-- Laws of `bit_and` and `bit_or` on words of any width, from their lowest digits.
use Prim.Native.Nat.{
  ℕ, zero, suc, ◌+◌, ◌*◌, ◌/◌, ◌%◌, ◌^◌, ◌≤◌, ◌<◌, min, max, bit_and, bit_or, digits,
  bit_and-bitwise, bit_or-bitwise,
}
use mathlib.Core.Path.{◌≡◌, refl, sym, ap, ◌∙◌}
use native.Mathlib.Nat.{pow-suc, pow-succ', div-div-eq-div-mul, div-add-mod, mod-eq_of_lt, div-one}
use native.Mathlib.Omega.{arith}

-- The count of digits to go may be any number that is at least the first word.
module _ (z : ℕ → ℕ) (f : ℕ → ℕ → ℕ) where
  digits_enough : (n m a b : ℕ) → a ≤ n → a ≤ m → digits z f n a b ≡ digits z f m a b
  digits_enough zero zero a b p q = refl
  digits_enough zero (suc m) zero b p q = refl
  digits_enough (suc n) zero zero b p q = refl
  digits_enough (suc n) (suc m) zero b p q = refl
  digits_enough zero m (suc a) b p q = absurd (omega arith)
  digits_enough n zero (suc a) b p q = absurd (omega arith)
  digits_enough (suc n) (suc m) (suc a) b p q =
      let tails = digits_enough n m (suc a / 2) (b / 2) (omega arith) (omega arith) in
      ap (λ t. t * 2 + f (suc a % 2) (b % 2)) tails

-- The lowest digit apart, if the first word is not 0.
bit_and_digit : (a b : ℕ) → 0 < a → bit_and a b ≡ bit_and (a / 2) (b / 2) * 2 + min (a % 2) (b % 2)
bit_and_digit zero b h = absurd (omega arith)
bit_and_digit (suc a) b h =
    let tails =
      digits_enough (λ _. 0) min a (suc a / 2) (suc a / 2) (b / 2) (omega arith) (omega arith) in
    omega (arith, bit_and-bitwise (suc a) b, bit_and-bitwise (suc a / 2) (b / 2), tails)

bit_or_digit : (a b : ℕ) → 0 < a → bit_or a b ≡ bit_or (a / 2) (b / 2) * 2 + max (a % 2) (b % 2)
bit_or_digit zero b h = absurd (omega arith)
bit_or_digit (suc a) b h =
    let tails =
      digits_enough (λ c. c) max a (suc a / 2) (suc a / 2) (b / 2) (omega arith) (omega arith) in
    omega (arith, bit_or-bitwise (suc a) b, bit_or-bitwise (suc a / 2) (b / 2), tails)

bit_and_step : (a b : ℕ) → bit_and a b ≡ bit_and (a / 2) (b / 2) * 2 + min (a % 2) (b % 2)
bit_and_step zero b = omega (arith, bit_and-bitwise 0 b, bit_and-bitwise 0 (b / 2))
bit_and_step (suc a) b = bit_and_digit (suc a) b (omega arith)

bit_or_step : (a b : ℕ) → bit_or a b ≡ bit_or (a / 2) (b / 2) * 2 + max (a % 2) (b % 2)
bit_or_step zero b = omega (arith, bit_or-bitwise 0 b, bit_or-bitwise 0 (b / 2))
bit_or_step (suc a) b = bit_or_digit (suc a) b (omega arith)

no_common_digits : (n a : ℕ) → digits (λ _. 0) min n a 0 ≡ 0
no_common_digits zero a = refl
no_common_digits (suc n) zero = refl
no_common_digits (suc n) (suc a) = omega (arith, no_common_digits n (suc a / 2))

bit_and-zero : (a : ℕ) → bit_and a 0 ≡ 0
bit_and-zero a = omega (arith, bit_and-bitwise a 0, no_common_digits a a)

bit_or_even : (a c : ℕ) → bit_or a (c * 2) ≡ bit_or (a / 2) c * 2 + a % 2
bit_or_even a c =
    let half : c * 2 / 2 ≡ c = omega arith in
    let step : bit_or a (c * 2) ≡ bit_or (a / 2) c * 2 + max (a % 2) (c * 2 % 2) =
      rw half at (bit_or_step a (c * 2)) in
    omega (arith, step)

bit_and_odd : (a c : ℕ) → bit_and a (c * 2 + 1) ≡ bit_and (a / 2) c * 2 + a % 2
bit_and_odd a c =
    let half : (c * 2 + 1) / 2 ≡ c = omega arith in
    let step : bit_and a (c * 2 + 1) ≡ bit_and (a / 2) c * 2 + min (a % 2) ((c * 2 + 1) % 2) =
      rw half at (bit_and_step a (c * 2 + 1)) in
    omega (arith, step)

bit_and_even : (a c : ℕ) → bit_and a (c * 2) ≡ bit_and (a / 2) c * 2
bit_and_even a c =
    let half : c * 2 / 2 ≡ c = omega arith in
    let step : bit_and a (c * 2) ≡ bit_and (a / 2) c * 2 + min (a % 2) (c * 2 % 2) =
      rw half at (bit_and_step a (c * 2)) in
    omega (arith, step)

pub div-pow-suc : (a k : ℕ) → a / 2 ^ suc k ≡ a / 2 / 2 ^ k
div-pow-suc a k = rw (pow-succ' 2 k) (sym (div-div-eq-div-mul a 2 (2 ^ k)))

pub mod-pow-suc : (a k : ℕ) → a % 2 ^ suc k ≡ a / 2 % 2 ^ k * 2 + a % 2
mod-pow-suc a k = omega (
  arith,
  div-add-mod a (2 ^ suc k),
  div-add-mod (a / 2) (2 ^ k),
  ap (λ (t : ℕ). 2 ^ suc k * t) (div-pow-suc a k),
  ap (λ (t : ℕ). t * (a / 2 / 2 ^ k)) (pow-suc 2 k),
)

-- Fields that do not overlap: `a | (b << k)` adds.
pub bit_or-shifted : (k a b : ℕ) → a < 2 ^ k → bit_or a (b * 2 ^ k) ≡ a + b * 2 ^ k
bit_or-shifted zero zero b h = omega (arith, bit_or-bitwise 0 (b * 1))
bit_or-shifted zero (suc a) b h = absurd (omega arith)
bit_or-shifted (suc k) a b h =
    let twice : b * 2 ^ suc k ≡ b * 2 ^ k * 2 =
      omega (arith, ap (λ (t : ℕ). b * t) (pow-suc 2 k)) in
    rw twice (
      omega
        (arith, bit_or_even a (b * 2 ^ k), bit_or-shifted k (a / 2) b (omega (arith, pow-suc 2 k))))

-- The mask of the k lowest bits.
pub bit_and-low_mask : (k a m : ℕ) → m + 1 ≡ 2 ^ k → bit_and a m ≡ a % 2 ^ k
bit_and-low_mask zero a m h =
    let none_left : m ≡ 0 = omega arith in rw none_left (omega (arith, bit_and-zero a))
bit_and-low_mask (suc k) a m h =
    let odd : m ≡ m / 2 * 2 + 1 = omega (arith, pow-suc 2 k) in
    let rest : bit_and (a / 2) (m / 2) ≡ a / 2 % 2 ^ k =
      bit_and-low_mask k (a / 2) (m / 2) (omega (arith, pow-suc 2 k)) in
    omega (arith, ap (bit_and a) odd, bit_and_odd a (m / 2), rest, mod-pow-suc a k)

-- The mask of all bits of a w-bit word but the k lowest.
pub bit_and-high_mask :
    (k w a m : ℕ) → k ≤ w → m + 2 ^ k ≡ 2 ^ w → a < 2 ^ w → bit_and a m ≡ a / 2 ^ k * 2 ^ k
bit_and-high_mask zero w a m kw h lt =
    omega (arith, bit_and-low_mask w a m h, mod-eq_of_lt lt, div-one a)
bit_and-high_mask (suc k) zero a m kw h lt = absurd (omega arith)
bit_and-high_mask (suc k) (suc w) a m kw h lt =
    let even : m ≡ m / 2 * 2 = omega (arith, pow-suc 2 k, pow-suc 2 w) in
    let rest : bit_and (a / 2) (m / 2) ≡ a / 2 / 2 ^ k * 2 ^ k =
      bit_and-high_mask k w (a / 2) (m / 2) (omega arith) (omega (arith, pow-suc 2 k, pow-suc 2 w))
        (omega (arith, pow-suc 2 w)) in
    omega (
      arith,
      ap (bit_and a) even,
      bit_and_even a (m / 2),
      rest,
      ap (λ (t : ℕ). t * 2 ^ suc k) (div-pow-suc a k),
      ap (λ (t : ℕ). a / 2 / 2 ^ k * t) (pow-suc 2 k),
    )

pub bit_and_comm : (fuel a b : ℕ) → a ≤ fuel → bit_and a b ≡ bit_and b a
bit_and_comm fuel zero b h = bit_and-bitwise 0 b ∙ sym (bit_and-zero b)
bit_and_comm zero (suc a) b h = absurd (omega arith)
bit_and_comm (suc fuel) (suc a) b h = omega (
  arith,
  bit_and_step (suc a) b,
  bit_and_step b (suc a),
  bit_and_comm fuel (suc a / 2) (b / 2) (omega arith),
)

-- The mask of the k lowest bits, as the first operand.
pub low_mask-bit_and : (k a m : ℕ) → m + 1 ≡ 2 ^ k → bit_and m a ≡ a % 2 ^ k
low_mask-bit_and k a m h = bit_and_comm m m a (omega arith) ∙ bit_and-low_mask k a m h

-- What `a & b` leaves of `a` is contained in `a`.
pub bit_and-contained : (fuel a b : ℕ) → a ≤ fuel → bit_and a (bit_and a b) ≡ bit_and a b
bit_and-contained fuel zero b h = bit_and-bitwise 0 (bit_and 0 b) ∙ sym (bit_and-bitwise 0 b)
bit_and-contained zero (suc a) b h = absurd (omega arith)
bit_and-contained (suc fuel) (suc a) b h =
    let low = suc a % 2 in
    let c = bit_and (suc a / 2) (b / 2) in
    let step = bit_and_step (suc a) b in
    let half : bit_and (suc a) b / 2 ≡ c = omega (arith, step) in
    let rest = bit_and-contained fuel (suc a / 2) (b / 2) (omega arith) in
    omega
      (arith, step, bit_and_step (suc a) (bit_and (suc a) b), ap (bit_and (suc a / 2)) half, rest)

pub bit_and-le : (fuel a b : ℕ) → a ≤ fuel → bit_and a b ≤ a
bit_and-le fuel zero b h = omega (arith, bit_and-bitwise 0 b)
bit_and-le zero (suc a) b h = absurd (omega arith)
bit_and-le (suc fuel) (suc a) b h =
    omega (arith, bit_and_step (suc a) b, bit_and-le fuel (suc a / 2) (b / 2) (omega arith))
