-- ===== src/BitUtils/Log.antt =====
-- log2, log2_up and log2_const of userland/bit_utils/src/lib.rs.
use native.Mathlib.Nat.{pow-suc, pow-le-pow_right, div-add-mod, mod-lt, div-eq_of_lt, mod-eq_of_lt}
use native.Mathlib.Decide.{dec_lt, dec_le}
use aurora_os.Prelude.{
  ℕ, zero, suc, ◌+◌, ◌-◌, ◌*◌, ◌/◌, ◌%◌, ◌^◌, ◌≤◌, ◌<◌, ◌≡◌, ◌⊎◌, refl, arith, true, false,
  Bool-cases, ltb, ◌==◌, inl, inr, ap, lt→ltb, ◌∙◌, some, none,
}
use aurora_os.Prelude.Bits.{low_mask-bit_and}
use aurora_os.BitUtils.{
  IsUsize, highest_bit, align_up, get_bits, log2, log2_up, log2_const_loop, log2_const,
}
use aurora_os.BitUtils.Align.{align_up_least}
use aurora_os.BitUtils.Fields.{get_bits_lem}

highest_bit_bounds :
    (fuel n : ℕ)
    → 0 < n
    → n < 2 ^ fuel
    → (2 ^ highest_bit fuel n ≤ n) × (n < 2 ^ suc (highest_bit fuel n))
unfolding highest_bit
highest_bit_bounds zero n pos lt = absurd (omega arith)
highest_bit_bounds (suc fuel) n pos lt = elim (Bool-cases (ltb n 2)) [
  | inl one ↦ rw (one, highest_bit) (ground arith)
  | inr more ↦
      let rest = highest_bit_bounds fuel (n / 2) (ground arith) (ground (arith, pow-suc 2 fuel)) in
      let h = highest_bit fuel (n / 2) in
      rw (more, highest_bit) (omega (arith, rest, pow-suc 2 h, pow-suc 2 (suc h)))
]

-- `log2` is the logarithm rounded down.
pub log2_floor : (n : ℕ) → 0 < n → IsUsize n → (2 ^ log2 n ≤ n) × (n < 2 ^ suc (log2 n))
unfolding log2
log2_floor n pos lt =
    let nonzero : (n == 0) ≡ false = ground arith in rw nonzero (highest_bit_bounds 64 n pos lt)

-- Powers of two are ordered as their exponents.
pub pow-lt→lt : (i j : ℕ) → 2 ^ i < 2 ^ j → i < j
pow-lt→lt i j h = elim (dec_lt i j) [
  | yes p ↦ p
  | no p ↦
      absurd (omega (arith, pow-le-pow_right {n = 2} (omega arith) {i = j} {j = i} (omega arith)))
]

pub log2_unique : (n h : ℕ) → IsUsize n → 2 ^ h ≤ n → n < 2 ^ suc h → log2 n ≡ h
log2_unique n h word lo hi =
    let pos = pow-le-pow_right {n = 2} (omega arith) {i = 0} {j = h} (omega arith) in
    let (lo', hi') = log2_floor n (omega arith) word in
    let up = pow-lt→lt (log2 n) (suc h) (omega arith) in
    let down = pow-lt→lt h (suc (log2 n)) (omega arith) in omega arith

pub log2-lt : (n : ℕ) → 0 < n → IsUsize n → log2 n < 64
log2-lt n pos word = let (lo, hi) = log2_floor n pos word in pow-lt→lt (log2 n) 64 (omega arith)

one_or_two : (p q a : ℕ) → p * q ≡ a → p ≤ a → a < 3 * p → (q ≡ 1) ⊎ (q ≡ 2)
one_or_two p zero a e lo hi = absurd (omega arith)
one_or_two p (suc zero) a e lo hi = inl refl
one_or_two p (suc (suc zero)) a e lo hi = inr refl
one_or_two p (suc (suc (suc q))) a e lo hi = absurd (omega arith)

-- The address that `log2_up` takes the logarithm of is a power of two, and the least one.
round_up_pow :
    (n h : ℕ)
    → 2 ^ h ≤ n
    → n < 2 ^ suc h
    → n ≤ 2 ^ 63
    → (n ≤ 2 ^ log2 (align_up n (2 ^ h))) × (2 ^ log2 (align_up n (2 ^ h)) < 2 * n)
round_up_pow n h lo hi top =
    let small = pow-lt→lt h 64 (omega arith) in
    let p = 2 ^ h in
    let a = align_up n p in
    let (ge, lt, multiple) = align_up_least n h small (omega arith) in
    let quotient : p * (a / p) ≡ a = omega (arith, div-add-mod a p, multiple) in
    elim (one_or_two p (a / p) a quotient (omega arith) (omega (arith, pow-suc 2 h))) [
      | inl one ↦
          let exact : p ≡ a = omega (arith, quotient, ap (λ (t : ℕ). p * t) one) in
          rw (log2_unique a h (omega arith) (omega arith) (omega (arith, pow-suc 2 h)))
            (omega arith)
      | inr two ↦
          let exact : p * 2 ≡ a = omega (arith, quotient, ap (λ (t : ℕ). p * t) two) in
          rw
            (log2_unique a (suc h) (omega arith) (omega (arith, pow-suc 2 h))
              (omega (arith, pow-suc 2 h, pow-suc 2 (suc h))))
            (omega (arith, pow-suc 2 h))
    ]

-- For n from 2 to 2 ^ 63, 2 to the log2_up of n is the least power of two that is at least n.
pub log2_up_ceiling : (n : ℕ) → 2 ≤ n → n ≤ 2 ^ 63 → (n ≤ 2 ^ log2_up n) × (2 ^ log2_up n < 2 * n)
unfolding log2_up
log2_up_ceiling n lo hi =
    let many : (n == 1) ≡ false = ground arith in
    let (down, up) = log2_floor n (omega arith) (omega arith) in
    let step : 1 * 2 ^ log2 n % 2 ^ 64 ≡ 2 ^ log2 n = omega arith in
    rw (many, step) (round_up_pow n (log2 n) down up hi)

-- The test of `log2_const` below the highest bit.
get_bits-tail : (n out : ℕ) → IsUsize n → out < 64 → get_bits n out 64 ≡ n / 2 ^ out
get_bits-tail n out word lt =
    get_bits_lem n out 64 lt (omega arith) word ∙ ap (λ (t : ℕ). t / 2 ^ out) (mod-eq_of_lt word)

bit_left : (n h out : ℕ) → 2 ^ h ≤ n → out ≤ h → 0 < n / 2 ^ out
bit_left n h out lo le = elim (dec_lt 0 (n / 2 ^ out)) [
  | yes p ↦ p
  | no p ↦
      let none_left : n / 2 ^ out ≡ 0 = omega arith in
      let mono = pow-le-pow_right {n = 2} (omega arith) {i = out} {j = h} le in
      let pos = pow-le-pow_right {n = 2} (omega arith) {i = 0} {j = out} (omega arith) in
      absurd (
        omega (
          arith,
          div-add-mod n (2 ^ out),
          ap (λ (t : ℕ). 2 ^ out * t) none_left,
          mod-lt n {m = 2 ^ out} pos,
          mono,
        ))
]

loop_ends :
    (fuel n h out : ℕ)
    → 2 ^ h ≤ n
    → n < 2 ^ suc h
    → h < 63
    → out ≤ suc h
    → suc h < fuel + out
    → log2_const_loop fuel n out ≡ some (suc h)
unfolding log2_const_loop
loop_ends zero n h out lo hi lt le enough = absurd (omega arith)
loop_ends (suc fuel) n h out lo hi lt le enough =
    let word : IsUsize n =
      omega (arith, pow-le-pow_right {n = 2} (omega arith) {i = suc h} {j = 63} lt) in
    let test = get_bits-tail n out word (omega arith) in
    elim (dec_le out h) [
      | yes p ↦
          let goes_on : ltb 0 (get_bits n out 64) ≡ true =
            lt→ltb 0 _ (omega (arith, test, bit_left n h out lo p)) in
          rw (goes_on, log2_const_loop)
            (loop_ends fuel n h (out + 1) lo hi lt (omega arith) (omega arith))
      | no p ↦
          let last : out ≡ suc h = omega arith in
          let over : n / 2 ^ out ≡ 0 = rw last (div-eq_of_lt hi) in
          let stops : ltb 0 (get_bits n out 64) ≡ false = rw (test, over) refl in
          rw (stops, log2_const_loop) (ap some last)
    ]

-- Below 2 ^ 63 the loop of log2_const ends within 65 rounds, and the result is that of log2.
pub log2_const-log2 : (n : ℕ) → n < 2 ^ 63 → log2_const 65 n ≡ some (log2 n)
unfolding log2_const
log2_const-log2 zero h = unfold log2 in refl
log2_const-log2 (suc n) h =
    let nonzero : (suc n == 0) ≡ false = ground arith in
    let (lo, hi) = log2_floor (suc n) (omega arith) (omega arith) in
    let small = pow-lt→lt (log2 (suc n)) 63 (omega arith) in
    rw (nonzero, loop_ends 65 (suc n) (log2 (suc n)) 0 lo hi small (omega arith) (omega arith))
      (ap some (omega arith))

-- The range `64..64` still yields the highest bit: both of its ends are clamped to 63.
get_bits_past : (n out : ℕ) → IsUsize n → 64 ≤ out → get_bits n out 64 ≡ n / 2 ^ 63
unfolding get_bits
get_bits_past n out word ge =
    let clamped : ltb 63 out ≡ true = lt→ltb 63 out ge in
    rw clamped
      (ap (λ (t : ℕ). t / 2 ^ 63) (low_mask-bit_and 64 n (2 ^ 64 - 1) refl ∙ mod-eq_of_lt word))

top_bit_stays : (n out : ℕ) → IsUsize n → 2 ^ 63 ≤ n → ltb 0 (get_bits n out 64) ≡ true
top_bit_stays n out word top = elim (dec_lt out 64) [
  | yes p ↦
      lt→ltb 0 _ (omega (arith, get_bits-tail n out word p, bit_left n 63 out top (omega arith)))
  | no p ↦ lt→ltb 0 _ (omega (arith, get_bits_past n out word (omega arith)))
]

loop_goes_on : (fuel n out : ℕ) → IsUsize n → 2 ^ 63 ≤ n → log2_const_loop fuel n out ≡ none
unfolding log2_const_loop
loop_goes_on zero n out word top = refl
loop_goes_on (suc fuel) n out word top =
    rw (top_bit_stays n out word top, log2_const_loop) (loop_goes_on fuel n (out + 1) word top)

-- For a word from 2 ^ 63 on the loop of log2_const never ends: no fuel gives a result.
pub log2_const_diverges : (fuel n : ℕ) → IsUsize n → 2 ^ 63 ≤ n → log2_const fuel n ≡ none
unfolding log2_const
log2_const_diverges fuel n word top =
    let nonzero : (n == 0) ≡ false = ground arith in rw (nonzero, loop_goes_on fuel n 0 word top)
