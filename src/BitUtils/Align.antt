-- ===== src/BitUtils/Align.antt =====
-- align_up, align_down, align_of and page_aligned of userland/bit_utils/src/lib.rs.
use native.Mathlib.Nat.{pow-suc, div-add-mod, mod-lt, mod-one, pow-le-pow_right, mul-mod_left}
use native.Mathlib.Decide.{dec_lt}
use aurora_os.Prelude.{
  ℕ, zero, suc, ◌+◌, ◌-◌, ◌*◌, ◌/◌, ◌%◌, ◌^◌, ◌≤◌, ◌<◌, ◌≡◌, ◌↔◌, inl, inr, refl, arith, true,
  false, ◌==◌, Bool-cases, leb→le, leb_iff,
}
use aurora_os.Prelude.Bits.{bit_and-high_mask, mod-pow-suc}
use aurora_os.BitUtils.{IsUsize, align_down, align_up, page_aligned, lowest_bit, page_size}

-- A power of two that fits in a word.
pub pow-usize : (k : ℕ) → k < 64 → (1 ≤ 2 ^ k) × (2 ^ k ≤ 2 ^ 63)
pow-usize k h = (
  pow-le-pow_right {n = 2} (omega arith) {i = 0} {j = k} (omega arith),
  pow-le-pow_right {n = 2} (omega arith) {i = k} {j = 63} (omega arith),
)

pub align_down_lem :
    (addr k : ℕ) → IsUsize addr → k < 64 → align_down addr (2 ^ k) ≡ addr / 2 ^ k * 2 ^ k
unfolding align_down
align_down_lem addr k h hk =
    bit_and-high_mask k 64 addr _ (omega arith) (omega (arith, pow-usize k hk)) h

pub align_up_lem :
    (addr k : ℕ)
    → k < 64
    → addr + 2 ^ k ≤ 2 ^ 64
    → align_up addr (2 ^ k) ≡ (addr + (2 ^ k - 1)) / 2 ^ k * 2 ^ k
unfolding align_up
align_up_lem addr k hk fits =
    let start : (((addr + 2 ^ k) % 2 ^ 64 + 2 ^ 64 - 1) % 2 ^ 64) ≡ addr + (2 ^ k - 1) =
      omega (arith, pow-usize k hk) in
    rw start (
      bit_and-high_mask k 64 (addr + (2 ^ k - 1)) _ (omega arith) (omega (arith, pow-usize k hk))
        (omega (arith, pow-usize k hk)))

-- For a power of two align, align_down gives the greatest multiple of align that is at most addr.
pub align_down_greatest :
    (addr k : ℕ)
    → IsUsize addr
    → k < 64
    → (align_down addr (2 ^ k) ≤ addr)
      × (addr < align_down addr (2 ^ k) + 2 ^ k)
      × (align_down addr (2 ^ k) % 2 ^ k ≡ 0)
align_down_greatest addr k h hk =
    let whole = div-add-mod addr (2 ^ k) in
    let rest = mod-lt addr {m = 2 ^ k} (pow-usize k hk).0 in
    rw (align_down_lem addr k h hk)
      (omega (arith, whole, rest), omega (arith, whole, rest), mul-mod_left (addr / 2 ^ k) (2 ^ k))

-- Where addr + align does not overflow, for a power of two align, align_up gives the least
-- multiple of align that is at least addr.
pub align_up_least :
    (addr k : ℕ)
    → k < 64
    → addr + 2 ^ k ≤ 2 ^ 64
    → (addr ≤ align_up addr (2 ^ k))
      × (align_up addr (2 ^ k) < addr + 2 ^ k)
      × (align_up addr (2 ^ k) % 2 ^ k ≡ 0)
align_up_least addr k hk fits =
    let top = addr + (2 ^ k - 1) in
    let whole = div-add-mod top (2 ^ k) in
    let pos = (pow-usize k hk).0 in
    let rest = mod-lt top {m = 2 ^ k} pos in
    rw (align_up_lem addr k hk fits) (
      omega (arith, whole, rest, pos),
      omega (arith, whole, rest, pos),
      mul-mod_left (top / 2 ^ k) (2 ^ k),
    )

-- The lowest set bit is at least at `k` exactly for the multiples of `2 ^ k`.
lowest_bit-ge : (k fuel n : ℕ) → 0 < n → n < 2 ^ fuel → (k ≤ lowest_bit fuel n) ↔ (n % 2 ^ k ≡ 0)
unfolding lowest_bit
lowest_bit-ge zero fuel n pos lt = (λ _. mod-one n, λ _. omega arith)
lowest_bit-ge (suc k) zero n pos lt = absurd (omega arith)
lowest_bit-ge (suc k) (suc fuel) n pos lt = elim (Bool-cases (n % 2 == 1)) [
  | inl odd ↦
      rw (odd, lowest_bit)
        (λ h. absurd (omega arith), λ h. absurd (ground (arith, mod-pow-suc n k)))
  | inr even ↦
      let rest = lowest_bit-ge k fuel (n / 2) (ground arith) (ground (arith, pow-suc 2 fuel)) in
      rw (even, lowest_bit)
        (
          λ h. ground (arith, mod-pow-suc n k, rest.0 (omega arith)),
          λ h. suc-le (rest.1 (ground (arith, mod-pow-suc n k))),
        )
]
  where
    suc-le : {a b : ℕ} → a ≤ b → suc a ≤ suc b
    suc-le h = omega arith

pow-ge-page : (t : ℕ) → (page_size ≤ 2 ^ t) ↔ (12 ≤ t)
pow-ge-page t = (
  λ h. elim (dec_lt t 12) [
    | yes p ↦
        absurd
          (omega (arith, pow-le-pow_right {n = 2} (omega arith) {i = t} {j = 11} (omega arith)))
    | no p ↦ omega arith
  ],
  λ h. pow-le-pow_right {n = 2} (omega arith) {i = 12} {j = t} h,
)

-- page_aligned accepts a word exactly if it is a multiple of the page size.
pub page_aligned_iff :
    (addr : ℕ) → IsUsize addr → (page_aligned addr ≡ true) ↔ (addr % page_size ≡ 0)
unfolding page_aligned
page_aligned_iff zero h = (λ _. refl, λ _. refl)
page_aligned_iff (suc n) h =
    let t = lowest_bit 64 (suc n) in
    let nonzero : (suc n == 0) ≡ false = ground arith in
    let low = lowest_bit-ge 12 64 (suc n) (omega arith) h in
    rw nonzero (
      λ p. low.0 ((pow-ge-page t).0 (leb→le page_size (2 ^ t) p)),
      λ p. (leb_iff page_size (2 ^ t)).1 ((pow-ge-page t).1 (low.1 p)),
    )
