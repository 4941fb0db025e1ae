-- ===== src/BitUtils/Fields.antt =====
-- get_bits of userland/bit_utils/src/lib.rs.
use aurora_os.Prelude.{
  ℕ, ◌+◌, ◌-◌, ◌/◌, ◌%◌, ◌^◌, ◌≤◌, ◌<◌, ◌≡◌, arith, false, Bool-cases, ltb, ◌==◌, inl, inr, ap,
}
use aurora_os.Prelude.Bits.{low_mask-bit_and}
use aurora_os.BitUtils.{IsUsize, get_bits}
use aurora_os.BitUtils.Align.{pow-usize}

-- For start < end ≤ 64, get_bits of a word is its bits from start up to but without end, moved to
-- place 0.
pub get_bits_lem :
    (n start end : ℕ)
    → start < end
    → end ≤ 64
    → IsUsize n
    → get_bits n start end ≡ n % 2 ^ end / 2 ^ start
unfolding get_bits
get_bits_lem n start end lt le h =
    let nonempty : (end == 0) ≡ false = ground arith in
    let in_word : ltb 64 end ≡ false = ground arith in
    let low : ltb 63 start ≡ false = ground arith in
    let ordered : ltb (end - 1) start ≡ false = ground arith in
    rw (nonempty, in_word, low, ordered)
      (elim (Bool-cases (end - 1 == 63)) [
        | inl whole ↦
            let last : end ≡ 64 = ground arith in
            rw (whole, last)
              (ap (λ (t : ℕ). t / 2 ^ start) (low_mask-bit_and 64 n (2 ^ 64 - 1) (omega arith)))
        | inr part ↦
            let next : end - 1 + 1 ≡ end = omega arith in
            rw (part, next)
              (ap (λ (t : ℕ). t / 2 ^ start)
                (low_mask-bit_and end n (2 ^ end - 1)
                  (ground (arith, pow-usize end (ground arith)))))
      ])
