-- ===== src/BitUtils.antt =====
-- userland/bit_utils/src/lib.rs and size.rs: alignment, bit fields and logarithms of 64 bit words.
-- `usize` is a number below 2 ^ 64; the arithmetic wraps, as in a release build. The `bsf` and `bsr`
-- instructions are the functions that count from the lowest and the highest set bit.
pub mod Align
pub mod Fields
pub mod Log
pub mod Size
mod Tests
use mathlib.Core.Option
use Prim.Native.Nat.{ℕ, zero, suc, ◌+◌, ◌-◌, ◌*◌, ◌/◌, ◌%◌, ◌^◌}
use aurora_os.Prelude.{
  bit_and, ltb, leb, ◌==◌, if◌then◌else◌, Bool, true, false, ◌<◌, Option, none, some,
}

abbrev pub usize_mod : ℕ
usize_mod = 2 ^ 64

abbrev pub IsUsize : ℕ → Type 0
IsUsize n = n < usize_mod

abbrev pub page_size : ℕ
page_size = 4096

-- `!n`
abbrev pub bit_not : ℕ → ℕ
bit_not n = usize_mod - 1 - n

-- `n << k` and `n >> k`
abbrev pub shl : ℕ → ℕ → ℕ
shl n k = n * 2 ^ k % usize_mod

abbrev pub shr : ℕ → ℕ → ℕ
shr n k = n / 2 ^ k

-- `a - b`, which wraps below 0.
abbrev pub wrapping_sub : ℕ → ℕ → ℕ
wrapping_sub a b = (a + usize_mod - b) % usize_mod

unfoldable pub align_down : ℕ → ℕ → ℕ
align_down addr align = bit_and addr (bit_not (wrapping_sub align 1))

unfoldable pub align_up : ℕ → ℕ → ℕ
align_up addr align =
    bit_and (wrapping_sub ((addr + align) % usize_mod) 1) (bit_not (wrapping_sub align 1))

-- The place of the lowest set bit, looked for in `fuel` places.
unfoldable pub lowest_bit : ℕ → ℕ → ℕ
lowest_bit zero n = 0
lowest_bit (suc fuel) n = elim (n % 2 == 1) [ true ↦ 0 | false ↦ suc (lowest_bit fuel (n / 2)) ]

-- The place of the highest set bit.
unfoldable pub highest_bit : ℕ → ℕ → ℕ
highest_bit zero n = 0
highest_bit (suc fuel) n = elim (ltb n 2) [ true ↦ 0 | false ↦ suc (highest_bit fuel (n / 2)) ]

unfoldable pub align_of : ℕ → ℕ
unfolding lowest_bit
align_of addr = if addr == 0 then 2 ^ 63 else 2 ^ lowest_bit 64 addr

unfoldable pub page_aligned : ℕ → Bool
unfolding align_of
page_aligned addr = leb page_size (align_of addr)

unfoldable pub get_bits : ℕ → ℕ → ℕ → ℕ
get_bits n start end =
    if end == 0
    then 0
    else (let l = if ltb 63 start then 63 else start in
        let h = if ltb 64 end then 63 else end - 1 in
        if ltb h l
        then 0
        else (let temp = if h == 63 then usize_mod - 1 else 2 ^ (h + 1) - 1 in
            shr (bit_and temp n) l))

unfoldable pub log2 : ℕ → ℕ
unfolding highest_bit
log2 n = if n == 0 then 0 else highest_bit 64 n

unfoldable pub log2_up : ℕ → ℕ
log2_up n = if n == 1 then 1 else log2 (align_up n (shl 1 (log2 n)))

-- `while get_bits(n, out..64) > 0 { out += 1; }`, `none` when the fuel runs out.
unfoldable pub log2_const_loop : ℕ → ℕ → ℕ → Option ℕ
log2_const_loop zero n out = none
log2_const_loop (suc fuel) n out = elim (ltb 0 (get_bits n out 64)) [
  | true ↦ log2_const_loop fuel n (out + 1)
  | false ↦ some out
]

-- The loop of `log2_const` with the given fuel.
unfoldable pub log2_const : ℕ → ℕ → Option ℕ
log2_const fuel n =
    if n == 0 then some 0 else Option.map (λ out. out - 1) (log2_const_loop fuel n 0)
