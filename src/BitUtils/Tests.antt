-- ===== src/BitUtils/Tests.antt =====
-- Runs of the functions of userland/bit_utils.
use aurora_os.Prelude.{◌≡◌, refl}
use aurora_os.BitUtils.{align_up, align_of, get_bits, log2, log2_up}

align_up_run : align_up 4097 4096 ≡ 8192
unfolding align_up
align_up_run = refl

align_of_run : align_of 24 ≡ 8
unfolding align_of
align_of_run = refl

get_bits_run : get_bits 0xabcd 4 12 ≡ 0xbc
unfolding get_bits
get_bits_run = refl

log2_run : log2 1000 ≡ 9
unfolding log2
log2_run = refl

-- The logarithm of 1, rounded up, comes out as 1.
log2_up_one : log2_up 1 ≡ 1
unfolding log2_up
log2_up_one = refl
