-- ===== src/Mem/Tests.antt =====
-- Two ranges, and the theorems at them.
use aurora_os.Prelude.{ℕ, ◌≡◌, refl, arith, not, ◌&&◌, ◌||◌, Option, some}
use aurora_os.KResult.{ok}
use aurora_os.BitUtils.{get_bits}
use aurora_os.Mem.Range.{
  Range, split_at, contains_range, end_addr, contains, add, sub, new, try_new, pieces,
}
use aurora_os.Mem.Range.Contains.{within, within?}
use aurora_os.Mem.Range.Split.{split_at-within}

-- Pages 1 to 8.
abbrev eight : Range
eight = record { addr = 4096; size = 32768 }

-- Pages 3 and 4.
abbrev two : Range
two = record { addr = 12288; size = 8192 }

-- Page 0 and the ones up to page 9.
abbrev around : Range
around = record { addr = 1; size = 40959 }

abbrev first : Range
first = record { addr = 0; size = 8192 }

split_at_run :
    split_at eight two
    ≡ ok (some (record { addr = 4096; size = 8192 }), some (record { addr = 20480; size = 16384 }))
unfolding split_at contains_range end_addr contains add sub new try_new get_bits pieces
split_at_run = refl

split_at-within_example :
    (a : Option Range) × (b : Option Range) × (split_at eight two ≡ ok (a, b))
    × ((x : ℕ) → (within? a x || within? b x) ≡ (within eight x && not (within two x)))
split_at-within_example =
    split_at-within eight two (omega arith) (omega arith) (omega arith) (λ e. omega arith)
      (λ lt. omega arith)
