-- ===== src/Mem/PageTests.antt =====
-- Ranges and layouts of pages at small numbers.
use aurora_os.Prelude.{none, ◌+◌, ◌^◌, ◌<◌, ◌≡◌, ◌⊎◌, refl, arith, none, some}
use aurora_os.KResult.{ok}
use aurora_os.BitUtils.{align_up}
use aurora_os.Mem.Range.{Range}
use aurora_os.Mem.Aligned.{take_layout}
use aurora_os.Mem.Aligned.Bounds.{Takes, take_layout-Takes}
use aurora_os.Mem.PageLayout.{overflows, new_rounded}

-- A range that begins in the middle of a page.
abbrev odd_range : Range
odd_range = record { addr = 5001; size = 20000 }

take_layout-Takes_example :
    ((rest : Range) × (taken : Range) × (take_layout 64 (2 ^ 3) odd_range ≡ ok (rest, some taken))
      × Takes 64 (2 ^ 3) odd_range rest taken)
    ⊎ ((take_layout 64 (2 ^ 3) odd_range ≡ ok (odd_range, none))
        × (odd_range.addr + odd_range.size < align_up odd_range.addr (2 ^ 3) + 64))
take_layout-Takes_example =
    take_layout-Takes 64 3 odd_range (omega arith) (omega arith) (omega arith)

rounded_layout : new_rounded 5000 8 ≡ some (record { size = 8192; align = 4096 })
unfolding new_rounded overflows align_up
rounded_layout = refl
