-- ===== src/Mem/Aligned.antt =====
-- The constructors of kernel/src/mem/range.rs that align a physical range to pages, take_layout and
-- the layouts of kernel/src/mem/page_layout.rs.
pub mod Bounds
use aurora_os.Prelude.{
  ℕ, ◌+◌, ◌-◌, ◌%◌, Bool, true, false, Option, none, some, ltb, if◌then◌else◌, max,
}
use aurora_os.BitUtils.{usize_mod, page_size, align_up, align_down, align_of, wrapping_sub}
use aurora_os.KResult.{KResult, ok, ◌>>=◌}
use aurora_os.Mem.Range.{Range, new, add, end_addr}

-- Aligns the start up and the end down.
unfoldable pub new_aligned_inside : ℕ → ℕ → KResult (Option Range)
new_aligned_inside addr size = do
  start_addr ← new (align_up addr page_size)
  end ← add addr size
  let end_addr = align_down end page_size in
      ok (
        if ltb end_addr start_addr
        then none
        else some (record { addr = start_addr; size = wrapping_sub end_addr start_addr }))

-- Aligns the start down and the end up.
unfoldable pub new_aligned : ℕ → ℕ → KResult Range
new_aligned addr size = do
  end ← add addr size
  end_addr ← new (align_up end page_size)
  let start_addr = align_down addr page_size in
      ok (record { addr = start_addr; size = wrapping_sub end_addr start_addr })

unfoldable pub try_new_aligned : ℕ → ℕ → Option Range
try_new_aligned addr size =
    if ltb (align_of addr) page_size
    then none
    else (if ltb (align_of size) page_size
        then none
        else some (record { addr = addr; size = size }))

-- take_layout: what is left of the range, and the part that was taken.
unfoldable pub take_layout : ℕ → ℕ → Range → KResult (Range × Option Range)
take_layout size align r = do
  start_addr ← new (align_up r.addr align)
  new_addr ← add start_addr size
  end ← end_addr r
  let taken = wrapping_sub new_addr start_addr in
      ok (
        if ltb end new_addr then (r, none) else (
          record { addr = new_addr; size = wrapping_sub r.size taken },
          some (record { addr = start_addr; size = taken }),
        ))
