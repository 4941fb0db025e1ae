-- ===== src/Mem/PageLayout.antt =====
-- kernel/src/mem/page_layout.rs: sizes and alignments of allocations of pages.
pub mod Rounded
use aurora_os.Prelude.{ℕ, ◌-◌, Bool, Option, none, some, ltb, if◌then◌else◌, max}
use aurora_os.BitUtils.{usize_mod, page_size, align_up, wrapping_sub}

pub record PageLayout : Type 0 where
  pub size : ℕ
  pub align : ℕ

-- `usize::MAX - (align - 1)` is below the size.
unfoldable pub overflows : ℕ → ℕ → Bool
overflows size align = ltb (wrapping_sub (usize_mod - 1) (wrapping_sub align 1)) size

unfoldable pub new_rounded : ℕ → ℕ → Option PageLayout
new_rounded size align =
    let rounded = max (align_up size page_size) page_size in
    let wide = max align page_size in
    if overflows rounded wide then none else some (record { size = rounded; align = wide })
