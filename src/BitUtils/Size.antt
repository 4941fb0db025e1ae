-- ===== src/BitUtils/Size.antt =====
-- userland/bit_utils/src/size.rs: sizes in bytes and in pages.
use aurora_os.Prelude.{
  ℕ, ◌+◌, ◌-◌, ◌*◌, ◌/◌, ◌≤◌, ◌≡◌, ◌↔◌, ap, arith, Option, none, some, if◌then◌else◌, ltb,
  Bool-cases, inl, inr,
}
use aurora_os.BitUtils.{IsUsize, usize_mod, page_size, align_up, page_aligned}
use aurora_os.BitUtils.Align.{align_up_lem, page_aligned_iff}

-- A `Size` is its number of bytes. `checked_mul` is `None` on overflow.
unfoldable pub try_from_pages : ℕ → Option ℕ
try_from_pages pages = if ltb (pages * page_size) usize_mod then some (pages * page_size) else none

unfoldable pub bytes_aligned : ℕ → ℕ
bytes_aligned size = align_up size page_size

unfoldable pub pages : ℕ → Option ℕ
pages size = if page_aligned size then some (size / page_size) else none

unfoldable pub pages_rounded : ℕ → ℕ
pages_rounded size = bytes_aligned size / page_size

try_from_pages-some :
    (n size : ℕ) → try_from_pages n ≡ some size → (size ≡ n * page_size) × IsUsize size
unfolding try_from_pages
try_from_pages-some n size e = ground arith

-- A number of pages that converts to bytes without overflow is what both pages and pages_rounded
-- give back for the size.
pub pages-try_from_pages :
    (n size : ℕ) → try_from_pages n ≡ some size → (pages size ≡ some n) × (pages_rounded size ≡ n)
unfolding pages pages_rounded bytes_aligned
pages-try_from_pages n size e =
    let (bytes, word) = try_from_pages-some n size e in
    let aligned = (page_aligned_iff size word).1 (omega (arith, bytes)) in
    let up : align_up size page_size ≡ (size + (page_size - 1)) / page_size * page_size =
      align_up_lem size 12 (omega arith) (omega (arith, bytes)) in
    (rw aligned (ap some (omega (arith, bytes))), omega (arith, up, bytes))

-- `pages` answers exactly when `pages_rounded` loses nothing.
pub pages_iff-rounded :
    (size n : ℕ)
    → IsUsize size
    → size + page_size ≤ usize_mod
    → (pages size ≡ some n) ↔ ((pages_rounded size ≡ n) × (size ≡ n * page_size))
unfolding pages pages_rounded bytes_aligned
pages_iff-rounded size n word fits =
    let up : align_up size page_size ≡ (size + (page_size - 1)) / page_size * page_size =
      align_up_lem size 12 (omega arith) (omega arith) in
    elim (Bool-cases (page_aligned size)) [
      | inl yes_aligned ↦
          let multiple = (page_aligned_iff size word).0 yes_aligned in
          rw yes_aligned (
            λ e. let q : size / page_size ≡ n = ground arith in (omega (arith, up), omega arith),
            λ (r, b). ap some (omega arith),
          )
      | inr not_aligned ↦ rw not_aligned (
        λ e. absurd (ground arith),
        λ (r, b). absurd (ground (arith, page_aligned_iff size word)),
      )
    ]
