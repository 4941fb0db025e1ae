-- ===== src/Mem/PageLayout/Rounded.antt =====
-- What new_rounded of kernel/src/mem/page_layout.rs rounds to.
use aurora_os.Prelude.{
  ◌*◌, ◌/◌, ℕ, ◌+◌, ◌-◌, ◌%◌, ◌^◌, ◌≤◌, ◌<◌, ◌≡◌, inl, inr, refl, ◌∙◌, arith, false, Option, none,
  some, Bool-cases, max,
}
use aurora_os.BitUtils.{IsUsize, page_size, align_up}
use aurora_os.BitUtils.Align.{align_up_least}
use aurora_os.Prelude.Bits.{bit_and-high_mask}
use aurora_os.Mem.PageLayout.{PageLayout, overflows, new_rounded}

-- The layout is of whole pages, as few as hold the size but at least one, and an allocation of it
-- can be aligned without leaving the address space.
pub record Rounds (size align : ℕ) (l : PageLayout) : Type 0 where
  pub pages : l.size % page_size ≡ 0
  pub enough : size ≤ l.size
  pub some_page : page_size ≤ l.size
  pub least : page_size < l.size → l.size < size + page_size
  pub wide : (align ≤ l.align) × (page_size ≤ l.align)
  pub room : l.size + l.align ≤ 2 ^ 64

some-fields :
    (a b : ℕ) (l : PageLayout)
    → ◌≡◌ {A = Option PageLayout} (some (record { size = a; align = b })) (some l)
    → (l.size ≡ a) × (l.align ≡ b)
some-fields a b l e = (ground arith, ground arith)

room_left : (s a : ℕ) → 1 ≤ a → a ≤ 2 ^ 63 → overflows s a ≡ false → s + a ≤ 2 ^ 64
unfolding overflows
room_left s a pos small e = ground arith

fits_one : (a : ℕ) → 1 ≤ a → a ≤ 2 ^ 63 → overflows page_size a ≡ false
unfolding overflows
fits_one a pos small = ground arith

wrapped_zero : (size : ℕ) → IsUsize size → 2 ^ 64 < size + page_size → align_up size page_size ≡ 0
unfolding align_up
wrapped_zero size word big =
    let start : (((size + 4096) % 2 ^ 64 + 2 ^ 64 - 1) % 2 ^ 64) ≡ size + 4095 - 2 ^ 64 =
      omega arith in
    let mask =
      bit_and-high_mask 12 64 (size + 4095 - 2 ^ 64) _ (omega arith) (omega arith) (omega arith) in
    let gone : (size + 4095 - 2 ^ 64) / 2 ^ 12 * 2 ^ 12 ≡ 0 = omega arith in rw start (mask ∙ gone)

-- For a size at least a page below 2 ^ 64 and an alignment from 1 to 2 ^ 63, a layout that
-- new_rounded answers with is of whole pages, the fewest that hold the size but at least one, its
-- alignment is at least the one asked for and a page, and its size and alignment together are at
-- most 2 ^ 64.
pub new_rounded-Rounds :
    (size align : ℕ) (l : PageLayout)
    → size + page_size ≤ 2 ^ 64
    → 1 ≤ align
    → align ≤ 2 ^ 63
    → new_rounded size align ≡ some l
    → Rounds size align l
unfolding new_rounded
new_rounded-Rounds size align l fits pos small e =
    let up = align_up_least size 12 (omega arith) (omega arith) in
    let u = align_up size page_size in
    elim (Bool-cases (overflows (max u page_size) (max align page_size))) [
      | inl o ↦ absurd (
          let none_some : ◌≡◌ {A = Option PageLayout} none (some l) = rw (o, new_rounded) at e in
          ground arith)
      | inr o ↦
          let made : ◌≡◌ {A = Option PageLayout}
              (some (record { size = max u page_size; align = max align page_size })) (some l) =
            rw (o, new_rounded) at e in
          let (sz, al) = some-fields (max u page_size) (max align page_size) l made in
          let free =
            room_left (max u page_size) (max align page_size) (omega arith) (omega arith) o in
          record {
            pages = omega (arith, sz, up.2);
            enough = omega (arith, sz, up.0);
            some_page = omega (arith, sz);
            least = λ lt. omega (arith, sz, up.1);
            wide = (omega (arith, al), omega (arith, al));
            room = omega (arith, sz, al, free);
          }
    ]

-- For a size in the last page of the words, where rounding up overflows, and an alignment of at
-- most 2 ^ 63, new_rounded answers with a layout of a single page.
pub new_rounded_wraps :
    (size align : ℕ)
    → IsUsize size
    → 2 ^ 64 < size + page_size
    → align ≤ 2 ^ 63
    → new_rounded size align ≡ some (record { size = page_size; align = max align page_size })
unfolding new_rounded
new_rounded_wraps size align word big small =
    rw
      (
        wrapped_zero size word big,
        fits_one (max align page_size) (omega arith) (omega arith),
        new_rounded,
      )
      refl
