-- ===== src/Mem/Aligned/Bounds.antt =====
-- The bounds of aligned ranges of kernel/src/mem/range.rs.
use aurora_os.Prelude.{
  ℕ, ◌+◌, ◌-◌, ◌*◌, ◌/◌, ◌%◌, ◌^◌, ◌≤◌, ◌<◌, ◌≡◌, ◌⊎◌, inl, inr, refl, arith, none, some, ltb,
  Bool-cases,
}
use aurora_os.BitUtils.{page_size, align_up, align_down, wrapping_sub}
use aurora_os.BitUtils.Align.{align_up_lem, align_down_lem, align_up_least}
use aurora_os.KResult.{ok, ◌>>=◌}
use aurora_os.Mem.Range.{Range}
use aurora_os.Mem.Range.Contains.{Fits, new_ok, add_ok, sub_small, end_addr_ok}
use aurora_os.Mem.Aligned.{new_aligned_inside, new_aligned, take_layout}

-- The range is made of whole pages.
abbrev pub OnPages : Range → Type 0
OnPages m = (m.addr % page_size ≡ 0) × (m.size % page_size ≡ 0)

page_up : (a : ℕ) → a + 4096 ≤ 2 ^ 64 → align_up a page_size ≡ (a + 4095) / 4096 * 4096
page_up a le = align_up_lem a 12 (omega arith) (omega arith)

page_down : (a : ℕ) → a < 2 ^ 64 → align_down a page_size ≡ a / 4096 * 4096
page_down a lt = align_down_lem a 12 (omega arith) (omega arith)

-- For a range whose end is more than a page before the last address, new_aligned answers without a
-- panic with the least range of whole pages that holds the range.
pub new_aligned_least :
    (addr size : ℕ)
    → addr + size + page_size < 2 ^ 48
    → (m : Range) × (new_aligned addr size ≡ ok m)
      × OnPages m
      × (m.addr ≤ addr)
      × (addr < m.addr + page_size)
      × (addr + size ≤ m.addr + m.size)
      × (m.addr + m.size < addr + size + page_size)
unfolding new_aligned
new_aligned_least addr size fits =
    let lo = align_down addr page_size in
    let hi = align_up (addr + size) page_size in
    let lo_eq : lo ≡ addr / 4096 * 4096 = page_down addr (omega arith) in
    let hi_eq : hi ≡ (addr + size + 4095) / 4096 * 4096 = page_up (addr + size) (omega arith) in
    let m : Range = record { addr = lo; size = wrapping_sub hi lo } in
    let len : wrapping_sub hi lo ≡ hi - lo =
      sub_small hi lo (omega (arith, lo_eq, hi_eq)) (omega (arith, hi_eq)) in
    (
      m,
      rw (add_ok addr size (omega arith), ◌>>=◌, new_ok hi (omega (arith, hi_eq)), new_aligned)
          refl,
      (omega (arith, lo_eq), omega (arith, lo_eq, hi_eq, len)),
      omega (arith, lo_eq),
      omega (arith, lo_eq),
      omega (arith, lo_eq, hi_eq, len),
      omega (arith, lo_eq, hi_eq, len),
    )

-- For a range whose end is more than a page before the last address, new_aligned_inside answers
-- without a panic, either with the greatest range of whole pages inside the range, or with none,
-- and then no page boundary lies in the range or at its end.
pub new_aligned_inside_greatest :
    (addr size : ℕ)
    → addr + size + page_size < 2 ^ 48
    → ((m : Range) × (new_aligned_inside addr size ≡ ok (some m))
        × OnPages m
        × (addr ≤ m.addr)
        × (m.addr < addr + page_size)
        × (m.addr + m.size ≤ addr + size)
        × (addr + size < m.addr + m.size + page_size))
      ⊎ ((new_aligned_inside addr size ≡ ok none)
          × ((p : ℕ) → addr ≤ p * page_size → addr + size < p * page_size))
unfolding new_aligned_inside
new_aligned_inside_greatest addr size fits =
    let lo = align_up addr page_size in
    let hi = align_down (addr + size) page_size in
    let lo_eq : lo ≡ (addr + 4095) / 4096 * 4096 = page_up addr (omega arith) in
    let hi_eq : hi ≡ (addr + size) / 4096 * 4096 = page_down (addr + size) (omega arith) in
    elim (Bool-cases (ltb hi lo)) [
      | inl e ↦ inr (
        rw
            (
              new_ok lo (omega (arith, lo_eq)),
              ◌>>=◌,
              add_ok addr size (omega arith),
              e,
              new_aligned_inside,
            )
            refl,
        λ p le. let lt : hi < lo = ground arith in omega (arith, lo_eq, hi_eq),
      )
      | inr e ↦
          let le : lo ≤ hi = ground arith in
          let len : wrapping_sub hi lo ≡ hi - lo = sub_small hi lo le (omega (arith, hi_eq)) in
          inl (
            record { addr = lo; size = wrapping_sub hi lo },
            rw
                (
                  new_ok lo (omega (arith, lo_eq)),
                  ◌>>=◌,
                  add_ok addr size (omega arith),
                  e,
                  new_aligned_inside,
                )
                refl,
            (omega (arith, lo_eq), omega (arith, lo_eq, hi_eq, len, le)),
            omega (arith, lo_eq),
            omega (arith, lo_eq),
            omega (arith, hi_eq, len, le),
            omega (arith, hi_eq, len, le),
          )
    ]

take_size : (start size : ℕ) → start + size < 2 ^ 48 → wrapping_sub (start + size) start ≡ size
take_size start size lt = omega arith

-- The part that take_layout takes, and the rest, which ends as far beyond the range as the start was
-- aligned.
pub record Takes (size align : ℕ) (r rest taken : Range) : Type 0 where
  pub aligned : taken.addr % align ≡ 0
  pub low : r.addr ≤ taken.addr
  pub high : taken.addr + taken.size ≤ r.addr + r.size
  pub whole : taken.size ≡ size
  pub next : rest.addr ≡ taken.addr + taken.size
  pub rest_end : rest.addr + rest.size ≡ r.addr + r.size + (taken.addr - r.addr)

-- For a range that ends before the last address, a power of two below 2 ^ 64 as alignment, and
-- room in the address space for the start, the size and the alignment, take_layout either leaves
-- the range and takes nothing, if the aligned size does not fit, or takes an aligned part of the
-- size inside the range; the rest begins after the part and ends beyond the end of the range by as
-- much as the start was aligned.
pub take_layout-Takes :
    (size k : ℕ) (r : Range)
    → Fits r
    → k < 64
    → r.addr + size + 2 ^ k < 2 ^ 48
    → ((rest : Range) × (taken : Range) × (take_layout size (2 ^ k) r ≡ ok (rest, some taken))
        × Takes size (2 ^ k) r rest taken)
      ⊎ ((take_layout size (2 ^ k) r ≡ ok (r, none))
          × (r.addr + r.size < align_up r.addr (2 ^ k) + size))
unfolding take_layout
take_layout-Takes size k r fits lt room =
    let start = align_up r.addr (2 ^ k) in
    let up = align_up_least r.addr k lt (omega arith) in
    let len : wrapping_sub (start + size) start ≡ size =
      take_size start size (omega (arith, up.1)) in
    let s_ok = new_ok start (omega (arith, up.1)) in
    let n_ok = add_ok start size (omega (arith, up.1)) in
    elim (Bool-cases (ltb (r.addr + r.size) (start + size))) [
      | inl e ↦ inr (rw (s_ok, ◌>>=◌, n_ok, end_addr_ok r fits, e, take_layout) refl, ground arith)
      | inr e ↦
          let le : start + size ≤ r.addr + r.size = ground arith in
          let left : wrapping_sub r.size size ≡ r.size - size =
            sub_small r.size size (omega (arith, up.0)) (omega arith) in
          inl (
            record { addr = start + size; size = r.size - size },
            record { addr = start; size = size },
            rw (s_ok, ◌>>=◌, n_ok, end_addr_ok r fits, ◌>>=◌, e, len, left, take_layout) refl,
            record {
              aligned = up.2;
              low = up.0;
              high = le;
              whole = refl;
              next = refl;
              rest_end = omega (arith, up.0, le);
            },
          )
    ]
