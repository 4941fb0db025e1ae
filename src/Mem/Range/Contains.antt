-- ===== src/Mem/Range/Contains.antt =====
-- The addresses of a range, and what contains, contains_range and merge of kernel/src/mem/range.rs
-- make of them.
use aurora_os.Prelude.{
  ℕ, ◌%◌, ◌/◌, ◌+◌, ◌-◌, ◌^◌, ◌≤◌, ◌<◌, ◌≡◌, ◌≢◌, ◌⊎◌, refl, arith, Bool, false, ◌&&◌, ◌||◌, Option,
  none, some, ltb, leb, ◌==◌, Bool-cases, inl, inr,
}
use aurora_os.BitUtils.{get_bits, usize_mod, wrapping_sub}
use aurora_os.BitUtils.Fields.{get_bits_lem}
use aurora_os.KResult.{ok, ◌>>=◌}
use aurora_os.Mem.Range.{
  try_new, new, add, sub, Range, joined, end_addr, contains, contains_range, merge,
}

-- The range ends inside the address space, before its last address.
abbrev pub Fits : Range → Type 0
Fits r = r.addr + r.size + 1 < 2 ^ 48

-- The address is one of the range's.
abbrev pub within : Range → ℕ → Bool
within r a = leb r.addr a && ltb a (r.addr + r.size)

abbrev pub within? : Option Range → ℕ → Bool
within? none a = false
within? (some r) a = within r a

pub new_ok : (a : ℕ) → a < 2 ^ 48 → new a ≡ ok a
unfolding new try_new
new_ok a lt =
    let b : get_bits a 48 64 ≡ a % 2 ^ 64 / 2 ^ 48 =
      get_bits_lem a 48 64 (omega arith) (omega arith) (omega arith) in
    let z : get_bits a 48 64 ≡ 0 = omega (arith, b) in ground (arith, z)

pub mod_small : (x : ℕ) → x < 2 ^ 64 → x % usize_mod ≡ x
mod_small x lt = omega arith

pub sub_small : (a n : ℕ) → n ≤ a → a < 2 ^ 64 → wrapping_sub a n ≡ a - n
sub_small a n le lt = omega arith

pub add_ok : (a n : ℕ) → a + n < 2 ^ 48 → add a n ≡ ok (a + n)
unfolding add
add_ok a n lt = rw (mod_small (a + n) (omega arith)) (new_ok (a + n) lt)

pub sub_ok : (a n : ℕ) → n ≤ a → a < 2 ^ 48 → sub a n ≡ ok (a - n)
unfolding sub
sub_ok a n le lt = rw (sub_small a n le (omega arith)) (new_ok (a - n) (omega arith))

pub end_addr_ok : (r : Range) → Fits r → end_addr r ≡ ok (r.addr + r.size)
unfolding end_addr
end_addr_ok r fits = add_ok r.addr r.size (omega arith)

pub contains_lem : (r : Range) (a : ℕ) → Fits r → contains r a ≡ ok (within r a)
unfolding contains
contains_lem r a fits = elim (Bool-cases (leb r.addr a)) [
  | inl e ↦ rw (e, end_addr_ok r fits, contains) refl
  | inr e ↦ rw (e, contains) refl
]

-- The ranges touch: one of the ends of the second is in the first.
abbrev pub touches : Range → Range → Bool
touches r q = within r q.addr || within r (q.addr + q.size)

-- For ranges that end before the last address, contains_range answers without a panic, and with
-- true exactly if the first address of the other range or the address after its last is in this
-- one.
pub contains_range_lem : (r q : Range) → Fits r → Fits q → contains_range r q ≡ ok (touches r q)
unfolding contains_range
contains_range_lem r q fits fits' = elim (Bool-cases (within r q.addr)) [
  | inl e ↦ rw (contains_lem r q.addr fits, e, contains_range) refl
  | inr e ↦
      rw
        (
          contains_lem r q.addr fits,
          e,
          end_addr_ok q fits',
          contains_lem r (q.addr + q.size) fits,
          contains_range,
        )
        refl
]

-- For ranges that end before the last address, merge answers either with a range of exactly the
-- addresses of both, or with none, and then neither range begins where the other ends.
pub merge-within :
    (r q : Range)
    → Fits r
    → Fits q
    → ((m : Range) × (merge r q ≡ ok (some m))
        × ((a : ℕ) → within m a ≡ (within r a || within q a)))
      ⊎ ((merge r q ≡ ok none) × (r.addr + r.size ≢ q.addr) × (q.addr + q.size ≢ r.addr))
unfolding merge
merge-within r q fits fits' =
    let sum : (r.size + q.size) % usize_mod ≡ r.size + q.size =
      mod_small (r.size + q.size) (omega arith) in
    elim (Bool-cases ((r.addr + r.size) == q.addr)) [
      | inl e ↦ inl (
        joined r.addr r q,
        rw (end_addr_ok r fits, ◌>>=◌, e, merge) refl,
        λ a. rw sum (ground arith),
      )
      | inr e ↦ elim (Bool-cases ((q.addr + q.size) == r.addr)) [
        | inl e' ↦ inl (
          joined q.addr r q,
          rw (end_addr_ok r fits, ◌>>=◌, e, end_addr_ok q fits', ◌>>=◌, e', merge) refl,
          λ a. rw sum (ground arith),
        )
        | inr e' ↦ inr (
          rw (end_addr_ok r fits, ◌>>=◌, e, end_addr_ok q fits', ◌>>=◌, e', merge) refl,
          λ p. ground arith,
          λ p. ground arith,
        )
      ]
    ]
