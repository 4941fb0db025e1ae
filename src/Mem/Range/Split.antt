-- ===== src/Mem/Range/Split.antt =====
-- What split_at of kernel/src/mem/range.rs leaves of a range.
use aurora_os.Prelude.{
  ℕ, ◌+◌, ◌-◌, ◌≤◌, ◌<◌, ◌≡◌, ◌≢◌, refl, arith, Bool, true, false, not, ◌&&◌, ◌||◌, Option, none,
  some, ltb, leb, Bool-cases, inl, inr,
}
use aurora_os.BitUtils.{get_bits}
use aurora_os.KResult.{ok, panic, ◌>>=◌}
use aurora_os.Mem.Range.{try_new, new, sub, Range, pieces, split_at}
use aurora_os.Mem.Range.Contains.{
  Fits, within, within?, sub_small, add_ok, sub_ok, end_addr_ok, contains_lem, touches,
  contains_range_lem,
}

split_apart :
    (r q : Range) → Fits r → Fits q → touches r q ≡ false → split_at r q ≡ ok (some r, none)
unfolding split_at
split_apart r q fits fits' e =
    rw
      (
        end_addr_ok r fits,
        end_addr_ok q fits',
        contains_range_lem r q fits fits',
        ◌>>=◌,
        e,
        split_at,
      )
      refl

split_covered :
    (r q : Range)
    → Fits r
    → Fits q
    → touches r q ≡ true
    → leb q.addr r.addr && leb (r.addr + r.size) (q.addr + q.size) ≡ true
    → split_at r q ≡ ok (none, none)
unfolding split_at
split_covered r q fits fits' e c =
    rw
      (
        end_addr_ok r fits,
        end_addr_ok q fits',
        contains_range_lem r q fits fits',
        ◌>>=◌,
        e,
        c,
        split_at,
      )
      refl

split_pieces :
    (r q : Range)
    → Fits r
    → Fits q
    → 1 ≤ q.addr
    → touches r q ≡ true
    → leb q.addr r.addr && leb (r.addr + r.size) (q.addr + q.size) ≡ false
    → split_at r q
      ≡ ok (
          pieces r.addr
            (r.addr + r.size)
            q.addr
            (q.addr + q.size)
            (within r (q.addr - 1))
            (within r (q.addr + q.size + 1)))
unfolding split_at
split_pieces r q fits fits' pos e c =
    rw
      (
        end_addr_ok r fits,
        end_addr_ok q fits',
        contains_range_lem r q fits fits',
        ◌>>=◌,
        e,
        c,
        sub_ok q.addr 1 pos (omega arith),
        ◌>>=◌,
        contains_lem r (q.addr - 1) fits,
        add_ok (q.addr + q.size) 1 (omega arith),
        contains_lem r (q.addr + q.size + 1) fits,
        split_at,
      )
      refl

abbrev between : ℕ → ℕ → ℕ → Bool
between lo hi x = leb lo x && ltb x hi

between-true : (lo hi x : ℕ) → between lo hi x ≡ true → (lo ≤ x) × (x < hi)
between-true lo hi x e = (ground arith, ground arith)

between-false : (lo hi x : ℕ) → between lo hi x ≡ false → lo ≤ x → hi ≤ x
between-false lo hi x e le = ground arith

-- Taking the addresses from b to e out of those from lo to hi.
module _ (lo hi b e x : ℕ) (b≤e : b ≤ e) where
  cut_both :
      lo ≤ b
      → e ≤ hi
      → (between lo (lo + (b - lo)) x || between e (e + (hi - e)) x)
        ≡ (between lo hi x && not (between b e x))
  cut_both le le' = ground arith

  cut_lower :
      lo ≤ b
      → b ≤ hi
      → hi ≤ e
      → (between lo (lo + (b - lo)) x || false) ≡ (between lo hi x && not (between b e x))
  cut_lower le le' le'' = ground arith

  cut_upper :
      b ≤ lo
      → lo ≤ e
      → e ≤ hi
      → (between e (e + (hi - e)) x || false) ≡ (between lo hi x && not (between b e x))
  cut_upper le le' le'' = ground arith

touches-le : (r q : Range) → touches r q ≡ true → r.addr ≤ q.addr + q.size
touches-le r q t = ground arith

neither :
    (r q : Range)
    → Fits r
    → 1 ≤ q.addr
    → r.addr + r.size ≢ q.addr + q.size + 1
    → touches r q ≡ true
    → leb q.addr r.addr && leb (r.addr + r.size) (q.addr + q.size) ≡ false
    → within r (q.addr - 1) ≡ false
    → within r (q.addr + q.size + 1) ≡ false
    → ⊥
neither r q fits pos gap t c b a = ground arith

pieces-within :
    (r q : Range) (x : ℕ)
    → Fits r
    → Fits q
    → 1 ≤ q.addr
    → r.addr + r.size ≢ q.addr + q.size + 1
    → touches r q ≡ true
    → leb q.addr r.addr && leb (r.addr + r.size) (q.addr + q.size) ≡ false
    → let p =
        pieces r.addr
          (r.addr + r.size)
          q.addr
          (q.addr + q.size)
          (within r (q.addr - 1))
          (within r (q.addr + q.size + 1)) in
      (within? p.0 x || within? p.1 x) ≡ (within r x && not (within q x))
unfolding pieces
pieces-within r q x fits fits' pos gap t c =
    let lo = r.addr in
    let hi = r.addr + r.size in
    let st = q.addr in
    let en = q.addr + q.size in
    elim (Bool-cases (within r (st - 1))) [
      | inl b ↦
          let bt = between-true lo hi (st - 1) b in
          elim (Bool-cases (within r (en + 1))) [
            | inl a ↦
                let at = between-true lo hi (en + 1) a in
                rw
                  (
                    b,
                    a,
                    sub_small st lo (omega arith) (omega arith),
                    sub_small hi en (omega arith) (omega arith),
                  )
                  (cut_both lo hi st en x (omega arith) (omega arith) (omega arith))
            | inr a ↦
                let af = between-false lo hi (en + 1) a (omega arith) in
                rw (b, a, sub_small st lo (omega arith) (omega arith))
                  (cut_lower lo hi st en x (omega arith) (omega arith) (omega arith)
                    (omega (arith, gap)))
          ]
      | inr b ↦ elim (Bool-cases (within r (en + 1))) [
        | inl a ↦
            let at = between-true lo hi (en + 1) a in
            let not_below : ¬ (lo ≤ st - 1) =
              λ le. let bf = between-false lo hi (st - 1) b le in omega arith in
            rw (b, a, sub_small hi en (omega arith) (omega arith))
              (cut_upper lo hi st en x (omega arith) (omega arith) (touches-le r q t) (omega arith))
        | inr a ↦ absurd (neither r q fits pos gap t c b a)
      ]
    ]

apart-within :
    (r q : Range) (x : ℕ)
    → touches r q ≡ false
    → (q.addr < r.addr → q.addr + q.size < r.addr + r.size)
    → (within r x || false) ≡ (within r x && not (within q x))
apart-within r q x t part = ground arith

sub_zero : sub 0 1 ≡ panic
unfolding sub new try_new get_bits
sub_zero = refl

-- For ranges that end before the last address, where the other range begins before this one and
-- reaches its end, so that it covers it, split_at answers with the whole of this range as if the
-- two were apart.
pub split_at_covered :
    (r q : Range)
    → Fits r
    → Fits q
    → q.addr < r.addr
    → r.addr + r.size ≤ q.addr + q.size
    → split_at r q ≡ ok (some r, none)
split_at_covered r q fits fits' lt le = split_apart r q fits fits' (ground arith)

-- For ranges that end before the last address, where the other range begins above address 0, does
-- not end exactly one address before the end of this one, and does not begin before this one while
-- reaching its end, split_at answers without a panic, and the parts together hold exactly the
-- addresses of this range that are not in the other.
pub split_at-within :
    (r q : Range)
    → Fits r
    → Fits q
    → 1 ≤ q.addr
    → r.addr + r.size ≢ q.addr + q.size + 1
    → (q.addr < r.addr → q.addr + q.size < r.addr + r.size)
    → (a : Option Range) × (b : Option Range) × (split_at r q ≡ ok (a, b))
      × ((x : ℕ) → (within? a x || within? b x) ≡ (within r x && not (within q x)))
split_at-within r q fits fits' pos gap part = elim (Bool-cases (touches r q)) [
  | inr t ↦ (some r, none, split_apart r q fits fits' t, λ x. apart-within r q x t part)
  | inl t ↦ elim (Bool-cases (leb q.addr r.addr && leb (r.addr + r.size) (q.addr + q.size))) [
    | inl c ↦ (none, none, split_covered r q fits fits' t c, λ x. ground arith)
    | inr c ↦
        let p =
          pieces r.addr (r.addr + r.size) q.addr (q.addr + q.size) (within r (q.addr - 1))
            (within r (q.addr + q.size + 1)) in
        (
          p.0,
          p.1,
          split_pieces r q fits fits' pos t c,
          λ x. pieces-within r q x fits fits' pos gap t c,
        )
  ]
]

-- For ranges that end before the last address, where the other range begins at address 0, reaches
-- or touches this one and ends before it does, split_at panics.
pub split_at_zero :
    (r q : Range)
    → Fits r
    → Fits q
    → q.addr ≡ 0
    → q.size < r.addr + r.size
    → r.addr ≤ q.size
    → split_at r q ≡ panic
unfolding split_at
split_at_zero r q fits fits' z lt le =
    let t : touches r q ≡ true = ground (arith, z) in
    let c : leb q.addr r.addr && leb (r.addr + r.size) (q.addr + q.size) ≡ false =
      ground (arith, z) in
    rw
      (
        end_addr_ok r fits,
        end_addr_ok q fits',
        contains_range_lem r q fits fits',
        ◌>>=◌,
        t,
        c,
        z,
        sub_zero,
        ◌>>=◌,
        split_at,
      )
      refl
