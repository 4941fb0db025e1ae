-- ===== src/AddrSpace/Cells.antt =====
-- The memory behind the list of regions of userland/aurora_core/src/allocator/addr_space.rs, as a
-- function from the places of regions, and the pointer operations on it.
use aurora_os.Prelude.{
  ℕ, zero, suc, ◌+◌, ◌-◌, ◌≤◌, ◌<◌, ◌≡◌, ◌==◌, refl, ap, arith, List, [], ◌∷◌, ◌++◌, some, ◌&&◌,
  false, true, leb, ltb, length, take, drop, get_elem?, if◌then◌else◌, if_eq,
}

module _ {A : Type 0} where
  -- `ptr::write`
  unfoldable pub write : ℕ → A → (ℕ → A) → ℕ → A
  write place a cells k = if k == place then a else cells k

  -- `ptr::copy` of `n` elements, which may overlap.
  unfoldable pub copy : ℕ → ℕ → ℕ → (ℕ → A) → ℕ → A
  copy src dst n cells k = if leb dst k && ltb k (dst + n) then cells (k - dst + src) else cells k

  -- `slice::from_raw_parts`
  unfoldable pub slice : (ℕ → A) → ℕ → List A
  slice cells zero = []
  slice cells (suc n) = cells 0 ∷ slice (λ k. cells (suc k)) n

  pub length-slice : (cells : ℕ → A) (n : ℕ) → length (slice cells n) ≡ n
  unfolding slice
  length-slice cells zero = refl
  length-slice cells (suc n) = ap suc (length-slice (λ k. cells (suc k)) n)

  -- A slice depends on its places alone.
  slice-eq : (f g : ℕ → A) (n : ℕ) → ((k : ℕ) → k < n → f k ≡ g k) → slice f n ≡ slice g n
  unfolding slice
  slice-eq f g zero h = refl
  slice-eq f g (suc n) h =
      rw
        (
          h 0 (omega arith),
          slice-eq (λ k. f (suc k)) (λ k. g (suc k)) n (λ k lt. h (suc k) (omega arith)),
        )
        refl

  pub slice_inside :
      (cells : ℕ → A) (n i : ℕ) (a : A)
      → get_elem? (slice cells n) i ≡ some a
      → (i < n) × (a ≡ cells i)
  unfolding slice
  slice_inside cells zero i a e = cc
  slice_inside cells (suc n) zero a e = (omega arith, cc)
  slice_inside cells (suc n) (suc i) a e =
      let (lt, same) = slice_inside (λ k. cells (suc k)) n i a e in (omega arith, same)

  -- The elements from the place on stand one place later, and a new one stands at it.
  record Opens (place n : ℕ) (a : A) (d f : ℕ → A) : Type 0 where
    below : (k : ℕ) → k < place → f k ≡ d k
    here : f place ≡ a
    above : (k : ℕ) → place ≤ k → k < n → f (suc k) ≡ d k

  opened-slice :
      (place n : ℕ) (a : A) (d f : ℕ → A)
      → place ≤ n
      → Opens place n a d f
      → slice f (suc n) ≡ take place (slice d n) ++ (a ∷ drop place (slice d n))
  unfolding slice
  opened-slice zero n a d f le o =
      rw (o.here, slice-eq (λ k. f (suc k)) d n (λ k lt. o.above k (omega arith) lt)) refl
  opened-slice (suc place) zero a d f le o = absurd (omega arith)
  opened-slice (suc place) (suc n) a d f le o =
      rw
        (
          o.below 0 (omega arith),
          opened-slice place n a (λ k. d (suc k)) (λ k. f (suc k)) (omega arith)
              (record {
                below = λ k lt. o.below (suc k) (omega arith);
                here = o.here;
                above = λ k ge lt. o.above (suc k) (omega arith) (omega arith);
              }),
        )
        refl

  pub write-copy_opens :
      (place n : ℕ) (a : A) (d : ℕ → A)
      → place ≤ n
      → slice (write place a (copy place (place + 1) (n - place) d)) (n + 1)
        ≡ take place (slice d n) ++ (a ∷ drop place (slice d n))
  unfolding write copy
  write-copy_opens place n a d le =
      let more : n + 1 ≡ suc n = omega arith in
      rw more (
        opened-slice place n a d _ le (record {
          below = λ k lt.
              let other : (k == place) ≡ false = ground arith in
              let out : (leb (place + 1) k && ltb k (place + 1 + (n - place))) ≡ false =
                ground arith in
              rw (other, out) refl;
          here = if_eq place a _;
          above = λ k ge lt.
              let other : (suc k == place) ≡ false = ground arith in
              let inside : (leb (place + 1) (suc k) && ltb (suc k) (place + 1 + (n - place)))
                  ≡ true =
                ground arith in
              let from : suc k - (place + 1) + place ≡ k = omega arith in
              rw (other, inside) (ap d from);
        }))

  -- The elements behind the place stand one place earlier.
  record Closes (place n : ℕ) (d f : ℕ → A) : Type 0 where
    below : (k : ℕ) → k < place → f k ≡ d k
    above : (k : ℕ) → place ≤ k → k < n → f k ≡ d (suc k)

  closed-slice :
      (place n : ℕ) (d f : ℕ → A)
      → place ≤ n
      → Closes place n d f
      → slice f n ≡ take place (slice d (suc n)) ++ drop (suc place) (slice d (suc n))
  unfolding slice
  closed-slice zero n d f le o = slice-eq f (λ k. d (suc k)) n (λ k lt. o.above k (omega arith) lt)
  closed-slice (suc place) zero d f le o = absurd (omega arith)
  closed-slice (suc place) (suc n) d f le o =
      rw
        (
          o.below 0 (omega arith),
          closed-slice place n (λ k. d (suc k)) (λ k. f (suc k)) (omega arith)
              (record {
                below = λ k lt. o.below (suc k) (omega arith);
                above = λ k ge lt. o.above (suc k) (omega arith) (omega arith);
              }),
        )
        refl

  pub copy_closes :
      (place n : ℕ) (d : ℕ → A)
      → place < n
      → slice (copy (place + 1) place (n - 1 - place) d) (n - 1)
        ≡ take place (slice d n) ++ drop (suc place) (slice d n)
  unfolding copy
  copy_closes place zero d lt = absurd (omega arith)
  copy_closes place (suc n) d lt =
      let less : suc n - 1 ≡ n = omega arith in
      rw less (
        closed-slice place n d _ (omega arith) (record {
          below = λ k lt.
              let out : (leb place k && ltb k (place + (n - place))) ≡ false = ground arith in
              rw out refl;
          above = λ k ge lt.
              let inside : (leb place k && ltb k (place + (n - place))) ≡ true = ground arith in
              let from : k - place + (place + 1) ≡ suc k = omega arith in rw inside (ap d from);
        }))
