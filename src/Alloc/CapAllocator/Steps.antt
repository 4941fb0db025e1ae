-- ===== src/Alloc/CapAllocator/Steps.antt =====
-- The single updates of the counters in kernel/src/alloc/cap_allocator.rs, and stores that differ by
-- nothing or by parents only.
use aurora_os.Prelude.{ℕ, zero, suc, ◌+◌, ◌-◌, ◌%◌, ◌≤◌, ◌<◌, ◌≡◌, ◌≢◌, refl, ◌∙◌, arith}
use aurora_os.BitUtils.{usize_mod}
use aurora_os.Alloc.CapAllocator.{Allocators, update, capacity, prealloc, used, spend, receive}
use aurora_os.Alloc.CapAllocator.Store.{
  Ordered, Within, Bounded, total, update_other, total-update, update-Ordered, Kept, Same,
}

pub Same-total : (n : ℕ) (s s' : Allocators) → Same s s' → total n s' ≡ total n s
unfolding total
Same-total zero s s' h = refl
Same-total (suc n) s s' h = omega (arith, h.preallocs n, Same-total n s s' h)

pub Same-refl : (s : Allocators) → Ordered s → Same s s
Same-refl s h = record {
  kept = record { ordered = h; capacities = λ i. refl; lives = λ i. refl };
  preallocs = λ i. refl;
  uses = λ i. refl;
}

pub Kept-trans : {s s' s'' : Allocators} → Kept s s' → Kept s' s'' → Kept s s''
Kept-trans h h' = record {
  ordered = h'.ordered;
  capacities = λ i. h'.capacities i ∙ h.capacities i;
  lives = λ i. h'.lives i ∙ h.lives i;
}

pub Same-Within : {s s' : Allocators} → Same s s' → Within s → Within s'
Same-Within same h i = omega (arith, same.preallocs i, same.uses i, same.kept.capacities i, h i)

pub Same-trans : {s s' s'' : Allocators} → Same s s' → Same s' s'' → Same s s''
Same-trans h h' = record {
  kept = Kept-trans h.kept h'.kept;
  preallocs = λ i. h'.preallocs i ∙ h.preallocs i;
  uses = λ i. h'.uses i ∙ h.uses i;
}

module _ (i bytes : ℕ) (s : Allocators) where
  pub spend-Kept : Ordered s → Kept s (spend i bytes s)
  unfolding spend update
  spend-Kept h = record {
    ordered = update-Ordered i _ s h (λ q e. h i q e);
    capacities = λ j. ground arith;
    lives = λ j. ground arith;
  }

  pub receive-Kept : Ordered s → Kept s (receive i bytes s)
  unfolding receive update
  receive-Kept h = record {
    ordered = update-Ordered i _ s h (λ q e. h i q e);
    capacities = λ j. ground arith;
    lives = λ j. ground arith;
  }

  -- Where the counters are within capacities of at most 2 ^ 62, no update wraps.
  module _ (within : Within s) (bounded : Bounded s) where
    less_word :
        bytes ≤ prealloc s i → (prealloc s i + usize_mod - bytes) % usize_mod ≡ prealloc s i - bytes
    less_word enough = omega (arith, within i, bounded i)

    used_word : bytes ≤ prealloc s i → (used s i + bytes) % usize_mod ≡ used s i + bytes
    used_word enough = omega (arith, within i, bounded i)

    more_word :
        used s i + prealloc s i + bytes ≤ capacity s i
        → (prealloc s i + bytes) % usize_mod ≡ prealloc s i + bytes
    more_word fits = omega (arith, bounded i)

    pub spend_here :
        bytes ≤ prealloc s i
        → (prealloc (spend i bytes s) i ≡ prealloc s i - bytes)
          × (used (spend i bytes s) i ≡ used s i + bytes)
    unfolding spend update
    spend_here enough = (ground (arith, less_word enough), ground (arith, used_word enough))

    pub receive_here :
        used s i + prealloc s i + bytes ≤ capacity s i
        → (prealloc (receive i bytes s) i ≡ prealloc s i + bytes)
          × (used (receive i bytes s) i ≡ used s i)
    unfolding receive update
    receive_here fits = (ground (arith, more_word fits), ground arith)

    pub spend-total :
        (n : ℕ) → i < n → bytes ≤ prealloc s i → total n (spend i bytes s) + bytes ≡ total n s
    unfolding spend
    spend-total n lt enough = omega (
      arith,
      less_word enough,
      total-update n i
          (record (s i) {
            prealloc_size = (prealloc s i + usize_mod - bytes) % usize_mod;
            used_size = (used s i + bytes) % usize_mod;
          })
          s lt,
    )

    pub receive-total :
        (n : ℕ)
        → i < n
        → used s i + prealloc s i + bytes ≤ capacity s i
        → total n (receive i bytes s) ≡ total n s + bytes
    unfolding receive
    receive-total n lt fits = omega (
      arith,
      more_word fits,
      total-update n i (record (s i) { prealloc_size = (prealloc s i + bytes) % usize_mod }) s lt,
    )

    pub spend-Within : bytes ≤ prealloc s i → Within (spend i bytes s)
    unfolding spend update
    spend-Within enough j = ground (arith, within j, within i, less_word enough, used_word enough)

    pub receive-Within : used s i + prealloc s i + bytes ≤ capacity s i → Within (receive i bytes s)
    unfolding receive update
    receive-Within fits j = ground (arith, within j, more_word fits)

  pub spend_other : (j : ℕ) → j ≢ i → spend i bytes s j ≡ s j
  unfolding spend
  spend_other j ne = update_other i j _ s ne

  pub receive_other : (j : ℕ) → j ≢ i → receive i bytes s j ≡ s j
  unfolding receive
  receive_other j ne = update_other i j _ s ne

pub Kept-Bounded : {s s' : Allocators} → Kept s s' → Bounded s → Bounded s'
Kept-Bounded kept bounded i = omega (arith, kept.capacities i, bounded i)
