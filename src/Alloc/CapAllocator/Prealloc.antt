-- ===== src/Alloc/CapAllocator/Prealloc.antt =====
-- What prealloc_inner of kernel/src/alloc/cap_allocator.rs does to the counters.
use aurora_os.Prelude.{
  ℕ, zero, suc, ◌+◌, ◌-◌, ◌*◌, ◌^◌, ◌≤◌, ◌<◌, ◌≡◌, ◌≢◌, ◌∙◌, ap, arith, false, Bool-cases,
  Option-cases, inl, inr, ltb, ◌%◌,
}
use aurora_os.BitUtils.{usize_mod, page_size, align_up}
use aurora_os.BitUtils.Align.{align_up_least}
use aurora_os.KResult.{KResult, ok, err, panic, KResult-cases}
use aurora_os.Alloc.CapAllocator.{
  CapAllocatorInner, Allocators, capacity, prealloc, used, get_parent, transfer, prealloc_inner,
  spend,
}
use aurora_os.Alloc.CapAllocator.Store.{
  Ordered, Within, Bounded, total, Kept, Same, get_parent-lt, get_parent-Same,
}
use aurora_os.Alloc.CapAllocator.Steps.{
  Same-total, Same-refl, Kept-trans, Same-Within, Same-trans, spend-Kept, receive-Kept, spend_other,
  receive_here, receive_other, spend-total, receive-total, spend-Within, receive-Within,
  Kept-Bounded,
}

-- `bytes` came from the ancestors of `me` to what `me` has preallocated.
pub record Moves (me bytes : ℕ) (s s' : Allocators) : Type 0 where
  pub kept : Kept s s'
  pub gained : prealloc s' me ≡ prealloc s me + bytes
  pub use_same : used s' me ≡ used s me
  pub above : (i : ℕ) → me < i → (prealloc s' i ≡ prealloc s i) × (used s' i ≡ used s i)
  pub totals : (n : ℕ) → me < n → total n s' ≡ total n s
  pub within : Within s'

-- The last step of a success: from `s` to `s₁` the parent may have been supplied.
pub transfer-Moves :
    (p me bytes : ℕ) (s s₁ : Allocators)
    → p < me
    → Kept s s₁
    → Within s₁
    → Bounded s
    → ((i : ℕ) → p < i → (prealloc s₁ i ≡ prealloc s i) × (used s₁ i ≡ used s i))
    → ((n : ℕ) → me < n → total n s₁ ≡ total n s)
    → bytes ≤ prealloc s₁ p
    → used s me + prealloc s me + bytes ≤ capacity s me
    → Moves me bytes s (transfer p me bytes s₁)
unfolding transfer
transfer-Moves p me bytes s s₁ p_lt kept within bounded above totals enough fits =
    let s₂ = spend p bytes s₁ in
    let bounded₁ = Kept-Bounded kept bounded in
    let within₂ = spend-Within p bytes s₁ within bounded₁ enough in
    let me_ne : me ≢ p = λ (e : me ≡ p). omega arith in
    let me_same = spend_other p bytes s₁ me me_ne in
    let p_ok : prealloc s₂ me ≡ prealloc s₁ me = ap CapAllocatorInner.prealloc_size me_same in
    let u_ok : used s₂ me ≡ used s₁ me = ap CapAllocatorInner.used_size me_same in
    let kept₂ = Kept-trans kept (spend-Kept p bytes s₁ kept.ordered) in
    let me_above = above me p_lt in
    let me_cap = kept₂.capacities me in
    let bounded₂ = Kept-Bounded kept₂ bounded in
    let fits₂ : used s₂ me + prealloc s₂ me + bytes ≤ capacity s₂ me =
      omega (arith, p_ok, u_ok, me_above.0, me_above.1, me_cap) in
    let here = receive_here me bytes s₂ within₂ bounded₂ fits₂ in
    record {
      kept = Kept-trans kept₂ (receive-Kept me bytes s₂ kept₂.ordered);
      gained = omega (arith, here.0, p_ok, me_above.0);
      use_same = omega (arith, here.1, u_ok, me_above.1);
      above = λ i lt.
          let r = receive_other me bytes s₂ i (λ (e : i ≡ me). omega arith) in
          let q = spend_other p bytes s₁ i (λ (e : i ≡ p). omega arith) in
          let old = above i (omega arith) in
          (
            ap CapAllocatorInner.prealloc_size (r ∙ q) ∙ old.0,
            ap CapAllocatorInner.used_size (r ∙ q) ∙ old.1,
          );
      totals = λ n lt. omega (
        arith,
        receive-total me bytes s₂ within₂ bounded₂ n lt fits₂,
        spend-total p bytes s₁ within bounded₁ n (omega arith) enough,
        totals n lt,
      );
      within = receive-Within me bytes s₂ within₂ bounded₂ fits₂;
    }

-- What a call of `prealloc_inner` does, by its result: an error leaves the counters alone.
abbrev pub Outcome : ℕ → ℕ → Allocators → Allocators → KResult (Unit {0}) → Type 0
Outcome me bytes s s' (ok _) = Moves me bytes s s'
Outcome me bytes s s' (err e) = Same s s'
Outcome me bytes s s' panic = ⊥

pub align_up-page_size :
    (need : ℕ)
    → need ≤ 2 ^ 62
    → (need ≤ align_up need page_size) × (align_up need page_size < need + 4096)
align_up-page_size need le =
    let least = align_up_least need 12 (omega arith) (omega arith) in (least.0, least.1)

-- The transfer of a call: `s₁` is the store with the new parent, `s₂` the one where the parent has
-- enough.
supplied-Moves :
    (p me bytes need : ℕ) (s s₁ s₂ : Allocators)
    → p < me
    → Within s
    → Bounded s
    → Same s s₁
    → Moves p need s₁ s₂
    → bytes ≤ prealloc s₁ p + need
    → used s me + prealloc s me + bytes ≤ capacity s me
    → Moves me bytes s (transfer p me bytes s₂)
supplied-Moves p me bytes need s s₁ s₂ p_lt within bounded same moved enough fits =
    transfer-Moves p me bytes s s₂ p_lt (Kept-trans same.kept moved.kept) moved.within bounded
      (λ i lt. let a = moved.above i lt in (a.0 ∙ same.preallocs i, a.1 ∙ same.uses i))
      (λ n lt. moved.totals n (omega arith) ∙ Same-total n s s₁ same) (omega (arith, moved.gained))
      fits

ready-Moves :
    (p me bytes : ℕ) (s s₁ : Allocators)
    → p < me
    → Within s
    → Bounded s
    → Same s s₁
    → bytes ≤ prealloc s₁ p
    → used s me + prealloc s me + bytes ≤ capacity s me
    → Moves me bytes s (transfer p me bytes s₁)
ready-Moves p me bytes s s₁ p_lt within bounded same enough fits =
    transfer-Moves p me bytes s s₁ p_lt same.kept (Same-Within same within) bounded
      (λ i lt. (same.preallocs i, same.uses i)) (λ n lt. Same-total n s s₁ same) enough fits

-- The check of the capacity does not wrap.
capacity_test :
    (u p b c : ℕ)
    → u + p ≤ c
    → c ≤ 2 ^ 62
    → b ≤ 2 ^ 62
    → ltb c ((u + p + b) % usize_mod) ≡ false
    → u + p + b ≤ c
capacity_test u p b c le bound small e = ground arith

-- In a tree as above, a call of prealloc_inner whose bytes and one page for each level left are at
-- most 2 ^ 62 does not panic; an error leaves all counters as they were, and a success adds
-- exactly the bytes to what the allocator has preallocated, leaves what it uses and the allocators
-- after it, keeps the sum of the preallocated bytes of all allocators and keeps the counters
-- within the capacities.
pub prealloc_inner-Outcome :
    (depth me bytes : ℕ) (s : Allocators)
    → Ordered s
    → Within s
    → Bounded s
    → bytes + depth * 4096 ≤ 2 ^ 62
    → Outcome me bytes s (prealloc_inner depth me bytes s).0 (prealloc_inner depth me bytes s).1
unfolding prealloc_inner
prealloc_inner-Outcome zero me bytes s h within bounded small = Same-refl s h
prealloc_inner-Outcome (suc depth) me bytes s h within bounded small =
    let s₁ = (get_parent me s).0 in
    let same : Same s s₁ = get_parent-Same me s h in
    elim (Bool-cases (ltb (capacity s me) ((used s me + prealloc s me + bytes) % usize_mod))) [
      | inl over ↦ rw (over, prealloc_inner) (Same-refl s h)
      | inr under ↦
          let fits : used s me + prealloc s me + bytes ≤ capacity s me =
            capacity_test (used s me) (prealloc s me) bytes (capacity s me) (within me) (bounded me)
              (omega arith) under in
          elim (Option-cases (get_parent me s).1) [
            | inl e ↦ rw (under, e, prealloc_inner) same
            | inr (p, e) ↦
                let p_lt = get_parent-lt me p s h e in
                elim (Bool-cases (ltb (prealloc s₁ p) bytes)) [
                  | inr enough ↦
                      rw (under, e, enough, prealloc_inner)
                        (ready-Moves p me bytes s s₁ p_lt within bounded same (ground arith) fits)
                  | inl short ↦
                      let need = bytes - prealloc s₁ p in
                      let round = align_up-page_size need (omega arith) in
                      let b = align_up need page_size in
                      let ih =
                        prealloc_inner-Outcome depth p b s₁ same.kept.ordered
                          (Same-Within same within)
                          (λ i. omega (arith, same.kept.capacities i, bounded i))
                          (omega (arith, round.1)) in
                      elim (KResult-cases (prealloc_inner depth p b s₁).1) [
                        | inl (_, r) ↦
                            rw (under, e, short, r, prealloc_inner)
                              (supplied-Moves p me bytes b s s₁ (prealloc_inner depth p b s₁).0 p_lt
                                within bounded same (rw r at ih) (omega (arith, round.0)) fits)
                        | inr (inl (x, r)) ↦
                            rw (under, e, short, r, prealloc_inner) (Same-trans same (rw r at ih))
                        | inr (inr r) ↦ absurd (rw r at ih)
                      ]
                ]
          ]
    ]
