-- ===== src/Alloc/CapAllocator/Accounting.antt =====
-- The books of kernel/src/alloc/cap_allocator.rs: what alloc_bytes and dealloc_bytes charge.
use aurora_os.Prelude.{
  ℕ, ◌+◌, ◌-◌, ◌%◌, ◌^◌, ◌≤◌, ◌<◌, ◌≡◌, refl, arith, false, Bool-cases, inl, inr, ltb,
}
use aurora_os.BitUtils.{page_size, usize_mod, align_up}
use aurora_os.KResult.{KResult, ok, err, panic, KResult-cases}
use aurora_os.Alloc.CapAllocator.{
  Allocators, update, prealloc, used, prealloc_inner, spend, alloc_bytes, dealloc_bytes,
}
use aurora_os.Alloc.CapAllocator.Store.{
  Ordered, Within, Bounded, total, total-update, update-Ordered, Kept, Same,
}
use aurora_os.Alloc.CapAllocator.Steps.{
  Kept-trans, Kept-Bounded, spend-Kept, spend_here, spend-total, spend-Within,
}
use aurora_os.Alloc.CapAllocator.Prealloc.{Moves, align_up-page_size, prealloc_inner-Outcome}

-- The store after `me` was charged `bytes` and given `freed`: nothing is lost among the allocators.
pub record Charged (me bytes freed : ℕ) (s s' : Allocators) : Type 0 where
  pub kept : Kept s s'
  pub use_sum : used s' me + freed ≡ used s me + bytes
  pub totals : (n : ℕ) → me < n → total n s' + bytes ≡ total n s + freed
  pub within : Within s'

-- An error leaves every counter as it was, and there is no panic.
abbrev pub Accounts : ℕ → ℕ → Allocators → Allocators → KResult (Unit {0}) → Type 0
Accounts me bytes s s' (ok _) = Charged me bytes 0 s s'
Accounts me bytes s s' (err e) = Same s s'
Accounts me bytes s s' panic = ⊥

spent-Charged :
    (me bytes need : ℕ) (s s₁ : Allocators)
    → Moves me need s s₁
    → Bounded s
    → bytes ≤ prealloc s me + need
    → Charged me bytes 0 s (spend me bytes s₁)
spent-Charged me bytes need s s₁ moved bounded enough =
    let bounded₁ = Kept-Bounded moved.kept bounded in
    let here : bytes ≤ prealloc s₁ me = omega (arith, moved.gained) in
    record {
      kept = Kept-trans moved.kept (spend-Kept me bytes s₁ moved.kept.ordered);
      use_sum =
          omega (arith, (spend_here me bytes s₁ moved.within bounded₁ here).1, moved.use_same);
      totals = λ n lt.
          omega (arith, spend-total me bytes s₁ moved.within bounded₁ n lt here, moved.totals n lt);
      within = spend-Within me bytes s₁ moved.within bounded₁ here;
    }

-- In a tree of allocators where parents come before children, used and preallocated bytes are
-- within each capacity and capacities are at most 2 ^ 62, a call of alloc_bytes for at most 2 ^ 61
-- bytes does not panic; an error leaves all counters as they were, and a success charges the
-- allocator exactly the bytes, takes exactly them from the preallocated bytes of all allocators
-- together, and keeps the counters within the capacities.
pub alloc_bytes-Accounts :
    (me bytes : ℕ) (s : Allocators)
    → Ordered s
    → Within s
    → Bounded s
    → bytes ≤ 2 ^ 61
    → Accounts me bytes s (alloc_bytes me bytes s).0 (alloc_bytes me bytes s).1
unfolding alloc_bytes
alloc_bytes-Accounts me bytes s h within bounded small =
    elim (Bool-cases (ltb (prealloc s me) bytes)) [
      | inr enough ↦
          let here : bytes ≤ prealloc s me = ground arith in
          rw (enough, alloc_bytes)
            (record {
              kept = spend-Kept me bytes s h;
              use_sum = omega (arith, (spend_here me bytes s within bounded here).1);
              totals = λ n lt. omega (arith, spend-total me bytes s within bounded n lt here);
              within = spend-Within me bytes s within bounded here;
            })
      | inl short ↦
          let need = bytes - prealloc s me in
          let round = align_up-page_size need (omega arith) in
          let b = align_up need page_size in
          let moved = prealloc_inner-Outcome 7 me b s h within bounded (omega (arith, round.1)) in
          elim (KResult-cases (prealloc_inner 7 me b s).1) [
            | inl (_, r) ↦
                rw (short, r, alloc_bytes)
                  (spent-Charged me bytes b s (prealloc_inner 7 me b s).0 (rw r at moved) bounded
                    (omega (arith, round.0)))
            | inr (inl (x, r)) ↦ rw (short, r, alloc_bytes) (rw r at moved)
            | inr (inr r) ↦ absurd (rw r at moved)
          ]
    ]

-- Freeing what is used gives it back to the same allocator.
pub dealloc_bytes-Charged :
    (me bytes : ℕ) (s : Allocators)
    → Ordered s
    → Within s
    → Bounded s
    → bytes ≤ used s me
    → ((dealloc_bytes me bytes s).1 ≡ ok tt) × Charged me 0 bytes s (dealloc_bytes me bytes s).0
unfolding dealloc_bytes update
dealloc_bytes-Charged me bytes s h within bounded le =
    let word : (prealloc s me + bytes) % usize_mod ≡ prealloc s me + bytes =
      omega (arith, within me, bounded me) in
    let c : ltb (used s me) bytes ≡ false = ground arith in
    rw (c, dealloc_bytes)
      (
        refl,
        record {
          kept = record {
            ordered = update-Ordered me _ s h (λ q e. h me q e);
            capacities = λ j. ground arith;
            lives = λ j. ground arith;
          };
          use_sum = ground arith;
          totals = λ n lt. omega (arith, word, total-update n me _ s lt);
          within = λ j. ground (arith, within j, within me, word);
        },
      )
