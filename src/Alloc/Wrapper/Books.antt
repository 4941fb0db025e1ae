-- ===== src/Alloc/Wrapper/Books.antt =====
-- What one charge or refund of the wrapper of kernel/src/alloc/cap_allocator.rs does to the books.
use aurora_os.Prelude.{
  ℕ, ◌+◌, ◌^◌, ◌≤◌, ◌<◌, ◌≡◌, refl, ap, arith, true, some, Bool-cases, inl, inr,
}
use aurora_os.KResult.{KResult, ok, err, panic, KResult-cases}
use aurora_os.Alloc.CapAllocator
use aurora_os.Alloc.CapAllocator.{Allocators, alive, used, get_parent}
use aurora_os.Alloc.CapAllocator.Store.{
  Ordered, Within, Bounded, total, Kept, Same, get_parent-Same, get_parent-alive,
}
use aurora_os.Alloc.CapAllocator.Steps.{
  Kept-Bounded, Same-refl, Same-total, Same-Within, Same-trans, Kept-trans,
}
use aurora_os.Alloc.CapAllocator.Accounting.{Charged, alloc_bytes-Accounts, dealloc_bytes-Charged}
use aurora_os.Alloc.Wrapper.{Wrapped, target, with_inner, alloc_bytes, dealloc_bytes}

-- The store is one that `new_root` and the calls make, on a machine of the size assumed.
pub record Sound (ws : Wrapped) : Type 0 where
  pub ordered : Ordered (ws.1)
  pub within : Within (ws.1)
  pub bounded : Bounded (ws.1)

-- The payer is charged and given back these bytes, and nothing is lost among the allocators.
pub record Books (charged freed : ℕ) (ws ws' : Wrapped) : Type 0 where
  pub kept : Kept (ws.1) (ws'.1)
  pub use_sum : used (ws'.1) (ws'.0) + freed ≡ used (ws.1) (ws'.0) + charged
  pub totals : (n : ℕ) → ws'.0 < n → total n (ws'.1) + charged ≡ total n (ws.1) + freed
  pub within : Within (ws'.1)

pub Books-Sound : (c f : ℕ) (ws ws' : Wrapped) → Sound ws → Books c f ws ws' → Sound ws'
Books-Sound c f ws ws' h b = record {
  ordered = b.kept.ordered;
  within = b.within;
  bounded = λ i. omega (arith, b.kept.capacities i, h.bounded i);
}

pub Books-eq :
    (a b c d : ℕ) (ws ws' : Wrapped) → a + d ≡ c + b → Books a b ws ws' → Books c d ws ws'
Books-eq a b c d ws ws' e h = record {
  kept = h.kept;
  use_sum = omega (arith, h.use_sum, e);
  totals = λ n lt. omega (arith, h.totals n lt, e);
  within = h.within;
}

pub Books-trans :
    (a b c d : ℕ) (ws ws' ws'' : Wrapped)
    → ws''.0 ≡ ws'.0
    → Books a b ws ws'
    → Books c d ws' ws''
    → Books (a + c) (b + d) ws ws''
Books-trans a b c d ws ws' ws'' e h h' = record {
  kept = Kept-trans h.kept h'.kept;
  use_sum =
      let before : used (ws.1) (ws''.0) ≡ used (ws.1) (ws'.0) = ap (λ (i : ℕ). used (ws.1) i) e in
      let between : used (ws'.1) (ws''.0) ≡ used (ws'.1) (ws'.0) =
        ap (λ (i : ℕ). used (ws'.1) i) e in
      omega (arith, h.use_sum, h'.use_sum, before, between);
  totals = λ n lt. omega (arith, h.totals n (omega (arith, e)), h'.totals n lt);
  within = h'.within;
}

pub Same-Books :
    (ws : Wrapped) (t : ℕ) (s : Allocators) → Sound ws → Same (ws.1) s → Books 0 0 ws (t, s)
Same-Books ws t s h same = record {
  kept = same.kept;
  use_sum = omega (arith, same.uses t);
  totals = λ n lt. omega (arith, Same-total n (ws.1) s same);
  within = Same-Within same h.within;
}

Charged-Books :
    (c f : ℕ) (ws : Wrapped) (t : ℕ) (s₁ s₂ : Allocators)
    → Same (ws.1) s₁
    → Charged t c f s₁ s₂
    → Books c f ws (t, s₂)
Charged-Books c f ws t s₁ s₂ same h = record {
  kept = Kept-trans same.kept h.kept;
  use_sum = omega (arith, h.use_sum, same.uses t);
  totals = λ n lt. omega (arith, h.totals n lt, Same-total n (ws.1) s₁ same);
  within = h.within;
}

pub target-Same : (ws : Wrapped) → Ordered (ws.1) → Same (ws.1) (target ws).0
unfolding target
target-Same (w, s) h = elim (Bool-cases (alive s w)) [
  | inl e ↦ rw (e, target) (Same-refl s h)
  | inr e ↦ rw (e, target) (get_parent-Same w s h)
]

pub target-alive :
    (ws : Wrapped) (t : ℕ) → Ordered (ws.1) → (target ws).1 ≡ some t → alive (ws.1) t ≡ true
unfolding target
target-alive (w, s) t h e = elim (Bool-cases (alive s w)) [
  | inl l ↦ let e' : some w ≡ some t = rw (l, target) at e in ground arith
  | inr l ↦ get_parent-alive w t s h (rw (l, target) at e)
]

pub alive-target : (w : ℕ) (s : Allocators) → alive s w ≡ true → target (w, s) ≡ (s, some w)
unfolding target
alive-target w s e = rw (e, target) refl

with_inner-target :
    (f : ℕ → Allocators → Allocators × KResult (Unit {0})) (ws : Wrapped) (t : ℕ)
    → (target ws).1 ≡ some t
    → with_inner f ws ≡ ((t, (f t (target ws).0).0), (f t (target ws).0).1)
unfolding with_inner
with_inner-target f ws t e = rw (e, with_inner) refl

-- Charging the payer: the books of a success and of an error.
abbrev pub AllocOutcome : ℕ → ℕ → Wrapped → Wrapped → KResult (Unit {0}) → Type 0
AllocOutcome t size ws ws' (ok _) = Books size 0 ws ws' × (ws'.0 ≡ t)
AllocOutcome t size ws ws' (err e) = Books 0 0 ws ws'
AllocOutcome t size ws ws' panic = ⊥

pub alloc_bytes-Books :
    (size : ℕ) (ws : Wrapped) (t : ℕ)
    → Sound ws
    → (target ws).1 ≡ some t
    → size ≤ 2 ^ 61
    → AllocOutcome t size ws (alloc_bytes size ws).0 (alloc_bytes size ws).1
unfolding alloc_bytes
alloc_bytes-Books size ws t h e small =
    let s₁ = (target ws).0 in
    let same = target-Same ws h.ordered in
    let out =
      alloc_bytes-Accounts t size s₁ same.kept.ordered (Same-Within same h.within)
        (λ i. omega (arith, same.kept.capacities i, h.bounded i)) small in
    elim (KResult-cases (CapAllocator.alloc_bytes t size s₁).1) [
      | inl (_, r) ↦
          rw (with_inner-target (λ t'. CapAllocator.alloc_bytes t' size) ws t e, r)
            (
              Charged-Books size 0 ws t s₁ (CapAllocator.alloc_bytes t size s₁).0 same
                  (rw r at out),
              refl,
            )
      | inr (inl (x, r)) ↦
          rw (with_inner-target (λ t'. CapAllocator.alloc_bytes t' size) ws t e, r)
            (Same-Books ws t (CapAllocator.alloc_bytes t size s₁).0 h
              (Same-trans same (rw r at out)))
      | inr (inr r) ↦ absurd (rw r at out)
    ]

pub dealloc_bytes-Books :
    (size : ℕ) (ws : Wrapped) (t : ℕ)
    → Sound ws
    → (target ws).1 ≡ some t
    → size ≤ used (ws.1) t
    → ((dealloc_bytes size ws).1 ≡ ok tt)
      × Books 0 size ws (dealloc_bytes size ws).0
      × ((dealloc_bytes size ws).0.0 ≡ t)
unfolding dealloc_bytes
dealloc_bytes-Books size ws t h e le =
    let s₁ = (target ws).0 in
    let same = target-Same ws h.ordered in
    let (r, books) =
      dealloc_bytes-Charged t size s₁ same.kept.ordered (Same-Within same h.within)
        (Kept-Bounded same.kept h.bounded) (omega (arith, same.uses t)) in
    rw (with_inner-target (λ t'. CapAllocator.dealloc_bytes t' size) ws t e)
      (r, Charged-Books 0 size ws t s₁ (CapAllocator.dealloc_bytes t size s₁).0 same books, refl)
