-- ===== src/Alloc/Wrapper/Paid.antt =====
-- What the wrapper of kernel/src/alloc/cap_allocator.rs charges for an allocation of memory.
use aurora_os.Prelude.{
  ℕ, ◌+◌, ◌-◌, ◌^◌, ◌≤◌, ◌<◌, ◌≡◌, ◌∙◌, ap, arith, true, false, Option, none, some, Bool-cases, inl,
  inr, ltb, ◌==◌, ==_iff,
}
use aurora_os.KResult.{KResult, ok, err, panic, KResult-cases}
use aurora_os.Alloc.CapAllocator.{Allocators, alive, used}
use aurora_os.Alloc.CapAllocator.Steps.{Same-refl}
use aurora_os.Alloc.Wrapper.{
  Wrapped, target, alloc_bytes, dealloc_bytes, heap_alloc, settle, realloc,
}
use aurora_os.Alloc.Wrapper.Books.{
  Sound, Books, Books-Sound, Books-eq, Books-trans, Same-Books, target-alive, alive-target,
  alloc_bytes-Books, dealloc_bytes-Books,
}

-- The books of a call that answers with memory or with nothing.
abbrev pub Paid {ℓ} : {A : Type ℓ} → ℕ → ℕ → Wrapped → Wrapped → KResult (Option A) → Type 0
Paid charged freed ws ws' (ok (some a)) = Books charged freed ws ws'
Paid charged freed ws ws' (ok none) = Books 0 0 ws ws'
Paid charged freed ws ws' (err e) = ⊥
Paid charged freed ws ws' panic = ⊥

-- After a success the payer is alive and the size is among what it uses.
payer-target :
    (size : ℕ) (ws ws' : Wrapped) (t : ℕ)
    → Sound ws
    → (target ws).1 ≡ some t
    → Books size 0 ws ws'
    → ws'.0 ≡ t
    → ((target ws').1 ≡ some (ws'.0)) × (size ≤ used (ws'.1) (ws'.0))
payer-target size ws (w', s') t h e b eq =
    let t_alive = target-alive ws t h.ordered e in
    let w_alive : alive s' w' ≡ true =
      b.kept.lives w' ∙ (ap (λ (i : ℕ). alive (ws.1) i) eq ∙ t_alive) in
    (ap (λ (r : Allocators × Option ℕ). r.1) (alive-target w' s' w_alive), omega (arith, b.use_sum))

-- A charge that is taken back.
refund-Books :
    (size : ℕ) (ws ws' : Wrapped) (t : ℕ)
    → Sound ws
    → (target ws).1 ≡ some t
    → Books size 0 ws ws' × (ws'.0 ≡ t)
    → ((dealloc_bytes size ws').1 ≡ ok tt) × Books 0 0 ws (dealloc_bytes size ws').0
refund-Books size ws ws' t h e (b, eq) =
    let (e', le) = payer-target size ws ws' t h e b eq in
    let (r, b', eq') = dealloc_bytes-Books size ws' (ws'.0) (Books-Sound size 0 ws ws' h b) e' le in
    (
      r,
      Books-eq (size + 0) (0 + size) 0 0 ws (dealloc_bytes size ws').0 (omega arith)
          (Books-trans size 0 0 size ws ws' (dealloc_bytes size ws').0 eq' b b'),
    )

-- The length of the heap's answer.
abbrev pub size_of {ℓ} : {A : Type ℓ} → (A → ℕ) → Option A → ℕ
size_of size none = 0
size_of size (some a) = size a

module _ {ℓ} {A : Type ℓ} where
  -- Under the conditions on the tree, when the wrapper has a living allocator to charge and the
  -- heap answers with at most 2 ^ 61 bytes, heap_alloc does not panic; it charges the payer
  -- exactly the length of the memory that it answers with, and nothing if it answers with none.
  pub heap_alloc-Paid :
      (size : A → ℕ) (allocation : Option A) (ws : Wrapped) (t : ℕ)
      → Sound ws
      → (target ws).1 ≡ some t
      → ((a : A) → size a ≤ 2 ^ 61)
      → Paid
          (size_of size allocation)
          0
          ws
          (heap_alloc size allocation ws).0
          (heap_alloc size allocation ws).1
  unfolding heap_alloc
  heap_alloc-Paid size none ws t h e small =
      Same-Books ws (ws.0) (ws.1) h (Same-refl (ws.1) h.ordered)
  heap_alloc-Paid size (some a) ws t h e small =
      let out = alloc_bytes-Books (size a) ws t h e (small a) in
      elim (KResult-cases (alloc_bytes (size a) ws).1) [
        | inl (_, r) ↦
            let (books, eq) : Books (size a) 0 ws (alloc_bytes (size a) ws).0
                × ((alloc_bytes (size a) ws).0.0 ≡ t) =
              rw r at out in
            rw (r, heap_alloc) books
        | inr (inl (x, r)) ↦ rw (r, heap_alloc) (rw r at out)
        | inr (inr r) ↦ absurd (rw r at out)
      ]

  settle-Paid :
      (old_size new_size : ℕ) (allocation : Option A) (ws ws₁ : Wrapped) (t : ℕ)
      → Sound ws
      → (target ws).1 ≡ some t
      → old_size < new_size
      → Books (new_size - old_size) 0 ws ws₁ × (ws₁.0 ≡ t)
      → Paid new_size old_size ws
          (settle old_size new_size allocation ws₁).0
          (settle old_size new_size allocation ws₁).1
  unfolding settle
  settle-Paid old new none ws ws₁ t h e lt b =
      let (r₂, back) = refund-Books (new - old) ws ws₁ t h e b in
      let l : ltb old new ≡ true = ground arith in rw (l, r₂, settle) back
  settle-Paid old new (some a) ws ws₁ t h e lt b =
      let l : ltb new old ≡ false = ground arith in
      rw (l, settle) (Books-eq (new - old) 0 new old ws ws₁ (omega arith) (b.0))

  shrink-Paid :
      (old_size new_size : ℕ) (allocation : Option A) (ws : Wrapped) (t : ℕ)
      → Sound ws
      → (target ws).1 ≡ some t
      → new_size < old_size
      → old_size ≤ used (ws.1) t
      → Paid new_size old_size ws
          (settle old_size new_size allocation ws).0
          (settle old_size new_size allocation ws).1
  unfolding settle
  shrink-Paid old new none ws t h e lt le =
      let l : ltb old new ≡ false = ground arith in
      rw (l, settle) (Same-Books ws (ws.0) (ws.1) h (Same-refl (ws.1) h.ordered))
  shrink-Paid old new (some a) ws t h e lt le =
      let l : ltb new old ≡ true = ground arith in
      let (r, b, _) = dealloc_bytes-Books (old - new) ws t h e (omega arith) in
      rw (l, r, settle)
        (Books-eq 0 (old - new) new old ws (dealloc_bytes (old - new) ws).0 (omega arith) b)

  -- Under the conditions on the tree, when the wrapper has a living allocator to charge, the old
  -- size is among what that one uses and the new size is at most 2 ^ 61, a reallocation does not
  -- panic; if it answers with memory the payer is charged the new size in place of the old, if it
  -- answers with none nothing is charged, and the preallocated bytes of all allocators together
  -- change by exactly that.
  pub realloc-Paid :
      (old : A) (old_size new_size : ℕ) (allocation : Option A) (ws : Wrapped) (t : ℕ)
      → Sound ws
      → (target ws).1 ≡ some t
      → old_size ≤ used (ws.1) t
      → new_size ≤ 2 ^ 61
      → Paid new_size old_size ws
          (realloc old old_size new_size allocation ws).0
          (realloc old old_size new_size allocation ws).1
  unfolding realloc
  realloc-Paid old o n allocation ws t h e le small = elim (Bool-cases (o == n)) [
    | inl same ↦
        rw (same, realloc)
          (Books-eq 0 0 n o ws ws (omega (arith, (==_iff o n).0 same))
            (Same-Books ws (ws.0) (ws.1) h (Same-refl (ws.1) h.ordered)))
    | inr differ ↦ elim (Bool-cases (ltb o n)) [
      | inr shrinks ↦
          rw (differ, shrinks, realloc) (shrink-Paid o n allocation ws t h e (ground arith) le)
      | inl grows ↦
          let out = alloc_bytes-Books (n - o) ws t h e (omega arith) in
          let ws₁ = (alloc_bytes (n - o) ws).0 in
          elim (KResult-cases (alloc_bytes (n - o) ws).1) [
            | inl (_, r) ↦
                rw (differ, grows, r, realloc)
                  (settle-Paid o n allocation ws ws₁ t h e (ground arith) (rw r at out))
            | inr (inl (x, r)) ↦ rw (differ, grows, r, realloc) (rw r at out)
            | inr (inr r) ↦ absurd (rw r at out)
          ]
    ]
  ]
