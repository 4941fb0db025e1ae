-- ===== src/Alloc/CapAllocator/Store.antt =====
-- The store of kernel/src/alloc/cap_allocator.rs: what an update leaves, and the search for the
-- closest alive parent.
use aurora_os.Prelude.{
  ℕ, zero, suc, ◌+◌, ◌^◌, ◌≤◌, ◌<◌, ◌≡◌, ◌≢◌, refl, arith, true, false, Option, none, some, ◌==◌,
  Bool-cases, inl, inr, subst, ap, ==_iff, ==_refl,
}
use aurora_os.Alloc.CapAllocator.{
  CapAllocatorInner, Allocators, update, parent_of, alive, capacity, prealloc, used, closest_alive,
  get_parent,
}

-- A parent was made before its child.
abbrev pub Ordered : Allocators → Type 0
Ordered s = (i p : ℕ) → parent_of s i ≡ some p → p < i

-- No allocator has given out more than it may.
abbrev pub Within : Allocators → Type 0
Within s = (i : ℕ) → used s i + prealloc s i ≤ capacity s i

-- Machines have less than 2 ^ 62 bytes.
abbrev pub Bounded : Allocators → Type 0
Bounded s = (i : ℕ) → capacity s i ≤ 2 ^ 62

-- Bytes that the first n allocators have preallocated and not spent.
unfoldable pub total : ℕ → Allocators → ℕ
total zero s = 0
total (suc n) s = prealloc s n + total n s

pub update_same : (i : ℕ) (a : CapAllocatorInner) (s : Allocators) → update i a s i ≡ a
unfolding update
update_same i a s = ground arith

pub update_other : (i j : ℕ) (a : CapAllocatorInner) (s : Allocators) → j ≢ i → update i a s j ≡ s j
unfolding update
update_other i j a s ne = ground arith

total-beyond :
    (n i : ℕ) (a : CapAllocatorInner) (s : Allocators) → n ≤ i → total n (update i a s) ≡ total n s
unfolding total
total-beyond zero i a s le = refl
total-beyond (suc n) i a s le =
    let other = update_other i n a s (λ (e : n ≡ i). omega arith) in
    ground (arith, other, total-beyond n i a s (omega arith))

pub total-update :
    (n i : ℕ) (a : CapAllocatorInner) (s : Allocators)
    → i < n
    → total n (update i a s) + prealloc s i ≡ total n s + CapAllocatorInner.prealloc_size a
unfolding total
total-update zero i a s lt = absurd (omega arith)
total-update (suc n) i a s lt = elim (Bool-cases (i == n)) [
  | inl e ↦
      let i_eq : i ≡ n = (==_iff i n).0 e in
      let below = total-beyond n i a s (omega (arith, i_eq)) in
      let here : update i a s n ≡ a =
        subst (λ (k : ℕ). update i a s k ≡ a) i_eq (update_same i a s) in
      let old : prealloc s i ≡ prealloc s n = ap (λ (k : ℕ). prealloc s k) i_eq in
      rw (here, below) (omega (arith, old))
  | inr e ↦
      let ne : n ≢ i = λ (q : n ≡ i). ground (arith, q, ==_refl i) in
      let below = total-update n i a s (omega (arith, ne)) in
      rw (update_other i n a s ne) (omega (arith, below))
]

-- The closest parent on the way up that is alive.
pub data Closest (s : Allocators) : Option ℕ → Option ℕ → Type 0 where
  no_parent : Closest s none none
  living : (p : ℕ) → alive s p ≡ true → Closest s (some p) (some p)
  dead :
      (p : ℕ) (found : Option ℕ)
      → alive s p ≡ false
      → Closest s (parent_of s p) found
      → Closest s (some p) found

pub closest_alive-Closest :
    (fuel : ℕ) (s : Allocators) (cursor : Option ℕ)
    → Ordered s
    → ((p : ℕ) → cursor ≡ some p → p < fuel)
    → Closest s cursor (closest_alive fuel s cursor)
unfolding closest_alive
closest_alive-Closest zero s none h lt = no_parent
closest_alive-Closest zero s (some p) h lt = absurd (let below = lt p refl in omega arith)
closest_alive-Closest (suc fuel) s none h lt = no_parent
closest_alive-Closest (suc fuel) s (some p) h lt =
    let p_lt = lt p refl in
    elim (Bool-cases (alive s p)) [
      | inl e ↦ rw (e, closest_alive) (living p e)
      | inr e ↦
          let rest =
            closest_alive-Closest fuel s (parent_of s p) h
              (λ q (eq : parent_of s p ≡ some q). let q_lt = h p q eq in omega arith) in
          rw (e, closest_alive) (dead p (closest_alive fuel s (parent_of s p)) e rest)
    ]

-- In a tree where parents come before children the loop of get_parent ends, with the closest
-- parent on the way up that is alive, or with none if no parent on the way up is.
pub get_parent-Closest :
    (me : ℕ) (s : Allocators) → Ordered s → Closest s (parent_of s me) (get_parent me s).1
unfolding get_parent
get_parent-Closest me s h =
    closest_alive-Closest (suc me) s (parent_of s me) h
      (λ p (e : parent_of s me ≡ some p). let lt = h me p e in omega arith)

pub Closest-below :
    (s : Allocators) {cursor found : Option ℕ} (n : ℕ)
    → Ordered s
    → Closest s cursor found
    → ((p : ℕ) → cursor ≡ some p → p < n)
    → (q : ℕ) → found ≡ some q
    → q < n
Closest-below s n h no_parent lt q e = lt q e
Closest-below s n h (living p a) lt q e = lt q e
Closest-below s n h (dead p found a c) lt q e =
    Closest-below s n h c
      (λ r (eq : parent_of s p ≡ some r).
        let r_lt = h p r eq in let p_lt = lt p refl in omega arith)
      q e

-- A call may change parents and what is preallocated and used, nothing else.
pub record Kept (s s' : Allocators) : Type 0 where
  pub ordered : Ordered s'
  pub capacities : (i : ℕ) → capacity s' i ≡ capacity s i
  pub lives : (i : ℕ) → alive s' i ≡ alive s i

pub record Same (s s' : Allocators) : Type 0 where
  pub kept : Kept s s'
  pub preallocs : (i : ℕ) → prealloc s' i ≡ prealloc s i
  pub uses : (i : ℕ) → used s' i ≡ used s i

pub get_parent-lt : (me p : ℕ) (s : Allocators) → Ordered s → (get_parent me s).1 ≡ some p → p < me
get_parent-lt me p s h e =
    Closest-below s me h (get_parent-Closest me s h) (λ q (eq : parent_of s me ≡ some q). h me q eq)
      p e

pub update-Ordered :
    (me : ℕ) (a : CapAllocatorInner) (s : Allocators)
    → Ordered s
    → ((p : ℕ) → CapAllocatorInner.parent a ≡ some p → p < me)
    → Ordered (update me a s)
unfolding update
update-Ordered me a s h lt i p e = elim (Bool-cases (i == me)) [
  | inl hit ↦
      let i_eq : i ≡ me = (==_iff i me).0 hit in
      let p_lt = lt p (rw hit at e) in omega (arith, i_eq, p_lt)
  | inr miss ↦ h i p (rw miss at e)
]

-- An update that leaves everything but the parent of `me`.
pub reparent-Same :
    (me : ℕ) (found : Option ℕ) (s : Allocators)
    → Ordered s
    → ((p : ℕ) → found ≡ some p → p < me)
    → Same s (update me (record (s me) { parent = found }) s)
unfolding update
reparent-Same me found s h lt = record {
  kept = record {
    ordered = update-Ordered me (record (s me) { parent = found }) s h lt;
    capacities = λ i. ground arith;
    lives = λ i. ground arith;
  };
  preallocs = λ i. ground arith;
  uses = λ i. ground arith;
}

pub get_parent-Same : (me : ℕ) (s : Allocators) → Ordered s → Same s (get_parent me s).0
unfolding get_parent
get_parent-Same me s h =
    reparent-Same me (get_parent me s).1 s h
      (λ p (e : (get_parent me s).1 ≡ some p). get_parent-lt me p s h e)

Closest-alive :
    (s : Allocators) {cursor found : Option ℕ}
    → Closest s cursor found
    → (q : ℕ) → found ≡ some q
    → alive s q ≡ true
Closest-alive s no_parent q e = absurd (ground arith)
Closest-alive s (living p a) q e = ground arith
Closest-alive s (dead p found a c) q e = Closest-alive s c q e

pub get_parent-alive :
    (me p : ℕ) (s : Allocators) → Ordered s → (get_parent me s).1 ≡ some p → alive s p ≡ true
get_parent-alive me p s h e = Closest-alive s (get_parent-Closest me s h) p e
