-- ===== src/Container/BinaryHeap/Queue.antt =====
-- push and pop of kernel/src/container/binary_heap.rs on heaps.
use mathlib.Core.List.{Perm, perm_middle}
use mathlib.Core.List.Perm
use aurora_os.Prelude.{
  ℕ, zero, suc, ◌-◌, ◌/◌, ◌≤◌, ◌<◌, ◌≡◌, refl, sym, subst, arith, List, [], ◌∷◌, ◌++◌, append-nil,
  Option, none, some, true, length, length-append, get_elem?, take-append_length, last_of,
}
use aurora_os.KResult.{KResult, ok}
use aurora_os.Container.Vec.{get_elem?-middle}
use aurora_os.Container.BinaryHeap.{Ord, push, pop, pop_from}
use aurora_os.Container.BinaryHeap.Order.{OrdersBy, key, IsHeap, Rising, Sifts-Perm, sift_up-Sifts}
use aurora_os.Container.BinaryHeap.Order.Down.{Sinking, sift_down-Sifts}

get_elem?_left :
    {T : Type 0} (xs ys : List T) (i : ℕ) → i < length xs → get_elem? (xs ++ ys) i ≡ get_elem? xs i
get_elem?_left [] ys i h = absurd (omega arith)
get_elem?_left (x ∷ xs) ys zero h = refl
get_elem?_left (x ∷ xs) ys (suc i) h = get_elem?_left xs ys i (omega arith)

snoc-Perm : {T : Type 0} (xs : List T) (x : T) → Perm (xs ++ (x ∷ [])) (x ∷ xs)
snoc-Perm xs x = rw (append-nil xs) at (perm_middle {a = x} xs [])

pop_snoc :
    {T : Type 0} ⦃ord : Ord T⦄ (init : List T) (tail : T)
    → pop (init ++ (tail ∷ [])) ≡ pop_from tail init
unfolding pop
pop_snoc init tail =
    rw (pop, size, get_elem?-middle init [] tail, size, take-append_length init (tail ∷ [])) refl
  where
    size : length (init ++ (tail ∷ [])) - 1 ≡ length init
    size = omega (arith, length-append init (tail ∷ []))

module _ {T : Type 0} (rank : T → ℕ) where
  -- What pop answers.
  pub data Pops (xs : List T) : KResult (Option T × List T) → Type 0 where
    nothing : xs ≡ [] → Pops xs (ok (none, []))
    popped :
        (top : T) (ys : List T)
        → IsHeap rank ys
        → Perm (top ∷ ys) xs
        → ((c : ℕ) → c < length xs → rank top ≤ key rank xs c)
        → Pops xs (ok (some top, ys))

module _ {T : Type 0} (rank : T → ℕ) ⦃ord : Ord T⦄ (orders : OrdersBy ord rank) where
  -- For an order of the elements that is that of a number, push on a heap, with memory for one
  -- more, ends within its fuel and does not panic, in a heap of the elements and the new one.
  pub push-IsHeap :
      (object : T) (xs : List T)
      → IsHeap rank xs
      → (ys : List T) × (push true object xs ≡ ok ys) × IsHeap rank ys × Perm ys (object ∷ xs)
  unfolding push
  push-IsHeap object xs heap =
      Sifts-Perm rank (object ∷ xs) (xs ++ (object ∷ [])) _ (snoc-Perm xs object) (
        sift_up-Sifts rank orders (suc (length xs)) (xs ++ (object ∷ [])) (length xs) (omega arith)
          rising)
    where
      size : length (xs ++ (object ∷ [])) ≡ suc (length xs)
      size = omega (arith, length-append xs (object ∷ []))

      old : (c : ℕ) → c < length xs → key rank (xs ++ (object ∷ [])) c ≡ key rank xs c
      old c h = rw (get_elem?_left xs (object ∷ []) c h) refl

      rising : Rising rank (xs ++ (object ∷ [])) (length xs)
      rising = record {
        inside = omega (arith, size);
        others = λ c p q r.
            rw (old c (omega (arith, size)), old ((c - 1) / 2) (omega (arith, size)))
              (heap c p (omega (arith, size)));
        around = λ c p q r t. absurd (omega (arith, size));
      }

  -- No element of a heap is greater than the first.
  pub first_least :
      (fuel : ℕ) (xs : List T)
      → IsHeap rank xs
      → (c : ℕ) → c < fuel
      → c < length xs
      → key rank xs 0 ≤ key rank xs c
  first_least zero xs heap c f h = absurd (omega arith)
  first_least (suc fuel) xs heap zero f h = omega arith
  first_least (suc fuel) xs heap (suc c) f h =
      omega (
        arith,
        heap (suc c),
        first_least fuel xs heap ((suc c - 1) / 2) (omega arith) (omega arith),
      )

  pop_from-Pops :
      (tail : T) (init : List T)
      → IsHeap rank (init ++ (tail ∷ []))
      → Pops rank (init ++ (tail ∷ [])) (pop_from tail init)
  unfolding pop_from
  pop_from-Pops tail [] heap =
      popped tail [] (λ c p q. absurd (omega arith)) Perm.rfl
        (λ c h. let first : c ≡ 0 = omega arith in rw first (omega arith))
  pop_from-Pops tail (out ∷ xs) heap =
      let (ys, e, heap', p) =
        sift_down-Sifts rank orders (suc (length xs)) (tail ∷ xs) 0 (omega arith) (omega arith)
          sinking in
      rw (pop_from, e)
        (popped out ys heap' (Perm.cons out (Perm.trans p (Perm.symm (snoc-Perm xs tail))))
          (λ c h. first_least (suc c) (out ∷ (xs ++ (tail ∷ []))) heap c (omega arith) h))
    where
      later :
          (c : ℕ)
          → 0 < c
          → c < suc (length xs)
          → key rank (tail ∷ xs) c ≡ key rank (out ∷ (xs ++ (tail ∷ []))) c
      later zero p h = absurd (omega arith)
      later (suc c) p h = rw (get_elem?_left xs (tail ∷ []) c (omega arith)) refl

      sinking : Sinking rank (tail ∷ xs) 0
      sinking = record {
        others = λ c p q r.
            rw (later c p q, later ((c - 1) / 2) (omega arith) (omega arith))
              (heap c p (omega (arith, length-append xs (tail ∷ []))));
        around = λ c p q r t. absurd (omega arith);
      }

  -- For an order of the elements that is that of a number, pop of a heap ends within its fuel and
  -- does not panic: of the empty heap with nothing, and else with an element that none is greater
  -- than and a heap of the others.
  pub pop-Pops : (xs : List T) → IsHeap rank xs → Pops rank xs (pop xs)
  unfolding pop
  pop-Pops [] heap = nothing refl
  pop-Pops (x ∷ xs) heap =
      let (init, tail, e) = last_of x xs in
      subst (λ l. IsHeap rank l → Pops rank l (pop l)) (sym e)
        (λ h. rw (pop_snoc init tail) (pop_from-Pops tail init h)) heap
