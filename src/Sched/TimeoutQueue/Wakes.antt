-- ===== src/Sched/TimeoutQueue/Wakes.antt =====
-- Which threads wake_threads of kernel/src/sched/timeout_queue.rs wakes.
use mathlib.Core.List.{
  Perm, Mem, not-mem-nil, forall_mem-cons, mem-append_left, mem-cons_of_mem, mem-cons_self,
}
use mathlib.Core.List as ListOps
use mathlib.Core.List.Perm
use mathlib.Core.Nat as Unary
use native.Mathlib.Bridge.{le_prop}
use aurora_os.Prelude.{
  ℕ, zero, suc, ◌≤◌, ◌<◌, ◌≡◌, refl, sym, ap, ◌∙◌, arith, List, [], ◌∷◌, ◌++◌, map, Bool-cases, inl,
  inr, length, leb, leb→le, Option,
}
use aurora_os.KResult.{KResult, ok, ◌>>=◌}
use aurora_os.Container.BinaryHeap
use aurora_os.Container.BinaryHeap.Order.{IsHeap, key}
use aurora_os.Container.BinaryHeap.Queue.{Pops, nothing, popped, pop-Pops, first_least}
use aurora_os.Sched.TimeoutQueue.{ThreadTimeout, reverse, then_woken, wake_until, wake_threads}

native_of : Unary.ℕ → ℕ
native_of Unary.zero = 0
native_of (Unary.suc n) = suc (native_of n)

length-native : {T : Type 0} (xs : List T) → length xs ≡ native_of (ListOps.length xs)
unfolding native_of
length-native [] = refl
length-native (x ∷ xs) = ap suc (length-native xs)

length-Perm : {T : Type 0} (xs ys : List T) → Perm xs ys → length xs ≡ length ys
length-Perm xs ys p = length-native xs ∙ ap native_of (Perm.length-eq p) ∙ sym (length-native ys)

module _ {Thread : Type 0} where
  abbrev pub timeout : ThreadTimeout Thread → ℕ
  timeout t = t.timeout_nsec

  -- None of the timeouts is before `n`.
  abbrev pub From : ℕ → List (ThreadTimeout Thread) → Type 0
  From n ts = (t : ThreadTimeout Thread) → Mem t ts → n ≤ t.timeout_nsec

  abbrev pub Until : ℕ → List (ThreadTimeout Thread) → Type 0
  Until n ts = (t : ThreadTimeout Thread) → Mem t ts → t.timeout_nsec ≤ n

  abbrev pub InOrder : List (ThreadTimeout Thread) → Type 0
  InOrder [] = Unit {0}
  InOrder (t ∷ ts) = From t.timeout_nsec ts × InOrder ts

  -- The threads that are due are woken, each after those that were due before it, and the others
  -- are left in a heap.
  abbrev pub Wakes :
      ℕ → List (ThreadTimeout Thread) → KResult (List Thread × List (ThreadTimeout Thread)) → Type 0
  Wakes now threads r =
      (due left : List (ThreadTimeout Thread)) × (r ≡ ok (map (λ t. t.thread) due, left))
      × Perm (due ++ left) threads
      × Until now due
      × InOrder due
      × From (suc now) left
      × IsHeap timeout left

  From-keys :
      (n : ℕ) (ts : List (ThreadTimeout Thread))
      → ((c : ℕ) → c < length ts → n ≤ key timeout ts c)
      → From n ts
  From-keys n [] low = λ t m. absurd (not-mem-nil m)
  From-keys n (x ∷ ts) low =
      (forall_mem-cons (λ t. le_prop)).1
        (low 0 (omega arith), From-keys n ts (λ c h. low (suc c) (omega arith)))

  -- One turn of the loop, after which `rest` wakes the others.
  woken_next :
      (now : ℕ) (threads : List (ThreadTimeout Thread))
      (r : KResult (Option (ThreadTimeout Thread) × List (ThreadTimeout Thread)))
      (rest : List (ThreadTimeout Thread) → KResult (List Thread × List (ThreadTimeout Thread)))
      → Pops timeout threads r
      → 0 < length threads
      → key timeout threads 0 ≤ now
      → ((ys : List (ThreadTimeout Thread))
          → length ys < length threads
          → IsHeap timeout ys
          → Wakes now ys (rest ys))
      → Wakes now threads (r >>= λ q. then_woken q rest)
  woken_next now threads _ rest (nothing e) p due wakes =
      let empty : length threads ≡ 0 = ap length e in absurd (omega arith)
  woken_next now threads _ rest (popped top ys heap perm least) p due wakes =
      let size : suc (length ys) ≡ length threads = length-Perm _ _ perm in
      let (out, left, e, perm', until, ordered, later, heap') = wakes ys (omega arith) heap in
      let first : top.timeout_nsec ≤ now = omega (arith, least 0 p) in
      let low : From top.timeout_nsec threads = From-keys _ threads least in
      (
        top ∷ out,
        left,
        rw e refl,
        Perm.trans (Perm.cons top perm') perm,
        (forall_mem-cons (λ t. le_prop)).1 (first, until),
        (
          (λ t m. low t (
              (Perm.mem_iff perm).0
                (mem-cons_of_mem top ((Perm.mem_iff perm').0 (mem-append_left left m))))),
          ordered,
        ),
        later,
        heap',
      )

  wake_until-Wakes :
      (fuel now : ℕ) (threads : List (ThreadTimeout Thread))
      → length threads < fuel
      → IsHeap timeout threads
      → Wakes now threads (wake_until fuel now threads)
  unfolding wake_until BinaryHeap.peek
  wake_until-Wakes zero now threads f heap = absurd (omega arith)
  wake_until-Wakes (suc fuel) now [] f heap = (
    [],
    [],
    refl,
    Perm.rfl,
    (λ t m. absurd (not-mem-nil m)),
    tt,
    (λ t m. absurd (not-mem-nil m)),
    heap,
  )
  wake_until-Wakes (suc fuel) now (x ∷ xs) f heap = elim (Bool-cases (leb x.timeout_nsec now)) [
    | inl e ↦
        rw (wake_until, e)
          (woken_next now (x ∷ xs) _ _ (pop-Pops timeout (λ a b. refl) (x ∷ xs) heap) (omega arith)
            (leb→le _ _ e) (λ ys h heap'. wake_until-Wakes fuel now ys (omega arith) heap'))
    | inr e ↦
        let after : now < x.timeout_nsec = ground arith in
        (
          [],
          x ∷ xs,
          rw (wake_until, e) refl,
          Perm.rfl,
          (λ t m. absurd (not-mem-nil m)),
          tt,
          From-keys _ (x ∷ xs) (λ c h.
              omega
                (arith, first_least timeout (λ a b. refl) (suc c) (x ∷ xs) heap c (omega arith) h)),
          heap,
        )
  ]

  -- From a heap wake_threads ends within its fuel without a panic.
  pub wake_threads-Wakes :
      (now : ℕ) (threads : List (ThreadTimeout Thread))
      → IsHeap timeout threads
      → Wakes now threads (wake_threads now threads)
  unfolding wake_threads
  wake_threads-Wakes now threads heap =
      wake_until-Wakes (suc (length threads)) now threads (omega arith) heap
