-- ===== src/Container/HeapTests.antt =====
-- Runs of the heap of kernel/src/container/binary_heap.rs on numbers, the least of them on top.
use mathlib.Core.List.{Perm}
use aurora_os.Prelude.{ℕ, ◌≡◌, refl, arith, List, [], ◌∷◌, some, true, ltb, suc, zero}
use aurora_os.KResult.{ok}
use aurora_os.Container.BinaryHeap.{Ord, push, pop}
use aurora_os.Container.BinaryHeap.Order.{IsHeap}
use aurora_os.Container.BinaryHeap.Queue.{push-IsHeap, pop-Pops, Pops}

instance abbrev reversed : Ord ℕ
reversed = record { lt = λ a b. ltb b a }

abbrev itself : ℕ → ℕ
itself n = n

abbrev numbers : List ℕ
numbers = 2 ∷ 5 ∷ 3 ∷ 9 ∷ []

numbers-IsHeap : IsHeap itself numbers
numbers-IsHeap zero p h = absurd (omega arith)
numbers-IsHeap (suc zero) p h = omega arith
numbers-IsHeap (suc (suc zero)) p h = omega arith
numbers-IsHeap (suc (suc (suc zero))) p h = omega arith
numbers-IsHeap (suc (suc (suc (suc c)))) p h = absurd (omega arith)

push_run : push true 1 numbers ≡ ok (1 ∷ 2 ∷ 3 ∷ 9 ∷ 5 ∷ [])
unfolding push
push_run = refl

pop_run : pop numbers ≡ ok (some 2, 3 ∷ 5 ∷ 9 ∷ [])
unfolding pop
pop_run = refl

push-IsHeap_example :
    (ys : List ℕ) × (push true 1 numbers ≡ ok ys) × IsHeap itself ys × Perm ys (1 ∷ numbers)
push-IsHeap_example = push-IsHeap itself (λ a b. refl) 1 numbers numbers-IsHeap

pop-Pops_example : Pops itself numbers (pop numbers)
pop-Pops_example = pop-Pops itself (λ a b. refl) numbers numbers-IsHeap
