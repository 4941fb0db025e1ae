-- ===== src/Sched/TimeoutQueue/History.antt =====
-- The states of a queue of kernel/src/sched/timeout_queue.rs over time.
use aurora_os.Prelude.{ℕ, ◌≡◌, refl, arith, List, [], Bool, true, false}
use aurora_os.KResult.{ok}
use aurora_os.Container.BinaryHeap
use aurora_os.Container.BinaryHeap.Order.{IsHeap}
use aurora_os.Container.BinaryHeap.Queue.{push-IsHeap}
use aurora_os.Sched.TimeoutQueue.{ThreadTimeout, reverse, insert_thread, wake_threads}
use aurora_os.Sched.TimeoutQueue.Wakes.{timeout, Wakes, wake_threads-Wakes}

module _ {Thread : Type 0} where
  -- The queue begins empty; then come insertions that succeed and wakings, in any order.
  pub data Reach : List (ThreadTimeout Thread) → Type 0 where
    new : Reach []
    inserted :
        {threads ys : List (ThreadTimeout Thread)} (room : Bool) (thread : Thread) (nsec : ℕ)
        → Reach threads
        → insert_thread room thread nsec threads ≡ ok ys
        → Reach ys
    woken :
        {threads ys : List (ThreadTimeout Thread)} (now : ℕ) (out : List Thread)
        → Reach threads
        → wake_threads now threads ≡ ok (out, ys)
        → Reach ys

  insert_thread-IsHeap :
      (room : Bool) (thread : Thread) (nsec : ℕ) (threads ys : List (ThreadTimeout Thread))
      → IsHeap timeout threads
      → insert_thread room thread nsec threads ≡ ok ys
      → IsHeap timeout ys
  unfolding insert_thread BinaryHeap.push
  insert_thread-IsHeap false thread nsec threads ys heap e = cc
  insert_thread-IsHeap true thread nsec threads ys heap e =
      let (zs, f, heap', p) =
        push-IsHeap timeout (λ a b. refl) (record { timeout_nsec = nsec; thread = thread }) threads
          heap in
      let same : zs ≡ ys = cc in rw same at heap'

  Reach-IsHeap : {threads : List (ThreadTimeout Thread)} → Reach threads → IsHeap timeout threads
  Reach-IsHeap new = λ c p h. absurd (omega arith)
  Reach-IsHeap (inserted room thread nsec s e) =
      insert_thread-IsHeap room thread nsec _ _ (Reach-IsHeap s) e
  Reach-IsHeap (woken now out s e) =
      let (due, left, f, p, until, ordered, later, heap) =
        wake_threads-Wakes now _ (Reach-IsHeap s) in
      let same : left ≡ _ = cc in rw same at heap

  -- In every state of the queue that insertions and wakings come to, wake_threads ends within its
  -- fuel and does not panic: it wakes the threads with a timeout that is at most the time, and no
  -- others, in the order of the timeouts, and leaves the others in a heap.
  pub Reach-Wakes :
      (now : ℕ) (threads : List (ThreadTimeout Thread))
      → Reach threads
      → Wakes now threads (wake_threads now threads)
  Reach-Wakes now threads s = wake_threads-Wakes now threads (Reach-IsHeap s)
