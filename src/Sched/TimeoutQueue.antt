-- ===== src/Sched/TimeoutQueue.antt =====
-- kernel/src/sched/timeout_queue.rs. A thread is a value that is only passed on; the answer of
-- wake_threads has the threads that it moves to the ready list, in that order. A fuel that runs
-- out counts as a panic.
pub mod Wakes
pub mod History
use aurora_os.Prelude.{
  ℕ, zero, suc, List, [], ◌∷◌, Bool, Option, none, some, leb, ltb, length, if◌then◌else◌,
}
use aurora_os.KResult.{KResult, ok, panic, ◌>>=◌}
use aurora_os.Container.BinaryHeap
use aurora_os.Container.BinaryHeap.{Ord}

pub record ThreadTimeout (Thread : Type 0) : Type 0 where
  pub timeout_nsec : ℕ
  pub thread : Thread

module _ {Thread : Type 0} where
  -- The order of `Reverse<ThreadTimeout>`.
  instance abbrev pub reverse : Ord (ThreadTimeout Thread)
  reverse = record { lt = λ a b. ltb b.timeout_nsec a.timeout_nsec }

  -- What pop answers: the thread that is woken and the threads that the rest of the loop wakes.
  abbrev pub then_woken :
      Option (ThreadTimeout Thread) × List (ThreadTimeout Thread)
      → (List (ThreadTimeout Thread) → KResult (List Thread × List (ThreadTimeout Thread)))
      → KResult (List Thread × List (ThreadTimeout Thread))
  then_woken (none, threads) rest = panic
  then_woken (some next, threads) rest = do
    (woken, left) ← rest threads
    ok (next.thread ∷ woken, left)

  unfoldable pub wake_until :
      ℕ → ℕ → List (ThreadTimeout Thread) → KResult (List Thread × List (ThreadTimeout Thread))
  unfolding BinaryHeap.peek BinaryHeap.pop
  wake_until zero current_nsec threads = panic
  wake_until (suc fuel) current_nsec threads = elim (BinaryHeap.peek threads) [
    | none ↦ ok ([], threads)
    | some next_thread ↦
        if leb next_thread.timeout_nsec current_nsec
        then (BinaryHeap.pop threads >>= λ r. then_woken r (wake_until fuel current_nsec))
        else ok ([], threads)
  ]

  unfoldable pub wake_threads :
      ℕ → List (ThreadTimeout Thread) → KResult (List Thread × List (ThreadTimeout Thread))
  unfolding wake_until
  wake_threads current_nsec threads = wake_until (suc (length threads)) current_nsec threads

  unfoldable pub insert_thread :
      Bool → Thread → ℕ → List (ThreadTimeout Thread) → KResult (List (ThreadTimeout Thread))
  unfolding BinaryHeap.push
  insert_thread room thread timeout_nsec threads =
      BinaryHeap.push room (record { timeout_nsec = timeout_nsec; thread = thread }) threads
