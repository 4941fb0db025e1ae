-- ===== src/Sched/Tests.antt =====
-- Runs of the queue of kernel/src/sched/timeout_queue.rs, with numbers for threads.
use aurora_os.Prelude.{ℕ, ◌≡◌, refl, List, [], ◌∷◌, true}
use aurora_os.KResult.{ok}
use aurora_os.Sched.TimeoutQueue.{ThreadTimeout, insert_thread, wake_threads}
use aurora_os.Sched.TimeoutQueue.Wakes.{Wakes}
use aurora_os.Sched.TimeoutQueue.History.{Reach, new, inserted, Reach-Wakes}

abbrev waits : ℕ → ℕ → ThreadTimeout ℕ
waits thread nsec = record { timeout_nsec = nsec; thread = thread }

abbrev three : List (ThreadTimeout ℕ)
three = waits 2 10 ∷ waits 1 30 ∷ waits 3 20 ∷ []

Reach-three : Reach three
unfolding insert_thread
Reach-three = inserted true 3 20 (inserted true 2 10 (inserted true 1 30 new refl) refl) refl

three_woken : wake_threads 20 three ≡ ok (2 ∷ 3 ∷ [], waits 1 30 ∷ [])
unfolding wake_threads
three_woken = refl

later_woken : wake_threads 30 (waits 1 30 ∷ []) ≡ ok (1 ∷ [], [])
unfolding wake_threads
later_woken = refl

Reach-Wakes_example : Wakes 20 three (wake_threads 20 three)
Reach-Wakes_example = Reach-Wakes 20 three Reach-three
