-- ===== src/Sched.antt =====
-- kernel/src/sched: the queue of the threads that wait for a time.
pub mod TimeoutQueue
mod Tests
