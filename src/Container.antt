-- ===== src/Container.antt =====
-- kernel/src/container: the collections of the kernel.
mod HeapTests
pub mod HashMap
pub mod Vec
pub mod BinaryHeap
pub mod VecMap
mod Tests
