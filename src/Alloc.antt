-- ===== src/Alloc.antt =====
-- Memory accounting of the kernel: kernel/src/alloc.
pub mod CapAllocator
pub mod Wrapper
mod Tests
