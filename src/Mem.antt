-- ===== src/Mem.antt =====
-- Addresses and ranges of memory: kernel/src/mem.
pub mod Range
pub mod Aligned
pub mod VirtAddr
pub mod PageLayout
mod Tests
mod PageTests
