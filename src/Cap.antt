-- ===== src/Cap.antt =====
-- Capabilities: their ids and flags (userland/sys/src/cap.rs) and the capability spaces that hold
-- them (kernel/src/cap).
pub mod Flags
pub mod CapId
pub mod Space
pub mod Clone
mod Tests
