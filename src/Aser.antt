-- ===== src/Aser.antt =====
-- The serialization format for messages between processes: userland/aser.
pub mod Result
pub mod Bytes
pub mod DataType
pub mod Data
pub mod Value
pub mod Counter
pub mod Ser
pub mod De
pub mod Meaning
pub mod Agree
pub mod RoundTrip
pub mod Faithful
pub mod IntoDeserialize
pub mod CloneCaps
pub mod Ends
mod Tests
