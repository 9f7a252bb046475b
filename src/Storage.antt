-- ===== src/Storage.antt =====
-- crates/rustee-storage.
pub mod Env
pub mod Format
pub mod Handle
pub mod Seal
pub mod Objects
pub mod Memory
pub mod Rpc
mod Tests
