-- ===== src/Crypto.antt =====
-- crates/rustee-crypto.
pub mod Arith
pub mod Provider
pub mod Modes
mod Tests
