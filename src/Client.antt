-- ===== src/Client.antt =====
-- crates/gp-client/src: the client of the host, its messages (Context) and its transport (Wire).
pub mod Codes
pub mod Wire
pub mod Context
pub mod Loopback
pub mod Tests
