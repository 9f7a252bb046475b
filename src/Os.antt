-- ===== src/Os.antt =====
-- crates/rustee-os: the privileged kernel.
pub mod Abi
pub mod Header
pub mod Elf
pub mod Loader
pub mod Session
pub mod Instance
pub mod Kernel
pub mod Tests
