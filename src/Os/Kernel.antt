-- ===== src/Os/Kernel.antt =====
-- crates/rustee-os/src/lib.rs: the kernel's state and its commands.
pub mod Defs
pub mod Shm
pub mod Open
pub mod Invoke
pub mod Close
pub mod Handle
pub mod Loading
pub mod Panic
pub mod Frame
pub mod Lost
pub mod Gate
pub mod Idle
pub mod Examples
