-- ===== src/Kernel/System.antt =====
-- arch/kernel/x86_64/system.c and arch/kernel/aarch64/system.c.
pub mod Arch
pub mod Bytes
pub mod Start
pub mod Entry
pub mod Idle
pub mod Greeted
pub mod Aborted
pub mod Tests
