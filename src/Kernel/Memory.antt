-- ===== src/Kernel/Memory.antt =====
-- src/kernel/memory.c: the firmware's memory map and what the kernel reads from it.
pub mod Map
pub mod Walk
pub mod Found
pub mod Ram
mod Tests
