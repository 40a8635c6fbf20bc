-- ===== src/Kernel.antt =====
-- The kernel's parts: src/kernel and arch/kernel.
pub mod Graphics
pub mod Print
pub mod Terminal
pub mod Memory
pub mod Interrupts
pub mod System
mod Tests
