-- ===== src/Kernel/Interrupts.antt =====
-- arch/kernel/x86_64/ISR.c and system.h: the interrupt table and the handlers behind it.
pub mod Gates
pub mod Setup
pub mod Vectors
pub mod Stacks
mod Tests
