-- ===== src/Boot.antt =====
-- The boot loader, src/bootloader/boot.c.
pub mod Search
pub mod Blocks
pub mod FirstFit
pub mod Room
pub mod Paging
pub mod Image
pub mod Graphics
pub mod Main
mod Tests
