-- ===== src/Boot/Paging.antt =====
-- `MapVirtualPages` of src/bootloader/boot.c.
pub mod Tables
pub mod Words
pub mod Entries
pub mod Found
pub mod Mapped
pub mod Kept
pub mod Ends
mod Tests
