-- ===== src/Boot/Image.antt =====
-- `BootKernel` of src/bootloader/boot.c: the kernel's file, its pages, and the end of the boot services.
pub mod Firmware
pub mod Post
pub mod Pages
pub mod Clean
pub mod Onward
pub mod Taken
pub mod Found
pub mod Segments
pub mod Inside
pub mod Files
pub mod Loaded
pub mod Handover
pub mod Exited
pub mod Returned
mod Tests
