-- ===== src/Boot/Graphics.antt =====
-- `InitUEFI_GOP` of src/bootloader/boot.c.
pub mod Modes
pub mod Devices
pub mod Chosen
pub mod Configured
pub mod Size
pub mod Labels
pub mod Begun
pub mod Reported
pub mod Names
pub mod Drivers
pub mod Wall
pub mod Listed
pub mod Answered
pub mod Managed
pub mod Credited
pub mod Screened
mod Tests
mod NameTests
