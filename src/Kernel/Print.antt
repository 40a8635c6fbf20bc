-- ===== src/Kernel/Print.antt =====
-- `PrintString` of src/kernel/graphics.c.
pub mod Debug
pub mod Reports
pub mod Number
pub mod Places
pub mod Numerals
pub mod Conversions
pub mod Octal
pub mod Format
pub mod Loop
pub mod Ends
pub mod Texts
pub mod Characters
