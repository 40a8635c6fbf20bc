-- ===== src/Kernel/Graphics.antt =====
-- src/kernel/graphics.c and inc/kernel/graphics.h.
pub mod Font
pub mod Screen
pub mod Scroll
pub mod Pixels
pub mod Cursor
pub mod Glyph
pub mod Blank
