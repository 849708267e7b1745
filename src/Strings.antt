-- ===== src/Strings.antt =====
-- kernel/string.c.
pub mod Defs
pub mod Blocks
pub mod Text
