-- ===== src/Pipe.antt =====
-- kernel/pipe.c: a pipe as a ring of PIPESIZE bytes under two wrapping counters.
pub mod Defs
pub mod Window
pub mod Write
pub mod Read
