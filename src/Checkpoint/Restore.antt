-- ===== src/Checkpoint/Restore.antt =====
-- How `restore_proc` (kernel/proc.c) rebuilds the descriptor table from a checkpoint's header.
pub mod Defs
pub mod Files
pub mod Pipes
pub mod RoundTrip
