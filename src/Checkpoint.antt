-- ===== src/Checkpoint.antt =====
-- Checkpoint and restore of a process (kernel/proc.c, kernel/vm.c): the descriptor table and the
-- address space as they go to the checkpoint file and come back.
pub mod Defs
pub mod Counts
pub mod Capture
pub mod Restore
pub mod Memory
pub mod Proc
