-- ===== src/Checkpoint/Memory.antt =====
-- The memory of a process in a checkpoint (kernel/vm.c).
pub mod Defs
pub mod RoundTrip
pub mod OnDisk
