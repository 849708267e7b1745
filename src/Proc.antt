-- ===== src/Proc.antt =====
-- kernel/proc.c: the process table and the life of a process.
pub mod Defs
pub mod Services
pub mod Alloc
pub mod Life
pub mod Scheduler
pub mod Wakeup
pub mod Turns
