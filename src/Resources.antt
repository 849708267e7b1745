-- ===== src/Resources.antt =====
-- The allocators of pages (kernel/kalloc.c), of file structures (kernel/file.c), and of buffers (kernel/bio.c), and
-- the locks of buffers and inodes (kernel/sleeplock.c).
pub mod Pages
pub mod Files
pub mod Buffers
pub mod SleepLocks
