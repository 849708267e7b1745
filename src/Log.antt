-- ===== src/Log.antt =====
-- kernel/log.c: the write-ahead log of the file system, over a disk of blocks.
-- The buffer cache (kernel/bio.c) is seen through what `bread` returns, the field `buf`, and the
-- references that `bpin` takes. `power` is the number of disk writes before the power fails.
pub mod Defs
pub mod Overlay
pub mod Outcome
pub mod Head
pub mod Install
pub mod Recover
pub mod Commit
pub mod Crash
pub mod Slots
pub mod Write
pub mod Frame
pub mod Reserve
