-- ===== src/Checkpoint/Capture.antt =====
-- What a descriptor table captured by `checkpoint_proc` says of the open files.
pub mod Table
pub mod Slot
pub mod Step
pub mod Sound
pub mod Pairs
