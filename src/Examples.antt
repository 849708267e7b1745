-- ===== src/Examples.antt =====
-- Runs of the code on small states, on which the theorems are applied.
pub mod Log
pub mod Pipe
pub mod Proc
pub mod Checkpoint
pub mod Memory
pub mod FileSystem
pub mod Directories
pub mod Strings
pub mod Resources
