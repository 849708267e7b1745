-- ===== src/FileSystem.antt =====
-- kernel/fs.c: blocks, inodes and their content, directories, and path names.
pub mod Words
pub mod Volume
pub mod Blocks
pub mod Content
pub mod Inodes
pub mod Directory
pub mod Paths
pub mod Calls
pub mod Chunks
