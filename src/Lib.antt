-- ===== src/Lib.antt =====
-- A model of the kernel in C: its write-ahead log, its process table, its pipes, its file system,
-- the checkpoint and restore of a process, and the string functions, allocators, buffers and sleep
-- locks that they stand on.
--
-- Log (kernel/log.c, and bwrite, bpin, bunpin of kernel/bio.c). Log/Defs has one function for each
-- of the source. The state is `struct log` with the disk, the buffers and their pins; `power` is
-- the number of disk writes before a power failure, so that a run returns, panics, or is cut off
-- and leaves a disk. Log/Overlay says what a disk stands for, Log/Recover and Log/Commit what
-- recovery and a commit do to it, Log/Crash joins them. Log/Write and Log/Reserve are about
-- log_write and the space that begin_op reserves; Log/Slots, Log/Head, Log/Install, Log/Outcome
-- and Log/Frame are their lemmas. A block is a function from the index of a 32-bit word.
--
-- Proc (kernel/proc.c, proc.h and spinlock.c). Proc/Defs has `struct proc`, the table with its
-- locks, and the monad of code that may panic: `acquire` of a lock that the code holds panics, as
-- in spinlock.c, and no other CPU is modelled. Proc/Services are the calls into kalloc.c, vm.c,
-- file.c, fs.c and log.c. Proc/Alloc has allocproc, freeproc, growproc and kfork; Proc/Life has
-- wakeup, kkill, reparent, kexit, kwait and yield; Proc/Wakeup is about wakeup and kkill.
-- Proc/Scheduler has procinit, userinit and the scheduler's pass over the table, and Proc/Turns is
-- about the turns that a pass gives. The functions that give up the CPU end at the switch to the
-- scheduler.
--
-- Pipe (kernel/pipe.c). Pipe/Defs has pipewrite, piperead and pipeclose under the pipe's lock; a
-- call runs until it returns or sleeps. The counters are 32-bit and wrap. Pipe/Window is the list
-- of bytes in the ring, Pipe/Write and Pipe/Read are about the two calls.
--
-- Checkpoint (checkpoint_proc and restore_proc of kernel/proc.c). Checkpoint/Defs is the capture
-- of the descriptor table, Checkpoint/Restore/Defs the two passes that rebuild it;
-- Checkpoint/Capture and Checkpoint/Restore are about them, and Checkpoint/Counts about counting
-- descriptors. Checkpoint/Proc has both functions whole, with their locks, over Proc;
-- Checkpoint/Proc/SelfLock is about one of their error paths. Checkpoint/Memory has
-- checkpoint_addr_space and restore_addr_space (kernel/vm.c) over the user pages; the file behind
-- them is an interface of readi and writei with the laws that are relied on, which
-- Checkpoint/Memory/OnDisk fills with the functions of kernel/fs.c.
--
-- FileSystem (kernel/fs.c). FileSystem/Volume has the disk as fs.c sees it through the buffer
-- cache: blocks of bytes, the free map as bits, the inode blocks as an array of `struct dinode`;
-- log_write changes nothing at this level. It also has balloc and bfree, which FileSystem/Blocks
-- is about. FileSystem/Words reads a block as an array of `uint`. FileSystem/Content has bmap,
-- itrunc, iupdate, readi and writei on a locked inode. Content/Slots has the view of an inode as
-- bytes, whichever blocks hold them; Grow and Map are about bmap, Pieces and Read about readi,
-- Put, Round, Write and File about writei. A copy to or from user space is a function that says
-- whether it succeeds; one that fails is taken to leave the buffer as it was. Content/Freed and
-- Content/Trunc are about itrunc. FileSystem/Inodes has the inode table (iget, ilock, iput and the
-- others), where a call returns, panics, or sleeps on a lock that its own process holds;
-- Inodes/Table is about iget, Inodes/Put about iput. FileSystem/Directory has namecmp, dirlookup
-- and dirlink: Directory/Names is about names, Entries and Lookup view a directory as an array of
-- entries, Link, Added and Links are about dirlink. FileSystem/Paths has skipelem, namex, namei
-- and nameiparent, and Paths/Elements is about the elements of a path. FileSystem/Calls has the
-- system calls of kernel/sysfile.c that change names (sys_link, sys_unlink, and in Calls/Create
-- create, sys_mkdir, sys_mknod and sys_chdir), where an argument that argstr fetches is a path or
-- nothing, and begin_op and end_op change nothing; Calls/Empty is about isdirempty.
-- FileSystem/Chunks is filewrite of a file of type FD_INODE (kernel/file.c), its test of `writable`
-- included, and Chunks/Written is about it.
--
-- Strings (kernel/string.c) has the block and string functions over a byte memory; Strings/Blocks
-- and Strings/Text are about them. Resources has the free list of pages (kernel/kalloc.c) in
-- Resources/Pages and the table of file structures (kernel/file.c) in Resources/Files, each under
-- its lock, with their invariants in Resources/Pages/Ownership and Resources/Files/References,
-- and the runs of the calls on files in Resources/Files/Runs;
-- Resources/Buffers has the cache of kernel/bio.c, with Resources/Buffers/Unique about bget, and
-- Resources/SleepLocks has kernel/sleeplock.c.
--
-- Loops are recursion on the rounds that are left: `log.lh.n` for the log, NPROC and NOFILE for
-- the tables, the bytes that are left for pipes, files and names, the pages or entries that are
-- left. `strlen` and `namex` take fuel: the length of the string or path and one more are enough.
-- Examples holds the runs on which each theorem is applied.
--
-- Not modelled: the page tables of virtual memory, exec, the calls on descriptors, sys_open and
-- sys_pipe, fileread, filewrite of pipes and devices, filestat, the dispatch of system calls, and
-- the start of the file system (readsb, fsinit, iinit), which are still to come; traps, devices
-- and start-up, which are assembly and device registers; the user programs and mkfs, which run
-- outside the kernel. Other CPUs appear only as sequences of calls under a lock.
pub mod Prelude
pub mod Log
pub mod Proc
pub mod Pipe
pub mod FileSystem
pub mod Checkpoint
pub mod Strings
pub mod Resources
pub mod Examples
