-- ===== src/Resources/Files.antt =====
-- kernel/file.c: the table of file structures and their reference counts, under the table's lock.
pub mod References
pub mod Runs
use csci_315_operating_sytem.Prelude.{
  ℕ, zero, suc, ◌+◌, ◌-◌, Bool, true, false, Option, none, some, ◌==◌, ltb, if◌then◌else◌, update,
}
use csci_315_operating_sytem.Prelude.Fold.{first}
use csci_315_operating_sytem.Checkpoint.Defs.{
  FileType, fd_none, fd_pipe, fd_inode, fd_device, OpenFile,
}

abbrev pub nfile : ℕ
nfile = 100

-- `struct file`: its count, and the rest.
pub record FileSlot : Type 0 where
  pub ref : ℕ
  pub file : OpenFile

abbrev pub FileTable : Type 0
FileTable = ℕ → FileSlot

-- `for(f = ftable.file; f < ftable.file + NFILE; f++) if(f->ref == 0)`; `none` is the null pointer.
unfoldable pub filealloc : FileTable → Option ℕ × FileTable
filealloc t = elim (first (λ i. (t i).ref == 0) nfile 0) [
  | none ↦ (none, t)
  | some i ↦ (some i, update t i (record (t i) { ref = 1 }))
]

-- `none` is the panic.
unfoldable pub filedup : ℕ → FileTable → Option FileTable
filedup i t =
    if ltb (t i).ref 1 then none else some (update t i (record (t i) { ref = (t i).ref + 1 }))

-- What `fileclose` does once the table's lock is released.
pub data Closing : Type 0 where
  stays : Closing
  closes_pipe : (pipe : ℕ) (writable : Bool) → Closing
  puts_inode : (inum : ℕ) → Closing
  ends : Closing

abbrev pub closing : FileType → OpenFile → Closing
closing fd_none f = ends
closing fd_pipe f = closes_pipe f.pipe f.writable
closing fd_inode f = puts_inode f.inum
closing fd_device f = puts_inode f.inum

unfoldable pub fileclose : ℕ → FileTable → Option (Closing × FileTable)
fileclose i t =
    if ltb (t i).ref 1
    then none
    else (if ltb 0 ((t i).ref - 1)
        then some (stays, update t i (record (t i) { ref = (t i).ref - 1 }))
        else some (
          closing (t i).file.type (t i).file,
          update t i (record { ref = 0; file = record (t i).file { type = fd_none } }),
        ))
