-- ===== src/Checkpoint/Restore/Defs.antt =====
-- The two passes of `restore_proc` over the descriptors of the header. `filealloc` and `pipealloc`
-- may fail: `files` and `pairs` say at which descriptor they succeed.
use csci_315_operating_sytem.Prelude.{
  ℕ, zero, suc, ◌+◌, ◌-◌, Bool, true, false, ◌&&◌, ◌||◌, not, Option, none, some, ◌==◌,
  if◌then◌else◌, update,
}
use csci_315_operating_sytem.Proc.Defs.{nofile}
use csci_315_operating_sytem.Checkpoint.Defs.{
  FileType, fd_none, fd_pipe, fd_inode, fd_device, is_pipe, OpenFile, CkptFd,
}

-- The restored table; `next` numbers the pipes that `pipealloc` makes.
pub record Restored : Type 0 where
  pub ofile : ℕ → Option OpenFile
  pub next : ℕ

-- The file that the first pass makes of an inode's or a device's entry.
abbrev pub restored_file : CkptFd → OpenFile
restored_file e = record {
  type = e.type;
  readable = e.readable;
  writable = e.writable;
  pipe = 0;
  inum = e.inum;
  off = e.off;
  major = e.major;
}

module _ (files : ℕ → Bool) where
  -- One round of the first pass. `iget_by_inum` returns an inode or panics.
  unfoldable pub restore_file : FileType → CkptFd → ℕ → Restored → Option Restored
  restore_file fd_none e i r = some (record r { ofile = update r.ofile i none })
  restore_file fd_pipe e i r = some (record r { ofile = update r.ofile i none })
  restore_file fd_inode e i r =
      if files i
      then some (record r { ofile = update r.ofile i (some (restored_file e)) })
      else none
  restore_file fd_device e i r =
      if files i
      then some (record r { ofile = update r.ofile i (some (restored_file e)) })
      else none

  unfoldable pub restore_files : (ℕ → CkptFd) → (rounds i : ℕ) → Restored → Option Restored
  restore_files fds zero i r = some r
  restore_files fds (suc n) i r = elim (restore_file (fds i).type (fds i) i r) [
    | none ↦ none
    | some s ↦ restore_files fds n (i + 1) s
  ]

-- `==` on pipe ids, where -1 is `none`.
unfoldable pub same_id : Option ℕ → Option ℕ → Bool
same_id none none = true
same_id none (some b) = false
same_id (some a) none = false
same_id (some a) (some b) = a == b

abbrev pub is_free : Option OpenFile → Bool
is_free none = true
is_free (some f) = false

-- The search for the other end, from `j` on.
unfoldable pub find_mate : (ℕ → CkptFd) → (ℕ → Option OpenFile) → (i rounds j : ℕ) → Option ℕ
find_mate fds ofile i zero j = none
find_mate fds ofile i (suc n) j =
    let later = find_mate fds ofile i n (j + 1) in
    if is_pipe (fds j).type && (same_id (fds j).pipe_id (fds i).pipe_id && is_free (ofile j))
    then some j
    else later

-- The ends that `pipealloc` makes, and the one that an entry asks for.
abbrev pub pipe_end : ℕ → Bool → OpenFile
pipe_end p reading = record {
  type = fd_pipe;
  readable = reading;
  writable = not reading;
  pipe = p;
  inum = 0;
  off = 0;
  major = 0;
}

unfoldable pub choose_end : CkptFd → ℕ → Option OpenFile
choose_end e p =
    if e.readable && not e.writable
    then some (pipe_end p true)
    else (if not e.readable && e.writable then some (pipe_end p false) else none)

module _ (pairs : ℕ → Bool) where
  unfoldable pub join_ends : (ℕ → CkptFd) → (i j : ℕ) → Restored → Option Restored
  join_ends fds i j r = if not (pairs i) then none else (elim (choose_end (fds i) r.next) [
    | none ↦ none
    | some a ↦ elim (choose_end (fds j) r.next) [
      | none ↦ none
      | some b ↦
          some (record { ofile = update (update r.ofile i (some a)) j (some b); next = r.next + 1 })
    ]
  ])

  -- One round of the second pass.
  unfoldable pub restore_pipe : (ℕ → CkptFd) → ℕ → Restored → Option Restored
  restore_pipe fds i r =
      if not (is_pipe (fds i).type) || not (is_free (r.ofile i))
      then some r
      else (elim (find_mate fds r.ofile i (nofile - (i + 1)) (i + 1)) [
        | none ↦ none
        | some j ↦ join_ends fds i j r
      ])

  unfoldable pub restore_pipes : (ℕ → CkptFd) → (rounds i : ℕ) → Restored → Option Restored
  restore_pipes fds zero i r = some r
  restore_pipes fds (suc n) i r = elim (restore_pipe fds i r) [
    | none ↦ none
    | some s ↦ restore_pipes fds n (i + 1) s
  ]

-- Both passes over the slot's table; `none` is the jump to `bad`.
unfoldable pub restore_fds :
    (files pairs : ℕ → Bool) → (ℕ → CkptFd) → (ℕ → Option OpenFile) → Option Restored
restore_fds files pairs fds ofile =
    elim (restore_files files fds nofile 0 (record { ofile = ofile; next = 0 })) [
      | none ↦ none
      | some r ↦ restore_pipes pairs fds nofile 0 r
    ]
