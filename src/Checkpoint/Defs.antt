-- ===== src/Checkpoint/Defs.antt =====
-- The descriptor table in a checkpoint: how `checkpoint_proc` captures it, and how `restore_proc`
-- rebuilds files and pipes from it.
use csci_315_operating_sytem.Prelude.{
  ℕ, zero, suc, ◌+◌, Bool, true, false, ◌&&◌, not, Option, none, some, ◌==◌, ltb, leb,
  if◌then◌else◌, update,
}
use csci_315_operating_sytem.Proc.Defs.{nofile}

-- The types of `struct file`.
pub data FileType : Type 0 where
  fd_none fd_pipe fd_inode fd_device : FileType

abbrev pub is_pipe : FileType → Bool
is_pipe fd_pipe = true
is_pipe _ = false

abbrev pub is_none : FileType → Bool
is_none fd_none = true
is_none _ = false

-- What `checkpoint_proc` reads of an open file: `inum` is `f->ip->inum`.
pub record OpenFile : Type 0 where
  pub type : FileType
  pub readable : Bool
  pub writable : Bool
  pub pipe : ℕ
  pub inum : ℕ
  pub off : ℕ
  pub major : ℕ

-- `struct ckpt_fd`; the `pipe_id` -1 is `none`.
pub record CkptFd : Type 0 where
  pub type : FileType
  pub readable : Bool
  pub writable : Bool
  pub inum : ℕ
  pub off : ℕ
  pub major : ℕ
  pub pipe_id : Option ℕ

abbrev pub empty_fd : CkptFd
empty_fd = record {
  type = fd_none;
  readable = false;
  writable = false;
  inum = 0;
  off = 0;
  major = 0;
  pipe_id = none;
}

-- The header's descriptors and the local arrays of `checkpoint_proc`.
pub record Capture : Type 0 where
  pub fds : ℕ → CkptFd
  pub num_fds : ℕ
  pub npipes : ℕ
  pub pipes : ℕ → ℕ
  pub nrefs : ℕ → ℕ
  pub read_refs : ℕ → ℕ
  pub write_refs : ℕ → ℕ

abbrev pub new_capture : Capture
new_capture = record {
  fds = λ _. empty_fd;
  num_fds = 0;
  npipes = 0;
  pipes = λ _. 0;
  nrefs = λ _. 0;
  read_refs = λ _. 0;
  write_refs = λ _. 0;
}

-- `for(j = 0; j < npipes; j++) if(pipes[j] == f->pipe)`
unfoldable pub find_pipe : (ℕ → ℕ) → ℕ → (rounds j : ℕ) → Option ℕ
find_pipe pipes p zero j = none
find_pipe pipes p (suc n) j =
    let later = find_pipe pipes p n (j + 1) in if pipes j == p then some j else later

-- The fields that every open file fills.
abbrev pub base_fd : OpenFile → CkptFd
base_fd f = record {
  type = f.type;
  readable = f.readable;
  writable = f.writable;
  inum = 0;
  off = 0;
  major = 0;
  pipe_id = none;
}

-- A new entry in the table of pipes, unless it is full.
unfoldable pub add_pipe : ℕ → Capture → Option (ℕ × Capture)
add_pipe p c =
    if leb nofile c.npipes
    then none
    else some (
      c.npipes,
      record c {
        npipes = c.npipes + 1;
        pipes = update c.pipes c.npipes p;
        nrefs = update c.nrefs c.npipes 0;
        read_refs = update c.read_refs c.npipes 0;
        write_refs = update c.write_refs c.npipes 0;
      },
    )

unfoldable pub pipe_slot : ℕ → Capture → Option (ℕ × Capture)
unfolding add_pipe
pipe_slot p c = elim (find_pipe c.pipes p c.npipes 0) [ some j ↦ some (j, c) | none ↦ add_pipe p c ]

-- One more reference to pipe `id`, by a read end or a write end; any other file is refused.
unfoldable pub count_end : OpenFile → ℕ → Capture → Option Capture
count_end f id c =
    if f.readable && not f.writable
    then some (record c {
      nrefs = update c.nrefs id (c.nrefs id + 1);
      read_refs = update c.read_refs id (c.read_refs id + 1);
    })
    else (if not f.readable && f.writable
        then some (record c {
          nrefs = update c.nrefs id (c.nrefs id + 1);
          write_refs = update c.write_refs id (c.write_refs id + 1);
        })
        else none)

-- More than two references are refused.
unfoldable pub capture_end : OpenFile → (id i : ℕ) → Capture → Option Capture
unfolding count_end
capture_end f id i c = elim (count_end f id c) [
  | none ↦ none
  | some d ↦
      if ltb 2 (d.nrefs id)
      then none
      else some (record d {
        fds = update d.fds i (record (base_fd f) { pipe_id = some id });
        num_fds = d.num_fds + 1;
      })
]

unfoldable pub capture_pipe : OpenFile → ℕ → Capture → Option Capture
unfolding pipe_slot
capture_pipe f i c = elim (pipe_slot f.pipe c) [ none ↦ none | some (id, d) ↦ capture_end f id i d ]

-- One descriptor.
unfoldable pub capture_file : FileType → OpenFile → ℕ → Capture → Option Capture
capture_file fd_inode f i c = some (record c {
  fds = update c.fds i (record (base_fd f) { inum = f.inum; off = f.off });
  num_fds = c.num_fds + 1;
})
capture_file fd_device f i c = some (record c {
  fds = update c.fds i (record (base_fd f) { inum = f.inum; major = f.major });
  num_fds = c.num_fds + 1;
})
capture_file fd_pipe f i c = capture_pipe f i c
capture_file fd_none f i c = none

unfoldable pub capture_fd : Option OpenFile → ℕ → Capture → Option Capture
capture_fd none i c = some c
capture_fd (some f) i c = capture_file f.type f i c

unfoldable pub capture_loop : (ℕ → Option OpenFile) → (rounds i : ℕ) → Capture → Option Capture
capture_loop ofile zero i c = some c
capture_loop ofile (suc n) i c = elim (capture_fd (ofile i) i c) [
  | none ↦ none
  | some d ↦ capture_loop ofile n (i + 1) d
]

-- `pipe_nrefs[i] != 2 || pipe_read_refs[i] != 1 || pipe_write_refs[i] != 1`, for each pipe.
unfoldable pub pairs_loop : Capture → (rounds i : ℕ) → Bool
pairs_loop c zero i = true
pairs_loop c (suc n) i =
    ((c.nrefs i == 2) && ((c.read_refs i == 1) && (c.write_refs i == 1))) && pairs_loop c n (i + 1)

-- The descriptor part of `checkpoint_proc`; `none` is its -1.
unfoldable pub capture_fds : (ℕ → Option OpenFile) → Option Capture
capture_fds ofile = elim (capture_loop ofile nofile 0 new_capture) [
  | none ↦ none
  | some c ↦ if pairs_loop c c.npipes 0 then some c else none
]
