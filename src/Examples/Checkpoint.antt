-- ===== src/Examples/Checkpoint.antt =====
-- A descriptor table with a file and the two ends of a pipe, and a kernel without memory.
use csci_315_operating_sytem.Prelude.{
  ℕ, ◌≡◌, refl, true, false, Option, some, none, [], ◌==◌, if◌then◌else◌, update,
}
use csci_315_operating_sytem.Proc.Defs.{used, Proc, Kernel, panic}
use csci_315_operating_sytem.Proc.Services.{Services}
use csci_315_operating_sytem.Checkpoint.Defs.{
  fd_inode, fd_pipe, OpenFile, Capture, empty_fd, capture_fds, capture_loop, capture_fd,
  capture_file, capture_pipe, find_pipe, capture_end, pairs_loop,
}
use csci_315_operating_sytem.Checkpoint.Counts.{Holds}
use csci_315_operating_sytem.Checkpoint.Capture.Sound.{IsCapture, capture_fds-IsCapture}
use csci_315_operating_sytem.Checkpoint.Restore.Defs.{Restored, restore_fds}
use csci_315_operating_sytem.Checkpoint.Restore.RoundTrip.{Rebuilt, restore_fds-Rebuilt}
use csci_315_operating_sytem.Checkpoint.Proc.{CkptHeader, CkptServices, restore_into}
use csci_315_operating_sytem.Checkpoint.Proc.SelfLock.{restore_into-panic}

abbrev plain : OpenFile
plain = record {
  type = fd_inode;
  readable = true;
  writable = true;
  pipe = 0;
  inum = 7;
  off = 12;
  major = 0;
}

abbrev pipe_read : OpenFile
pipe_read = record {
  type = fd_pipe;
  readable = true;
  writable = false;
  pipe = 500;
  inum = 0;
  off = 0;
  major = 0;
}

abbrev table : ℕ → Option OpenFile
table i =
    if i == 0
    then some plain
    else (if i == 3
        then some pipe_read
        else (if i == 4
            then some (record pipe_read { readable = false; writable = true })
            else none))

abbrev captured : Capture
captured = elim (capture_fds table) [
  | some c ↦ c
  | none ↦ record {
    fds = λ _. empty_fd;
    num_fds = 0;
    npipes = 0;
    pipes = λ _. 0;
    nrefs = λ _. 0;
    read_refs = λ _. 0;
    write_refs = λ _. 0;
  }
]

capture_fds-table : capture_fds table ≡ some captured
unfolding capture_fds capture_loop capture_fd capture_file capture_pipe find_pipe capture_end update
    pairs_loop
capture_fds-table = refl

capture_example : Holds (IsCapture table) (capture_fds table)
capture_example = capture_fds-IsCapture table

restore_fds_example :
    (s : Restored) × (restore_fds (λ _. true) (λ _. true) captured.fds (λ _. none) ≡ some s)
    × Rebuilt table s.ofile
restore_fds_example =
    restore_fds-Rebuilt table (λ _. true) (λ _. true) (λ _. none) (λ i lt. refl) (λ i lt. refl)
      capture_fds-table

-- A kernel whose calls fail; the world counts nothing.
abbrev no_memory : Services ℕ
no_memory = record {
  kalloc = λ w. (0, w);
  kfree = λ p w. w;
  uvmcreate = λ w. (0, w);
  mappages = λ pagetable va size pa perm w. (false, w);
  uvmunmap = λ pagetable va npages do_free w. w;
  uvmfree = λ pagetable sz w. w;
  uvmalloc = λ pagetable oldsz newsz perm w. (0, w);
  uvmdealloc = λ pagetable oldsz newsz w. (newsz, w);
  uvmcopy = λ old new sz w. (false, w);
  copyout_int = λ pagetable dst value w. (false, w);
  copy_trapframe = λ to from w. w;
  set_a0 = λ trapframe value w. w;
  filedup = λ f w. w;
  fileclose = λ f w. w;
  idup = λ ip w. w;
  iput = λ ip w. w;
  begin_op = λ w. w;
  end_op = λ w. w;
  trampoline = 0;
  forkret = 0;
}

abbrev no_files : CkptServices ℕ
no_files = record {
  create = λ path w. (0, w);
  lookup = λ path w. (0, w);
  iunlockput = λ ip w. w;
  read_header = λ ip w. (none, w);
  write_header = λ ip h w. (false, w);
  checkpoint_addr_space = λ pagetable sz ip w. (false, w);
  restore_addr_space = λ pagetable sz ip w. (false, w);
  capture = λ p w. (none, w);
  rebuild_files = λ fds w. ((false, λ _. 0), w);
  rebuild_pipes = λ fds ofile w. ((false, ofile), w);
  inum = λ ip w. (0, w);
  iget_by_inum = λ inum w. (0, w);
  read_trapframe = λ trapframe w. (0, w);
  write_trapframe = λ trapframe tf w. w;
}

abbrev new_slot : Proc
new_slot = record {
  lock = true;
  state = used;
  chan = 0;
  killed = false;
  xstate = 0;
  pid = 5;
  parent = none;
  kstack = 0;
  sz = 0;
  pagetable = 4096;
  trapframe = 8192;
  context_ra = 0;
  context_sp = 0;
  ofile = λ _. 0;
  cwd = 0;
  name = [];
}

abbrev allocated : Kernel ℕ
allocated = record {
  proc = λ i. new_slot;
  nextpid = 6;
  pid_lock = false;
  wait_lock = false;
  noff = 1;
  initproc = some 0;
  world = 0;
}

abbrev header : CkptHeader
header = record {
  magic = 0x43484B50;
  version = 1;
  pid = 3;
  sz = 8192;
  tf = 0;
  name = [];
  cwd_inum = 1;
  fds = λ _. empty_fd;
}

restore_into_example : restore_into no_memory no_files header 3 77 allocated ≡ panic
restore_into_example = restore_into-panic no_memory no_files header 3 77 allocated refl refl
