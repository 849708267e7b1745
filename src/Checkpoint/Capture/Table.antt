-- ===== src/Checkpoint/Capture/Table.antt =====
-- What is known once some descriptors are captured by `checkpoint_proc`.
use csci_315_operating_sytem.Prelude.{
  ℕ, zero, suc, ◌+◌, ◌<◌, ◌≤◌, ◌≡◌, ◌≢◌, arith, true, Option, none, some, ◌==◌, inl, inr, ◌⊎◌,
  Bool-cases, ◌∙◌,
}
use csci_315_operating_sytem.Proc.Defs.{nofile}
use csci_315_operating_sytem.Checkpoint.Defs.{
  FileType, fd_none, fd_pipe, fd_inode, fd_device, OpenFile, CkptFd, empty_fd, base_fd, Capture,
  find_pipe,
}
use csci_315_operating_sytem.Checkpoint.Counts.{count, end_of, reads, writes}

module _ (ofile : ℕ → Option OpenFile) where
  -- The table of pipes after the first `m` descriptors: each pipe once, with its references counted.
  pub record Tallied (m : ℕ) (c : Capture) : Type 0 where
    pub few : c.npipes ≤ nofile
    pub distinct : (j k : ℕ) → j < c.npipes → k < c.npipes → c.pipes j ≡ c.pipes k → j ≡ k
    pub read_count :
        (j : ℕ) → j < c.npipes → c.read_refs j ≡ count (end_of reads ofile (c.pipes j)) m
    pub write_count :
        (j : ℕ) → j < c.npipes → c.write_refs j ≡ count (end_of writes ofile (c.pipes j)) m
    pub absent :
        (p : ℕ)
        → ((j : ℕ) → j < c.npipes → c.pipes j ≢ p)
        → (count (end_of reads ofile p) m ≡ 0) × (count (end_of writes ofile p) m ≡ 0)

  -- What the header's entry says of a descriptor.
  abbrev pub FileEntry : FileType → OpenFile → CkptFd → Capture → Type 0
  FileEntry fd_none f e c = ⊥
  FileEntry fd_inode f e c = e ≡ record (base_fd f) { inum = f.inum; off = f.off }
  FileEntry fd_device f e c = e ≡ record (base_fd f) { inum = f.inum; major = f.major }
  FileEntry fd_pipe f e c =
      (id : ℕ) × (id < c.npipes)
      × (c.pipes id ≡ f.pipe)
      × (e ≡ record (base_fd f) { pipe_id = some id })
      × ((reads f ≡ true) ⊎ (writes f ≡ true))

  abbrev pub Entry : Option OpenFile → CkptFd → Capture → Type 0
  Entry none e c = e ≡ empty_fd
  Entry (some f) e c = FileEntry f.type f e c

  pub record Entered (m : ℕ) (c : Capture) : Type 0 where
    pub before : (i : ℕ) → i < m → Entry (ofile i) (c.fds i) c
    pub after : (i : ℕ) → m ≤ i → c.fds i ≡ empty_fd

pub find_pipe-some :
    (pipes : ℕ → ℕ) (p n j : ℕ) {k : ℕ}
    → find_pipe pipes p n j ≡ some k
    → (k < j + n) × (pipes k ≡ p)
unfolding find_pipe
find_pipe-some pipes p zero j e = absurd (cc)
find_pipe-some pipes p (suc n) j {k} e = elim (Bool-cases (pipes j == p)) [
  | inl hit ↦ ground arith
  | inr miss ↦ ground (arith, find_pipe-some pipes p n (j + 1) {k = k})
]

pub find_pipe-none :
    (pipes : ℕ → ℕ) (p n j k : ℕ) → find_pipe pipes p n j ≡ none → j ≤ k → k < j + n → pipes k ≢ p
unfolding find_pipe
find_pipe-none pipes p zero j k e le lt = absurd (omega arith)
find_pipe-none pipes p (suc n) j k e le lt = elim (Bool-cases (k == j)) [
  | inl here ↦ ground arith
  | inr later ↦ ground (arith, find_pipe-none pipes p n (j + 1) k)
]

-- Growing the table of pipes keeps the entries that were made.
abbrev pub Extends : Capture → Capture → Type 0
Extends c d =
    (c.npipes ≤ d.npipes) × ((j : ℕ) → j < c.npipes → d.pipes j ≡ c.pipes j) × (d.fds ≡ c.fds)

-- An entry outlives the growth of the table of pipes.
module _ (ofile : ℕ → Option OpenFile) (c d : Capture) (more : c.npipes ≤ d.npipes)
    (same : (j : ℕ) → j < c.npipes → d.pipes j ≡ c.pipes j) where
  FileEntry-mono :
      (t : FileType) (f : OpenFile) (e : CkptFd) → FileEntry ofile t f e c → FileEntry ofile t f e d
  FileEntry-mono fd_none f e h = h
  FileEntry-mono fd_inode f e h = h
  FileEntry-mono fd_device f e h = h
  FileEntry-mono fd_pipe f e (id, lt, names, eq, way) =
      (id, omega arith, same id lt ∙ names, eq, way)

  pub Entry-mono : (o : Option OpenFile) (e : CkptFd) → Entry ofile o e c → Entry ofile o e d
  Entry-mono none e h = h
  Entry-mono (some f) e h = FileEntry-mono f.type f e h
