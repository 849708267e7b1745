-- ===== src/Checkpoint/Capture/Sound.antt =====
-- The capturing loop of `checkpoint_proc` as a whole.
use csci_315_operating_sytem.Prelude.{
  ℕ, zero, suc, ◌+◌, ◌<◌, ◌≤◌, ◌≡◌, refl, arith, true, Option, none, some, ◌==◌, if◌then◌else◌, inl,
  inr, Bool-cases, ◌∙◌, sym, subst,
}
use csci_315_operating_sytem.Proc.Defs.{nofile}
use csci_315_operating_sytem.Checkpoint.Defs.{
  FileType, fd_none, fd_pipe, fd_inode, fd_device, OpenFile, base_fd, Capture, new_capture,
  capture_file, capture_fd, capture_loop, pairs_loop, capture_fds,
}
use csci_315_operating_sytem.Checkpoint.Counts.{count, end_of, reads, writes, Holds, end_of-none}
use csci_315_operating_sytem.Checkpoint.Capture.Table.{Tallied, Entry, Entered}
use csci_315_operating_sytem.Checkpoint.Capture.Step.{skip-Tallied, plain-Next, pipe-Next}

module _ (ofile : ℕ → Option OpenFile) where
  -- What holds after the first `m` descriptors.
  abbrev Captured : ℕ → Capture → Type 0
  Captured m d = Tallied ofile m d × Entered ofile m d

  capture_file-Captured :
      (m : ℕ) (c : Capture) (f : OpenFile) (ty : FileType)
      → ofile m ≡ some f
      → f.type ≡ ty
      → Captured m c
      → Holds (Captured (suc m)) (capture_file ty f m c)
  unfolding capture_file
  capture_file-Captured m c f fd_none at typed (t, v) = tt
  capture_file-Captured m c f fd_pipe at typed (t, v) = pipe-Next ofile m c t v f at typed
  capture_file-Captured m c f fd_inode at typed (t, v) =
      plain-Next ofile m c t v f (record (base_fd f) { inum = f.inum; off = f.off }) at (rw typed)
        (rw typed refl)
  capture_file-Captured m c f fd_device at typed (t, v) =
      plain-Next ofile m c t v f (record (base_fd f) { inum = f.inum; major = f.major }) at
        (rw typed) (rw typed refl)

  capture_fd-Captured :
      (m : ℕ) (c : Capture) (o : Option OpenFile)
      → ofile m ≡ o
      → Captured m c
      → Holds (Captured (suc m)) (capture_fd o m c)
  unfolding capture_fd
  capture_fd-Captured m c none at (t, v) = (
    skip-Tallied ofile m c t c.fds c.num_fds (λ side p. end_of-none side ofile p m at),
    record {
      before = λ i lt. elim (Bool-cases (i == m)) [
        | inl last ↦
            (let same : i ≡ m = ground arith in
              rw same (subst (λ o. Entry ofile o (c.fds m) c) (sym at) (v.after m (omega arith))))
        | inr old ↦ v.before i (ground arith)
      ];
      after = λ i le. v.after i (omega arith);
    },
  )
  capture_fd-Captured m c (some f) at h = capture_file-Captured m c f f.type at refl h

  capture_loop-Captured :
      (n m : ℕ) (c : Capture) → Captured m c → Holds (Captured (m + n)) (capture_loop ofile n m c)
  unfolding capture_loop
  capture_loop-Captured zero m c h = subst (λ (k : ℕ). Captured k c) (omega arith) h
  capture_loop-Captured (suc n) m c h =
      go (capture_fd (ofile m) m c) (capture_fd-Captured m c (ofile m) refl h)
        (λ d k. capture_loop-Captured n (m + 1) d k)
    where
      go :
          (o : Option Capture)
          → Holds (Captured (suc m)) o
          → ((d : Capture)
              → Captured (m + 1) d
              → Holds (Captured ((m + 1) + n)) (capture_loop ofile n (m + 1) d))
          → Holds
              (Captured (m + suc n))
              (elim o [ none ↦ none | some d ↦ capture_loop ofile n (m + 1) d ])
      go none h rest = tt
      go (some d) h rest =
          subst (λ (k : ℕ). Holds (Captured k) (capture_loop ofile n (m + 1) d)) (omega arith)
            (rest d (subst (λ (k : ℕ). Captured k d) (omega arith) h))

  start-Captured : Captured 0 new_capture
  unfolding count
  start-Captured = (
    record {
      few = omega arith;
      distinct = λ j k lj. absurd (omega arith);
      read_count = λ j lj. absurd (omega arith);
      write_count = λ j lj. absurd (omega arith);
      absent = λ p h. (refl, refl);
    },
    record { before = λ i lt. absurd (omega arith); after = λ i le. refl },
  )

  -- A table that is accepted: every descriptor is described, and every pipe has one read end and one
  -- write end among them.
  pub record IsCapture (c : Capture) : Type 0 where
    pub few : c.npipes ≤ nofile
    pub entries : (i : ℕ) → i < nofile → Entry ofile (ofile i) (c.fds i) c
    pub distinct : (j k : ℕ) → j < c.npipes → k < c.npipes → c.pipes j ≡ c.pipes k → j ≡ k
    pub one_reader : (j : ℕ) → j < c.npipes → count (end_of reads ofile (c.pipes j)) nofile ≡ 1
    pub one_writer : (j : ℕ) → j < c.npipes → count (end_of writes ofile (c.pipes j)) nofile ≡ 1

  pairs_loop_at :
      (c : Capture) (n i j : ℕ)
      → pairs_loop c n i ≡ true
      → i ≤ j
      → j < i + n
      → (c.read_refs j ≡ 1) × (c.write_refs j ≡ 1)
  unfolding pairs_loop
  pairs_loop_at c zero i j e le lt = absurd (omega arith)
  pairs_loop_at c (suc n) i j e le lt = elim (Bool-cases (j == i)) [
    | inl here ↦ ground arith
    | inr later ↦ pairs_loop_at c n (i + 1) j (ground arith) (ground arith) (omega arith)
  ]

  -- What the descriptor capture of `checkpoint_proc` accepts describes each descriptor in the header,
  -- numbers each pipe once, and each of these pipes has one read end and one write end in the table.
  pub capture_fds-IsCapture : Holds IsCapture (capture_fds ofile)
  unfolding capture_fds
  capture_fds-IsCapture =
      go (capture_loop ofile nofile 0 new_capture)
        (capture_loop-Captured nofile 0 new_capture start-Captured)
    where
      accept : (c : Capture) → Captured nofile c → pairs_loop c c.npipes 0 ≡ true → IsCapture c
      accept c (t, v) e = record {
        few = t.few;
        entries = v.before;
        distinct = t.distinct;
        one_reader = λ j lj.
            sym (t.read_count j lj)
            ∙ (pairs_loop_at c c.npipes 0 j e (omega arith) (omega arith)).0;
        one_writer = λ j lj.
            sym (t.write_count j lj)
            ∙ (pairs_loop_at c c.npipes 0 j e (omega arith) (omega arith)).1;
      }

      go :
          (o : Option Capture)
          → Holds (Captured nofile) o
          → Holds IsCapture
              (elim o [ none ↦ none | some c ↦ if pairs_loop c c.npipes 0 then some c else none ])
      go none h = tt
      go (some c) h = elim (Bool-cases (pairs_loop c c.npipes 0)) [
        | inl good ↦ rw good (accept c h good)
        | inr bad ↦ rw bad tt
      ]
