-- ===== src/Checkpoint/Capture/Pairs.antt =====
-- The pipe entries of an accepted table come in pairs, which is what `restore_proc` looks for.
use csci_315_operating_sytem.Prelude.{
  ℕ, ◌<◌, ◌≡◌, ◌≢◌, refl, arith, Bool, true, false, ◌&&◌, Option, none, some, ◌==◌, inl, inr, ◌⊎◌,
  ap, ◌∙◌, sym, subst,
}
use csci_315_operating_sytem.Proc.Defs.{nofile}
use csci_315_operating_sytem.Checkpoint.Defs.{
  FileType, fd_none, fd_pipe, fd_inode, fd_device, is_pipe, OpenFile, CkptFd, base_fd, Capture,
}
use csci_315_operating_sytem.Checkpoint.Counts.{
  count, end_of, reads, writes, count_witness, count_unique, end_of-some,
}
use csci_315_operating_sytem.Checkpoint.Capture.Table.{FileEntry, Entry}
use csci_315_operating_sytem.Checkpoint.Capture.Sound.{IsCapture}

-- Every pipe entry is a read end or a write end, has another entry with its id, and no third.
pub record Paired (fds : ℕ → CkptFd) : Type 0 where
  pub one_way :
      (i : ℕ)
      → i < nofile
      → is_pipe (fds i).type ≡ true
      → (((fds i).readable ≡ true) × ((fds i).writable ≡ false))
        ⊎ (((fds i).readable ≡ false) × ((fds i).writable ≡ true))
  pub mate :
      (i : ℕ)
      → i < nofile
      → is_pipe (fds i).type ≡ true
      → (j : ℕ) × (j < nofile)
        × (j ≢ i)
        × (is_pipe (fds j).type ≡ true)
        × ((fds j).pipe_id ≡ (fds i).pipe_id)
  pub no_third :
      (i j k : ℕ)
      → i < nofile
      → j < nofile
      → k < nofile
      → is_pipe (fds i).type ≡ true
      → is_pipe (fds j).type ≡ true
      → is_pipe (fds k).type ≡ true
      → (fds j).pipe_id ≡ (fds i).pipe_id
      → (fds k).pipe_id ≡ (fds i).pipe_id
      → (i ≡ j) ⊎ ((i ≡ k) ⊎ (j ≡ k))

module _ (ofile : ℕ → Option OpenFile) (c : Capture) (v : IsCapture ofile c) where
  -- What a pipe entry says: the open file behind it, and its pipe.
  pub record PipeEntry (i : ℕ) : Type 0 where
    pub file : OpenFile
    pub id : ℕ
    pub at : ofile i ≡ some file
    pub typed : is_pipe file.type ≡ true
    pub within : id < c.npipes
    pub names : c.pipes id ≡ file.pipe
    pub entry : c.fds i ≡ record (base_fd file) { pipe_id = some id }
    pub way : (reads file ≡ true) ⊎ (writes file ≡ true)

  pub pipe_entry : (i : ℕ) → i < nofile → is_pipe (c.fds i).type ≡ true → PipeEntry i
  pipe_entry i lt typed = go (ofile i) refl (v.entries i lt)
    where
      file_case :
          (f : OpenFile) (t : FileType)
          → ofile i ≡ some f
          → f.type ≡ t
          → FileEntry ofile t f (c.fds i) c
          → PipeEntry i
      file_case f fd_none at e h = absurd h
      file_case f fd_inode at e h =
          (let bad : true ≡ false =
              sym typed ∙ ap (λ (x : CkptFd). is_pipe x.type) h ∙ ap is_pipe e in
            cc)
      file_case f fd_device at e h =
          (let bad : true ≡ false =
              sym typed ∙ ap (λ (x : CkptFd). is_pipe x.type) h ∙ ap is_pipe e in
            cc)
      file_case f fd_pipe at e (id, lt', names, eq, way) = record {
        file = f;
        id = id;
        at = at;
        typed = rw e;
        within = lt';
        names = names;
        entry = eq;
        way = way;
      }

      go : (o : Option OpenFile) → ofile i ≡ o → Entry ofile o (c.fds i) c → PipeEntry i
      go none at h =
          (let bad : true ≡ false = sym typed ∙ ap (λ (x : CkptFd). is_pipe x.type) h in cc)
      go (some f) at h = file_case f f.type at refl h

  -- An open pipe end has a pipe entry.
  pub pipe_entry_of :
      (i : ℕ) (f : OpenFile)
      → i < nofile
      → ofile i ≡ some f
      → is_pipe f.type ≡ true
      → is_pipe (c.fds i).type ≡ true
  pipe_entry_of i f lt at typed =
      go f.type refl (subst (λ o. Entry ofile o (c.fds i) c) at (v.entries i lt))
    where
      go :
          (t : FileType)
          → f.type ≡ t
          → FileEntry ofile t f (c.fds i) c
          → is_pipe (c.fds i).type ≡ true
      go fd_none e h = absurd h
      go fd_inode e h = ap (λ (x : CkptFd). is_pipe x.type) h ∙ typed
      go fd_device e h = ap (λ (x : CkptFd). is_pipe x.type) h ∙ typed
      go fd_pipe e (id, lt', names, eq, way) = ap (λ (x : CkptFd). is_pipe x.type) eq ∙ typed

  -- The descriptor that a count found.
  end_inv :
      (side : OpenFile → Bool) (p j : ℕ)
      → end_of side ofile p j ≡ true
      → (g : OpenFile) × (ofile j ≡ some g)
        × (is_pipe g.type ≡ true)
        × (g.pipe ≡ p)
        × (side g ≡ true)
  end_inv side p j e = go (ofile j) refl e
    where
      go :
          (o : Option OpenFile)
          → ofile j ≡ o
          → (elim o [ none ↦ false | some f ↦ is_pipe f.type && ((f.pipe == p) && side f) ]) ≡ true
          → (g : OpenFile) × (ofile j ≡ some g)
            × (is_pipe g.type ≡ true)
            × (g.pipe ≡ p)
            × (side g ≡ true)
      go none at h = cc
      go (some g) at h = (g, at, ground arith, ground arith, ground arith)

  -- Two pipe entries have one id exactly when they are ends of one pipe.
  pub same_pipe :
      (i j : ℕ) (a : PipeEntry i) (b : PipeEntry j)
      → ((a.file.pipe ≡ b.file.pipe) → (a.id ≡ b.id))
        × ((a.id ≡ b.id) → (a.file.pipe ≡ b.file.pipe))
  same_pipe i j a b = (
    λ e. v.distinct a.id b.id a.within b.within (a.names ∙ e ∙ sym b.names),
    λ e. sym a.names ∙ ap c.pipes e ∙ b.names,
  )

  pub entry_id : (i : ℕ) (a : PipeEntry i) → (c.fds i).pipe_id ≡ some a.id
  entry_id i a = ap (λ (x : CkptFd). x.pipe_id) a.entry

  -- The other end.
  other_end :
      (side : OpenFile → Bool) (i : ℕ) (a : PipeEntry i)
      → count (end_of side ofile (c.pipes a.id)) nofile ≡ 1
      → side a.file ≡ false
      → (j : ℕ) × (j < nofile)
        × (j ≢ i)
        × (is_pipe (c.fds j).type ≡ true)
        × ((c.fds j).pipe_id ≡ (c.fds i).pipe_id)
  other_end side i a one not_me =
      let (j, lt, hit) =
        count_witness (end_of side ofile (c.pipes a.id)) nofile (omega (arith, one)) in
      let (g, at, typed, pipe, is_side) = end_inv side (c.pipes a.id) j hit in
      let b = pipe_entry j lt (pipe_entry_of j g lt at typed) in
      (
        j,
        lt,
        (λ e.
            (let same : some g ≡ some a.file = sym at ∙ ap ofile e ∙ a.at in
              let g_is : g ≡ a.file = cc in
              let bad : true ≡ false = sym is_side ∙ ap side g_is ∙ not_me in cc)),
        pipe_entry_of j g lt at typed,
        (let same : some b.file ≡ some g = sym b.at ∙ at in
            let b_is : b.file ≡ g = cc in
            entry_id j b
            ∙ ap some ((same_pipe j i b a).0 (ap (λ (x : OpenFile). x.pipe) b_is ∙ pipe ∙ a.names))
            ∙ sym (entry_id i a)),
      )

  -- Two ends of one side of a pipe are one descriptor.
  same_side :
      (side : OpenFile → Bool) (i j : ℕ) (a : PipeEntry i) (b : PipeEntry j)
      → i < nofile
      → j < nofile
      → count (end_of side ofile (c.pipes a.id)) nofile ≡ 1
      → (c.fds j).pipe_id ≡ (c.fds i).pipe_id
      → side a.file ≡ true
      → side b.file ≡ true
      → i ≡ j
  same_side side i j a b li lj one ids sa sb =
      count_unique (end_of side ofile (c.pipes a.id)) nofile i j one li lj
        (end_of-some side ofile (c.pipes a.id) i a.at a.typed ∙ ground (arith, a.names))
        (end_of-some side ofile (c.pipes a.id) j b.at b.typed
          ∙ ground (arith, b.names, ap c.pipes same_id))
    where
      same : some b.id ≡ some a.id
      same = sym (entry_id j b) ∙ ids ∙ entry_id i a

      same_id : b.id ≡ a.id
      same_id = cc (same)

  -- Of three ends of a pipe two are of one side.
  third_end :
      (i j k : ℕ)
      → i < nofile
      → j < nofile
      → k < nofile
      → is_pipe (c.fds i).type ≡ true
      → is_pipe (c.fds j).type ≡ true
      → is_pipe (c.fds k).type ≡ true
      → (c.fds j).pipe_id ≡ (c.fds i).pipe_id
      → (c.fds k).pipe_id ≡ (c.fds i).pipe_id
      → (i ≡ j) ⊎ ((i ≡ k) ⊎ (j ≡ k))
  third_end i j k li lj lk ti tj tk ej ek = go a.way b.way d.way
    where
      a : PipeEntry i
      a = pipe_entry i li ti

      b : PipeEntry j
      b = pipe_entry j lj tj

      d : PipeEntry k
      d = pipe_entry k lk tk

      go :
          ((reads a.file ≡ true) ⊎ (writes a.file ≡ true))
          → ((reads b.file ≡ true) ⊎ (writes b.file ≡ true))
          → ((reads d.file ≡ true) ⊎ (writes d.file ≡ true))
          → (i ≡ j) ⊎ ((i ≡ k) ⊎ (j ≡ k))
      go (inl x) (inl y) z = inl (same_side reads i j a b li lj (v.one_reader a.id a.within) ej x y)
      go (inr x) (inr y) z =
          inl (same_side writes i j a b li lj (v.one_writer a.id a.within) ej x y)
      go (inl x) (inr y) (inl z) =
          inr (inl (same_side reads i k a d li lk (v.one_reader a.id a.within) ek x z))
      go (inr x) (inl y) (inr z) =
          inr (inl (same_side writes i k a d li lk (v.one_writer a.id a.within) ek x z))
      go (inl x) (inr y) (inr z) =
          inr (inr (same_side writes j k b d lj lk (v.one_writer b.id b.within) (ek ∙ sym ej) y z))
      go (inr x) (inl y) (inl z) =
          inr (inr (same_side reads j k b d lj lk (v.one_reader b.id b.within) (ek ∙ sym ej) y z))

  -- The pipe entries of a table that `checkpoint_proc` accepts come in pairs.
  pub IsCapture-Paired : Paired c.fds
  IsCapture-Paired = record {
    one_way = λ i lt typed. way i (pipe_entry i lt typed);
    mate = λ i lt typed. mate i (pipe_entry i lt typed);
    no_third = third_end;
  }
    where
      way :
          (i : ℕ)
          → PipeEntry i
          → (((c.fds i).readable ≡ true) × ((c.fds i).writable ≡ false))
            ⊎ (((c.fds i).readable ≡ false) × ((c.fds i).writable ≡ true))
      way i a = ground (arith, a.way, a.entry)

      mate :
          (i : ℕ)
          → PipeEntry i
          → (j : ℕ) × (j < nofile)
            × (j ≢ i)
            × (is_pipe (c.fds j).type ≡ true)
            × ((c.fds j).pipe_id ≡ (c.fds i).pipe_id)
      mate i a = elim a.way [
        | inl r ↦ other_end writes i a (v.one_writer a.id a.within) (ground arith)
        | inr w ↦ other_end reads i a (v.one_reader a.id a.within) (ground arith)
      ]
