-- ===== src/Checkpoint/Restore/RoundTrip.antt =====
-- A descriptor table that goes through a checkpoint comes back.
use csci_315_operating_sytem.Prelude.{
  ℕ, ◌<◌, ◌≡◌, ◌↔◌, refl, arith, Bool, true, false, Option, none, some, inl, inr, Option-cases, ap,
  ◌∙◌, sym, subst,
}
use csci_315_operating_sytem.Proc.Defs.{nofile}
use csci_315_operating_sytem.Checkpoint.Defs.{
  FileType, fd_none, fd_pipe, fd_inode, fd_device, is_pipe, OpenFile, CkptFd, empty_fd, base_fd,
  Capture, capture_fds,
}
use csci_315_operating_sytem.Checkpoint.Counts.{Holds-some}
use csci_315_operating_sytem.Checkpoint.Capture.Table.{FileEntry, Entry}
use csci_315_operating_sytem.Checkpoint.Capture.Sound.{IsCapture, capture_fds-IsCapture}
use csci_315_operating_sytem.Checkpoint.Capture.Pairs.{
  PipeEntry, pipe_entry, pipe_entry_of, same_pipe, entry_id, IsCapture-Paired,
}
use csci_315_operating_sytem.Checkpoint.Restore.Defs.{Restored, restored_file, restore_fds}
use csci_315_operating_sytem.Checkpoint.Restore.Files.{file_slot, restore_files-ok}
use csci_315_operating_sytem.Checkpoint.Restore.Pipes.{Joined, IsEnd, restore_pipes-Joined}

-- What a restored file keeps: `f` was open, `g` takes its place.
pub record SameFile (f g : OpenFile) : Type 0 where
  pub type : g.type ≡ f.type
  pub readable : g.readable ≡ f.readable
  pub writable : g.writable ≡ f.writable
  pub inum : is_pipe f.type ≡ false → g.inum ≡ f.inum
  pub off : f.type ≡ fd_inode → g.off ≡ f.off
  pub major : f.type ≡ fd_device → g.major ≡ f.major

-- The table `new` is the table `old` up to the identity of its pipes.
pub record Rebuilt (old new : ℕ → Option OpenFile) : Type 0 where
  pub closed : (i : ℕ) → i < nofile → old i ≡ none → new i ≡ none
  pub opened :
      (i : ℕ) (f : OpenFile)
      → i < nofile
      → old i ≡ some f
      → (g : OpenFile) × (new i ≡ some g) × SameFile f g
  pub pipes :
      (i j : ℕ) (f g f' g' : OpenFile)
      → i < nofile
      → j < nofile
      → old i ≡ some f
      → old j ≡ some g
      → is_pipe f.type ≡ true
      → is_pipe g.type ≡ true
      → new i ≡ some f'
      → new j ≡ some g'
      → (f'.pipe ≡ g'.pipe) ↔ (f.pipe ≡ g.pipe)

module _ (ofile : ℕ → Option OpenFile) (c : Capture) (v : IsCapture ofile c)
    (new : ℕ → Option OpenFile) (next : ℕ) (base : ℕ → Option OpenFile)
    (slots : (i : ℕ) → i < nofile → base i ≡ file_slot (c.fds i).type (c.fds i)) where
  abbrev table : Restored
  table = record { ofile = new; next = next }

  module _ (files pairs : ℕ → Bool) (enough : (i : ℕ) → i < nofile → pairs i ≡ true)
      (q : Joined pairs enough c.fds (IsCapture-Paired ofile c v) base nofile table) where
    pipe_of :
        (i : ℕ) (f : OpenFile)
        → i < nofile
        → ofile i ≡ some f
        → is_pipe f.type ≡ true
        → (a : PipeEntry ofile c v i) × (a.file ≡ f)
    pipe_of i f lt at typed =
        let a = pipe_entry ofile c v i lt (pipe_entry_of ofile c v i f lt at typed) in
        let same : some a.file ≡ some f = sym a.at ∙ at in (a, cc (same))

    other_slot :
        (i : ℕ)
        → i < nofile
        → is_pipe (c.fds i).type ≡ false
        → new i ≡ file_slot (c.fds i).type (c.fds i)
    other_slot i lt ti = q.others i lt ti ∙ slots i lt

    entry_at : (i : ℕ) (o : Option OpenFile) → i < nofile → ofile i ≡ o → Entry ofile o (c.fds i) c
    entry_at i o lt at = subst (λ o. Entry ofile o (c.fds i) c) at (v.entries i lt)

    -- A slot that the first pass filled.
    plain_slot :
        (i : ℕ) (e : CkptFd)
        → i < nofile
        → c.fds i ≡ e
        → is_pipe e.type ≡ false
        → new i ≡ file_slot e.type e
    plain_slot i e lt eq other =
        other_slot i lt (ap (λ (x : CkptFd). is_pipe x.type) eq ∙ other)
        ∙ ap (λ (x : CkptFd). file_slot x.type x) eq

    plain_file :
        (i : ℕ) (f : OpenFile) (t : FileType) (e : CkptFd)
        → i < nofile
        → f.type ≡ t
        → c.fds i ≡ e
        → e.type ≡ f.type
        → is_pipe t ≡ false
        → file_slot t e ≡ some (restored_file e)
        → new i ≡ some (restored_file e)
    plain_file i f t e lt ft eq same other slot =
        plain_slot i e lt eq (ap is_pipe (same ∙ ft) ∙ other)
        ∙ ap (λ (u : FileType). file_slot u e) (same ∙ ft)
        ∙ slot

    -- A slot that the second pass filled.
    pipe_slot :
        (i : ℕ) (f : OpenFile)
        → i < nofile
        → ofile i ≡ some f
        → is_pipe f.type ≡ true
        → (g : OpenFile) × (new i ≡ some g) × SameFile f g
    pipe_slot i f lt at typed =
        let ti = pipe_entry_of ofile c v i f lt at typed in
        let (a, same) = pipe_of i f lt at typed in
        elim (Option-cases (new i)) [
          | inl empty ↦ absurd (q.filled i lt lt ti empty)
          | inr (g, full) ↦ (g, full, kept a same g (q.ends i g lt ti full))
        ]
      where
        kept :
            (a : PipeEntry ofile c v i)
            → a.file ≡ f
            → (g : OpenFile) → IsEnd pairs enough c.fds (IsCapture-Paired ofile c v) base i next g
            → SameFile f g
        kept a same g e = record {
          type = ground (arith, e.typed, typed);
          readable =
              e.readable
              ∙ ap (λ (x : CkptFd). x.readable) a.entry
              ∙ ap (λ (x : OpenFile). x.readable) same;
          writable =
              e.writable
              ∙ ap (λ (x : CkptFd). x.writable) a.entry
              ∙ ap (λ (x : OpenFile). x.writable) same;
          inum = λ other. (let bad : true ≡ false = sym typed ∙ other in cc);
          off = λ other. (let bad : true ≡ false = sym typed ∙ ap is_pipe other in cc);
          major = λ other. (let bad : true ≡ false = sym typed ∙ ap is_pipe other in cc);
        }

    opened :
        (i : ℕ) (f : OpenFile) (t : FileType)
        → i < nofile
        → ofile i ≡ some f
        → f.type ≡ t
        → FileEntry ofile t f (c.fds i) c
        → (g : OpenFile) × (new i ≡ some g) × SameFile f g
    opened i f fd_none lt at e h = absurd h
    opened i f fd_pipe lt at e h = pipe_slot i f lt at (rw e)
    opened i f fd_inode lt at e h = (
      restored_file (record (base_fd f) { inum = f.inum; off = f.off }),
      plain_file i f fd_inode (record (base_fd f) { inum = f.inum; off = f.off }) lt e h refl refl
          refl,
      record {
        type = refl;
        readable = refl;
        writable = refl;
        inum = λ _. refl;
        off = λ _. refl;
        major = λ d. (let bad : fd_inode ≡ fd_device = sym e ∙ d in cc);
      },
    )
    opened i f fd_device lt at e h = (
      restored_file (record (base_fd f) { inum = f.inum; major = f.major }),
      plain_file i f fd_device (record (base_fd f) { inum = f.inum; major = f.major }) lt e h refl
          refl refl,
      record {
        type = refl;
        readable = refl;
        writable = refl;
        inum = λ _. refl;
        off = λ d. (let bad : fd_device ≡ fd_inode = sym e ∙ d in cc);
        major = λ _. refl;
      },
    )

    shared :
        (i j : ℕ) (f g f' g' : OpenFile)
        → i < nofile
        → j < nofile
        → ofile i ≡ some f
        → ofile j ≡ some g
        → is_pipe f.type ≡ true
        → is_pipe g.type ≡ true
        → new i ≡ some f'
        → new j ≡ some g'
        → (f'.pipe ≡ g'.pipe) ↔ (f.pipe ≡ g.pipe)
    shared i j f g f' g' li lj oi oj ti tj ni nj =
        let (a, fa) = pipe_of i f li oi ti in
        let (b, gb) = pipe_of j g lj oj tj in
        let ids = same_pipe ofile c v i j a b in
        let both =
          q.shared i j f' g' li lj (pipe_entry_of ofile c v i f li oi ti)
            (pipe_entry_of ofile c v j g lj oj tj) ni nj in
        let pf : a.file.pipe ≡ f.pipe = ap (λ (x : OpenFile). x.pipe) fa in
        let pg : b.file.pipe ≡ g.pipe = ap (λ (x : OpenFile). x.pipe) gb in
        let id_a = entry_id ofile c v i a in
        let id_b = entry_id ofile c v j b in
        (
          λ e.
              (let same : some a.id ≡ some b.id = sym id_a ∙ both.0 e ∙ id_b in
                sym pf ∙ ids.1 (cc (same)) ∙ pg),
          λ e. both.1 (id_a ∙ ap some (ids.0 (pf ∙ e ∙ sym pg)) ∙ sym id_b),
        )

    table-Rebuilt : Rebuilt ofile new
    table-Rebuilt = record {
      closed = λ i lt at. plain_slot i empty_fd lt (entry_at i none lt at) refl;
      opened = λ i f lt at. opened i f f.type lt at refl (entry_at i (some f) lt at);
      pipes = shared;
    }

-- Before the second pass no pipe entry is restored.
first_pass :
    (ofile : ℕ → Option OpenFile) (c : Capture) (v : IsCapture ofile c) (pairs : ℕ → Bool)
    (enough : (i : ℕ) → i < nofile → pairs i ≡ true) (r : Restored)
    → ((i : ℕ) → i < nofile → r.ofile i ≡ file_slot (c.fds i).type (c.fds i))
    → Joined pairs enough c.fds (IsCapture-Paired ofile c v) r.ofile 0 r
first_pass ofile c v pairs enough r slots = record {
  others = λ i li ti. refl;
  filled = λ i li lt. absurd (omega arith);
  ends = λ i f li ti e. (let bad : none ≡ some f = sym (none_yet i li ti) ∙ e in cc);
  closed = λ i j li lj ti tj e full. absurd (full (none_yet i li ti));
  shared = λ i j f g li lj ti tj e e'. (let bad : none ≡ some f = sym (none_yet i li ti) ∙ e in cc);
}
  where
    no_file : (t : FileType) (e : CkptFd) → is_pipe t ≡ true → file_slot t e ≡ none
    no_file fd_none e h = refl
    no_file fd_pipe e h = refl
    no_file fd_inode e h = cc
    no_file fd_device e h = cc

    none_yet : (i : ℕ) → i < nofile → is_pipe (c.fds i).type ≡ true → r.ofile i ≡ none
    none_yet i li ti = slots i li ∙ no_file (c.fds i).type (c.fds i) ti

-- Whatever descriptor table `checkpoint_proc` accepts, `restore_proc` rebuilds: given a file
-- structure and a pipe wherever it asks for one, it reaches its end, every closed descriptor is
-- closed, every open one is open again with the same type, flags, inode, offset and device, and two
-- descriptors are ends of one pipe exactly when they were so before.
pub restore_fds-Rebuilt :
    (ofile : ℕ → Option OpenFile) (files pairs : ℕ → Bool) (start : ℕ → Option OpenFile)
    {c : Capture}
    → ((i : ℕ) → i < nofile → files i ≡ true)
    → ((i : ℕ) → i < nofile → pairs i ≡ true)
    → capture_fds ofile ≡ some c
    → (s : Restored) × (restore_fds files pairs c.fds start ≡ some s) × Rebuilt ofile s.ofile
unfolding restore_fds
restore_fds-Rebuilt ofile files pairs start {c} many_files many_pairs e =
    let v = Holds-some (IsCapture ofile) (capture_fds ofile) (capture_fds-IsCapture ofile) e in
    let (r, er, nr, slots, rest) =
      restore_files-ok files many_files c.fds nofile 0 (record { ofile = start; next = 0 })
        (omega arith) in
    let at_slot : (i : ℕ) → i < nofile → r.ofile i ≡ file_slot (c.fds i).type (c.fds i) =
      λ i lt. slots i (omega arith) (omega arith) in
    let q0 = first_pass ofile c v pairs many_pairs r at_slot in
    let (s, es, qs) =
      restore_pipes-Joined pairs many_pairs c.fds (IsCapture-Paired ofile c v) r.ofile nofile 0 r
        (omega arith) q0 in
    (
      s,
      rw (er, restore_fds) es,
      table-Rebuilt ofile c v s.ofile s.next r.ofile at_slot files pairs many_pairs qs,
    )
