-- ===== src/Checkpoint/Capture/Step.antt =====
-- One round of the capturing loop of `checkpoint_proc`.
use csci_315_operating_sytem.Prelude.{
  ℕ, suc, ◌+◌, ◌≡◌, ◌≢◌, refl, arith, Bool, false, Option, none, some, ◌==◌, inl, inr, Bool-cases,
  update, update_self, update_ne, ap, ◌∙◌, sym, subst,
}
use csci_315_operating_sytem.Checkpoint.Defs.{
  fd_pipe, is_pipe, OpenFile, CkptFd, base_fd, Capture, pipe_slot, capture_end, capture_pipe,
}
use csci_315_operating_sytem.Checkpoint.Counts.{count, end_of, reads, writes, Holds, end_of-other}
use csci_315_operating_sytem.Checkpoint.Capture.Table.{
  Tallied, FileEntry, Entry, Entered, Extends, Entry-mono,
}
use csci_315_operating_sytem.Checkpoint.Capture.Slot.{
  Slot, pipe_slot-Slot, Ended, capture_end-Ended,
}

module _ (ofile : ℕ → Option OpenFile) where
  -- Descriptors that are no pipe ends leave the tally alone.
  module _ (m : ℕ) (c : Capture) (t : Tallied ofile m c) where
    pub skip-Tallied :
        (fds : ℕ → CkptFd) (num : ℕ)
        → ((side : OpenFile → Bool) (p : ℕ) → end_of side ofile p m ≡ false)
        → Tallied ofile (suc m) (record c { fds = fds; num_fds = num })
    unfolding count
    skip-Tallied fds num no_end = record {
      few = t.few;
      distinct = t.distinct;
      read_count = λ j lj. rw (no_end reads (c.pipes j)) (omega (arith, t.read_count j lj));
      write_count = λ j lj. rw (no_end writes (c.pipes j)) (omega (arith, t.write_count j lj));
      absent = λ p h. (
        rw (no_end reads p) (omega (arith, (t.absent p h).0)),
        rw (no_end writes p) (omega (arith, (t.absent p h).1)),
      );
    }

    -- One more entry.
    module _ (v : Entered ofile m c) where
      enter-Entered :
          (d : Capture) (e : CkptFd)
          → Extends c d
          → Entry ofile (ofile m) e d
          → (d' : Capture) → d'.npipes ≡ d.npipes
          → d'.pipes ≡ d.pipes
          → d'.fds ≡ update d.fds m e
          → Entered ofile (suc m) d'
      enter-Entered d e ext here d' en ep ef = record {
        before = λ i lt. elim (Bool-cases (i == m)) [
          | inl last ↦
              (let same : i ≡ m = ground arith in
                rw same
                  (subst (λ x. Entry ofile (ofile m) x d') (sym at_m) (from_d (ofile m) e here)))
          | inr old ↦
              subst (λ x. Entry ofile (ofile i) x d') (sym (at_old i (ground arith)))
                (from_d (ofile i) (c.fds i) (
                  Entry-mono ofile c d ext.0 ext.1 (ofile i) (c.fds i) (v.before i (ground arith))))
        ];
        after = λ i le. at_old i (omega arith) ∙ v.after i (omega arith);
      }
        where
          at_m : d'.fds m ≡ e
          at_m = ap (λ (g : ℕ → CkptFd). g m) ef ∙ update_self d.fds m e

          at_old : (i : ℕ) → i ≢ m → d'.fds i ≡ c.fds i
          at_old i ne =
              ap (λ (g : ℕ → CkptFd). g i) ef
              ∙ update_ne d.fds m i e ne
              ∙ ap (λ (g : ℕ → CkptFd). g i) ext.2

          from_d : (o : Option OpenFile) (x : CkptFd) → Entry ofile o x d → Entry ofile o x d'
          from_d o x h =
              Entry-mono ofile d d' (omega (arith, en)) (λ j lj. ap (λ (g : ℕ → ℕ). g j) ep) o x h

      abbrev self : Extends c c
      self = (omega arith, λ j lj. refl, refl)

      pub plain-Next :
          (f : OpenFile) (e : CkptFd)
          → ofile m ≡ some f
          → is_pipe f.type ≡ false
          → FileEntry ofile f.type f e c
          → Tallied ofile (suc m) (record c { fds = update c.fds m e; num_fds = c.num_fds + 1 })
            × Entered ofile (suc m) (record c { fds = update c.fds m e; num_fds = c.num_fds + 1 })
      plain-Next f e at other entry = (
        skip-Tallied (update c.fds m e) (c.num_fds + 1)
            (λ side p. end_of-other side ofile p m at other),
        enter-Entered c e self (subst (λ o. Entry ofile o e c) (sym at) entry) _ refl refl refl,
      )

      pub pipe-Next :
          (f : OpenFile)
          → ofile m ≡ some f
          → f.type ≡ fd_pipe
          → Holds (λ d. Tallied ofile (suc m) d × Entered ofile (suc m) d) (capture_pipe f m c)
      unfolding capture_pipe
      pipe-Next f at typed = go (pipe_slot f.pipe c) (pipe_slot-Slot ofile m f.pipe c t)
        where
          finish :
              (id : ℕ) (d : Capture) (s : Slot ofile m f.pipe c id d) (o : Option Capture)
              → Holds (Ended ofile m id f d s.tallied at (rw typed) s.within s.names) o
              → Holds (λ d. Tallied ofile (suc m) d × Entered ofile (suc m) d) o
          finish id d s none h = tt
          finish id d s (some d') h = (
            h.tallied,
            enter-Entered d (record (base_fd f) { pipe_id = some id }) s.extends
                (subst (λ o. Entry ofile o (record (base_fd f) { pipe_id = some id }) d) (sym at)
                  (rw typed (id, s.within, s.names, refl, h.one_way)))
                d' h.npipes h.pipes h.fds,
          )

          go :
              (o : Option (ℕ × Capture))
              → Holds (λ r. Slot ofile m f.pipe c r.0 r.1) o
              → Holds
                  (λ d. Tallied ofile (suc m) d × Entered ofile (suc m) d)
                  (elim o [ none ↦ none | some (id, d) ↦ capture_end f id m d ])
          go none h = tt
          go (some (id, d)) s =
              finish id d s (capture_end f id m d)
                (capture_end-Ended ofile m id f d s.tallied at (rw typed) s.within s.names)
