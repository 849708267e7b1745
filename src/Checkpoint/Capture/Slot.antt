-- ===== src/Checkpoint/Capture/Slot.antt =====
-- The table of pipes in `checkpoint_proc`: a slot for each pipe, and the counts of its ends.
use csci_315_operating_sytem.Prelude.{
  ℕ, suc, ◌+◌, ◌<◌, ◌≡◌, ◌≢◌, refl, arith, Bool, true, ◌&&◌, Option, some, ◌==◌, ltb, leb,
  if◌then◌else◌, inl, inr, ◌⊎◌, Bool-cases, Option-cases, update, update_self, update_ne, sym,
}
use csci_315_operating_sytem.Proc.Defs.{nofile}
use csci_315_operating_sytem.Checkpoint.Defs.{
  is_pipe, OpenFile, CkptFd, base_fd, Capture, find_pipe, add_pipe, pipe_slot, count_end,
  capture_end,
}
use csci_315_operating_sytem.Checkpoint.Counts.{count, end_of, reads, writes, Holds, end_of-some}
use csci_315_operating_sytem.Checkpoint.Capture.Table.{
  Tallied, find_pipe-some, find_pipe-none, Extends,
}

module _ (ofile : ℕ → Option OpenFile) where
  -- What `pipe_slot` returns.
  pub record Slot (m p : ℕ) (c : Capture) (id : ℕ) (d : Capture) : Type 0 where
    pub tallied : Tallied ofile m d
    pub extends : Extends c d
    pub within : id < d.npipes
    pub names : d.pipes id ≡ p

  abbrev added : ℕ → Capture → Capture
  added p c = record c {
    npipes = c.npipes + 1;
    pipes = update c.pipes c.npipes p;
    nrefs = update c.nrefs c.npipes 0;
    read_refs = update c.read_refs c.npipes 0;
    write_refs = update c.write_refs c.npipes 0;
  }

  added-Tallied :
      (m p : ℕ) (c : Capture)
      → Tallied ofile m c
      → c.npipes < nofile
      → ((j : ℕ) → j < c.npipes → c.pipes j ≢ p)
      → Tallied ofile m (added p c)
  unfolding update
  added-Tallied m p c t room new = record {
    few = omega arith;
    distinct = λ j k lj lk e. ground (arith, t.distinct j k, new j, new k);
    read_count = λ j lj. elim (Bool-cases (j == c.npipes)) [
      | inl last ↦ rw last (sym (t.absent p new).0)
      | inr old ↦ rw old (t.read_count j (ground arith))
    ];
    write_count = λ j lj. elim (Bool-cases (j == c.npipes)) [
      | inl last ↦ rw last (sym (t.absent p new).1)
      | inr old ↦ rw old (t.write_count j (ground arith))
    ];
    absent = λ q h. t.absent q (λ j lj. ground (arith, h j));
  }

  added-Slot :
      (m p : ℕ) (c : Capture)
      → Tallied ofile m c
      → c.npipes < nofile
      → ((j : ℕ) → j < c.npipes → c.pipes j ≢ p)
      → Slot m p c c.npipes (added p c)
  added-Slot m p c t room new = record {
    tallied = added-Tallied m p c t room new;
    extends = (omega arith, λ j lj. update_ne c.pipes c.npipes j p (omega arith), refl);
    within = omega arith;
    names = update_self c.pipes c.npipes p;
  }

  pub pipe_slot-Slot :
      (m p : ℕ) (c : Capture) → Tallied ofile m c → Holds (λ r. Slot m p c r.0 r.1) (pipe_slot p c)
  unfolding pipe_slot add_pipe
  pipe_slot-Slot m p c t = elim (Option-cases (find_pipe c.pipes p c.npipes 0)) [
    | inr (j, hit) ↦
        (let found = find_pipe-some c.pipes p c.npipes 0 hit in
          rw (hit, pipe_slot)
            (record {
              tallied = t;
              extends = (omega arith, λ k lk. refl, refl);
              within = omega (arith, found.0);
              names = found.1;
            }))
    | inl miss ↦
        rw (miss, pipe_slot)
          (elim (Bool-cases (leb nofile c.npipes)) [
            | inl full ↦ rw full tt
            | inr room ↦ rw room (
                added-Slot m p c t (ground arith)
                  (λ j lj. find_pipe-none c.pipes p c.npipes 0 j miss (omega arith) (omega arith)))
          ])
  ]

  -- Counting one more end of pipe `id`, at descriptor `m`.
  module _ (m id : ℕ) (f : OpenFile) (c : Capture) (t : Tallied ofile m c) (at : ofile m ≡ some f)
      (typed : is_pipe f.type ≡ true) (within : id < c.npipes) (names : c.pipes id ≡ f.pipe) where
    -- The counts go on to the next descriptor.
    count_next :
        (side : OpenFile → Bool) (p : ℕ)
        → count (end_of side ofile p) (suc m)
          ≡ (if (f.pipe == p) && side f then 1 else 0) + count (end_of side ofile p) m
    unfolding count
    count_next side p = rw (end_of-some side ofile p m at typed)

    tally-Tallied :
        (refs wrefs nrefs : ℕ → ℕ)
        → ((j : ℕ) → refs j ≡ (if (j == id) && reads f then c.read_refs j + 1 else c.read_refs j))
        → ((j : ℕ)
            → wrefs j ≡ (if (j == id) && writes f then c.write_refs j + 1 else c.write_refs j))
        → Tallied ofile (suc m) (record c { read_refs = refs; write_refs = wrefs; nrefs = nrefs })
    tally-Tallied refs wrefs nrefs hr hw = record {
      few = t.few;
      distinct = t.distinct;
      read_count = λ j lj. ground (
        arith,
        hr j,
        t.read_count j lj,
        count_next reads (c.pipes j),
        t.distinct id j within lj,
        names,
      );
      write_count = λ j lj. ground (
        arith,
        hw j,
        t.write_count j lj,
        count_next writes (c.pipes j),
        t.distinct id j within lj,
        names,
      );
      absent = λ p h.
          ground (arith, t.absent p h, count_next reads p, count_next writes p, h id within, names);
    }

    -- What `capture_end` leaves.
    pub record Ended (d : Capture) : Type 0 where
      pub tallied : Tallied ofile (suc m) d
      pub npipes : d.npipes ≡ c.npipes
      pub pipes : d.pipes ≡ c.pipes
      pub fds : d.fds ≡ update c.fds m (record (base_fd f) { pipe_id = some id })
      pub one_way : (reads f ≡ true) ⊎ (writes f ≡ true)

    pub capture_end-Ended : Holds Ended (capture_end f id m c)
    unfolding capture_end count_end
    capture_end-Ended = elim (Bool-cases (reads f)) [
      | inl r ↦
          rw (r, capture_end)
            (elim (Bool-cases (ltb 2 (update c.nrefs id (c.nrefs id + 1) id))) [
              | inl many ↦ rw many tt
              | inr two ↦ rw two (record {
                tallied = retag (
                    tally-Tallied (update c.read_refs id (c.read_refs id + 1)) c.write_refs
                      (update c.nrefs id (c.nrefs id + 1)) (λ j. unfold update in (ground arith))
                      (λ j. ground arith));
                npipes = refl;
                pipes = refl;
                fds = refl;
                one_way = inl r;
              })
            ])
      | inr nr ↦
          rw (nr, capture_end)
            (elim (Bool-cases (writes f)) [
              | inr nw ↦ rw nw tt
              | inl w ↦ rw w (elim (Bool-cases (ltb 2 (update c.nrefs id (c.nrefs id + 1) id))) [
                | inl many ↦ rw many tt
                | inr two ↦ rw two (record {
                  tallied = retag (
                      tally-Tallied c.read_refs (update c.write_refs id (c.write_refs id + 1))
                        (update c.nrefs id (c.nrefs id + 1)) (λ j. ground arith)
                        (λ j. unfold update in (ground arith)));
                  npipes = refl;
                  pipes = refl;
                  fds = refl;
                  one_way = inr w;
                })
              ])
            ])
    ]
      where
        -- The descriptors and their number do not matter to the tally.
        retag :
            {d : Capture} {fds : ℕ → CkptFd} {num : ℕ}
            → Tallied ofile (suc m) d
            → Tallied ofile (suc m) (record d { fds = fds; num_fds = num })
        retag u = record {
          few = u.few;
          distinct = u.distinct;
          read_count = u.read_count;
          write_count = u.write_count;
          absent = u.absent;
        }
