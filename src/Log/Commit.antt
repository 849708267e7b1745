-- ===== src/Log/Commit.antt =====
-- `commit`: a transaction reaches the disk whole or not at all, wherever power fails.
use csci_315_operating_sytem.Prelude.{
  ℕ, zero, suc, ◌+◌, ◌<◌, ◌≤◌, ◌≡◌, ◌≢◌, ◌⊎◌, inl, inr, refl, arith, false, ltb, Bool-cases, update,
  update_self, ◌∙◌, ap, sym, subst,
}
use csci_315_operating_sytem.Log.Defs.{
  Block, Disk, Log, LogHeader, log_blocks, copy_block, write_head, clear_count, head_words,
  install_trans, write_log_block, write_log_loop, write_log, commit, ◌>>◌,
}
use csci_315_operating_sytem.Log.Overlay.{IsHome, overlay, overlay-eq, logged}
use csci_315_operating_sytem.Log.Outcome.{Ends, Ends-bind, Ends-mono, Ends-bwrite, written}
use csci_315_operating_sytem.Log.Head.{head_words_low, head_words_at}
use csci_315_operating_sytem.Log.Install.{IsLayout, InArea, home-ne-area}
use csci_315_operating_sytem.Log.Recover.{
  IsLogDisk, SameHomes, Recovered, Survives, Recovered-mono, Survives-mono, meaning_empty,
  install_clear-Recovered,
}

-- Between transactions: the disk's log is empty, and every buffer that differs from the disk
-- belongs to a block of the log header in memory.
pub record Ready (start : ℕ) (s : Log) : Type 0 where
  pub at_start : s.start ≡ start
  pub layout : IsLayout start s.lh
  pub empty_disk : s.disk start 0 ≡ 0
  pub clean : (b : ℕ) → logged s.lh.block s.lh.n b ≡ false → s.buf b ≡ s.disk b

pub logged-area :
    (start : ℕ) (block : ℕ → ℕ) (n a : ℕ)
    → ((t : ℕ) → t < n → IsHome start (block t))
    → InArea start a
    → logged block n a ≡ false
unfolding logged
logged-area start block zero a homes h = refl
logged-area start block (suc n) a homes h =
    ground (arith, homes n, logged-area start block n a (λ t lt. homes t (omega arith)) h)

logged_zero : (block : ℕ → ℕ) (b : ℕ) → logged block 0 b ≡ false
unfolding logged
logged_zero block b = refl

module _ (start : ℕ) (lh : LogHeader) (b0 d0 : Disk) where
  -- The first `k` logged blocks are in the log area of the disk; nothing else has changed.
  pub record Copied (k : ℕ) (s : Log) : Type 0 where
    pub at_start : s.start ≡ start
    pub header : s.lh ≡ lh
    pub disk_home : SameHomes start s.disk d0
    pub disk_head : s.disk start ≡ d0 start
    pub buf_home : SameHomes start s.buf b0
    pub area : (a : ℕ) → InArea start a → s.buf a ≡ s.disk a
    pub copies : (t : ℕ) → t < k → s.disk (start + t + 1) ≡ b0 (lh.block t)

  -- The disk of a commit that was cut off before the header was written.
  abbrev pub Untouched : Disk → Type 0
  Untouched d = SameHomes start d d0 × (d start ≡ d0 start)

  module _ (ok : IsLayout start lh) where
    copy_block-Copied :
        (k : ℕ) (s : Log)
        → k < lh.n
        → Copied k s
        → Copied (suc k) (written (s.start + k + 1) (copy_block (s.start + k + 1) (s.lh.block k) s))
    unfolding copy_block update
    copy_block-Copied k s lt i = record {
      at_start = i.at_start;
      header = i.header;
      disk_home = λ b h. ground (arith, i.disk_home b h, ne b h, i.at_start);
      disk_head = ground (arith, i.disk_head, i.at_start);
      buf_home = λ b h. ground (arith, i.buf_home b h, ne b h, i.at_start);
      area = λ a h. ground (arith, i.area a h, i.at_start);
      copies = λ t l. ground (arith, i.copies t, src, i.at_start);
    }
      where
        fits : lh.n ≤ log_blocks
        fits = ok.fits

        ne : (b : ℕ) → IsHome start b → b ≢ start + k + 1
        ne b h = home-ne-area start b (start + k + 1) h (omega arith, omega (arith, fits))

        src : s.buf (s.lh.block k) ≡ b0 (lh.block k)
        src =
            ap (λ (l : LogHeader). s.buf (l.block k)) i.header
            ∙ i.buf_home (lh.block k) (ok.homes k lt)

    write_log_block-Copied :
        (k : ℕ) (s : Log)
        → k < lh.n
        → Copied k s
        → Ends (Copied (suc k)) Untouched (write_log_block k s)
    unfolding write_log_block
    write_log_block-Copied k s lt i =
        Ends-bwrite (Copied (suc k)) Untouched (s.start + k + 1)
          (copy_block (s.start + k + 1) (s.lh.block k) s)
          (unfold copy_block in (i.disk_home, i.disk_head)) (copy_block-Copied k s lt i)

    write_log_loop-Copied :
        (k rounds : ℕ) (s : Log)
        → k + rounds ≡ lh.n
        → Copied k s
        → Ends (Copied lh.n) Untouched (write_log_loop rounds k s)
    unfolding write_log_loop
    write_log_loop-Copied k zero s e i = subst (λ (j : ℕ). Copied j s) (omega arith) i
    write_log_loop-Copied k (suc r) s e i =
        Ends-bind (Copied (suc k)) (Copied lh.n) Untouched (write_log_block k s) _
          (write_log_block-Copied k s (omega arith) i)
          (λ t j.
            subst (λ (m : ℕ). Ends (Copied lh.n) Untouched (write_log_loop r m t))
              (let e' : suc k ≡ k + 1 = omega arith in e')
              (write_log_loop-Copied (suc k) r t (omega arith) j))

-- Before: the home blocks as they were on disk. After: as the buffers have them.
abbrev pub AllOrNothing : ℕ → Log → Disk → Type 0
AllOrNothing start s d = Survives start s.disk d ⊎ Survives start s.buf d

-- After the header is written, what the disk stands for is what the buffers hold.
module _ (start : ℕ) (s : Log) (ready : Ready start s) where
  open ready use {at_start, layout, empty_disk, clean}

  -- The state in which `write_head` returns, from one in which the log blocks are written.
  abbrev headed : Log → Log
  headed c = written c.start (record c {
    buf = update c.buf c.start (head_words c.lh.block c.lh.n 0 (update (c.buf c.start) 0 c.lh.n));
  })

  module _ (c : Log) (i : Copied start s.lh s.buf s.disk s.lh.n c) where
    head_block :
        (headed c).disk start ≡ head_words s.lh.block s.lh.n 0 (update (c.buf start) 0 s.lh.n)
    unfolding update
    head_block = ground (arith, i.at_start, i.header)

    head_count : (headed c).disk start 0 ≡ s.lh.n
    head_count =
        ap (λ (w : Block). w 0) head_block
        ∙ head_words_low s.lh.block s.lh.n 0 0 _ (omega arith)
        ∙ update_self (c.buf start) 0 s.lh.n

    head_entry : (t : ℕ) → t < s.lh.n → (headed c).disk start (t + 1) ≡ s.lh.block t
    head_entry t lt =
        ap (λ (w : Block). w (t + 1)) head_block
        ∙ head_words_at s.lh.block s.lh.n 0 t _ (omega arith) (omega arith)

    headed-IsLayout : IsLayout start c.lh
    headed-IsLayout = subst (λ l. IsLayout start l) (sym i.header) layout

    headed-IsLogDisk : IsLogDisk start (headed c).disk
    headed-IsLogDisk = record {
      fits = omega (arith, head_count, layout.fits);
      homes = λ t lt.
          subst (λ b. IsHome start b) (sym (head_entry t (omega (arith, head_count))))
            (layout.homes t (omega (arith, head_count)));
    }

    headed-clean : (a : ℕ) → InArea start a → (headed c).buf a ≡ (headed c).disk a
    unfolding update
    headed-clean a h = ground (arith, i.area a h)

    headed_home :
        (b : ℕ) → IsHome start b → ((headed c).disk b ≡ s.disk b) × ((headed c).buf b ≡ s.buf b)
    unfolding update
    headed_home b h =
        let ne : b ≢ start = home-ne-area start b start h (omega arith, omega arith) in
        (ground (arith, i.disk_home b h, i.at_start), ground (arith, i.buf_home b h, i.at_start))

    headed_copy : (t : ℕ) → t < s.lh.n → (headed c).disk (start + t + 1) ≡ s.buf (s.lh.block t)
    unfolding update
    headed_copy t lt = ground (arith, i.copies t lt, i.at_start)

    block-eq : c.lh.block ≡ s.lh.block
    block-eq = ap (λ (l : LogHeader). l.block) i.header

    count-eq : c.lh.n ≡ s.lh.n
    count-eq = ap (λ (l : LogHeader). l.n) i.header

    abbrev installed_target : Disk → ℕ → Block
    installed_target base b = overlay base (headed c).disk start c.lh.block c.lh.n b

    target-buf :
        (base : Disk)
        → ((b : ℕ) → IsHome start b → logged s.lh.block s.lh.n b ≡ false → base b ≡ s.buf b)
        → SameHomes start (installed_target base) s.buf
    target-buf base same b h =
        overlay-eq base (headed c).disk s.buf start c.lh.block c.lh.n b
          (λ e. same b h (rw (block-eq, count-eq) at e))
          (λ t lt.
            headed_copy t (omega (arith, count-eq))
            ∙ ap (λ (f : ℕ → ℕ). s.buf (f t)) (sym block-eq))

    disk-target : SameHomes start (installed_target (headed c).disk) s.buf
    disk-target = target-buf (headed c).disk (λ b h e. (headed_home b h).0 ∙ sym (clean b e))

    buf-target : SameHomes start (installed_target (headed c).buf) s.buf
    buf-target = target-buf (headed c).buf (λ b h e. (headed_home b h).1)

    install-Recovered :
        Ends
          (Recovered start s.buf)
          (Survives start s.buf)
          (install_trans false (headed c) >> λ t. write_head (clear_count t))
    install-Recovered =
        Ends-mono _ (Recovered start s.buf) _ (Survives start s.buf)
          (install_trans false (headed c) >> λ t. write_head (clear_count t))
          (install_clear-Recovered start (headed c) i.at_start headed-IsLayout headed-clean
            (count-eq ∙ sym head_count)
            (λ t lt.
              ap (λ (f : ℕ → ℕ). f t) block-eq ∙ sym (head_entry t (omega (arith, count-eq))))
            headed-IsLogDisk false (λ b h. buf-target b h ∙ sym (disk-target b h)))
          (Recovered-mono start _ s.buf disk-target) (Survives-mono start _ s.buf disk-target)

  Untouched-Survives : (d : Disk) → Untouched start s.lh s.buf s.disk d → Survives start s.disk d
  Untouched-Survives d (homes, head) = (
    λ b h. meaning_empty start d b none_committed ∙ homes b h,
    record {
      fits = omega (arith, none_committed);
      homes = λ t lt. absurd (omega (arith, none_committed));
    },
  )
    where
      none_committed : d start 0 ≡ 0
      none_committed = ap (λ (w : Block). w 0) head ∙ empty_disk

  write_log-Copied :
      Ends (Copied start s.lh s.buf s.disk s.lh.n) (Untouched start s.lh s.buf s.disk) (write_log s)
  unfolding write_log
  write_log-Copied =
      write_log_loop-Copied start s.lh s.buf s.disk layout 0 s.lh.n s (omega arith) (record {
        at_start = at_start;
        header = refl;
        disk_home = λ b h. refl;
        disk_head = refl;
        buf_home = λ b h. refl;
        area = λ a h. clean a (logged-area start s.lh.block s.lh.n a layout.homes h);
        copies = λ t lt. absurd (omega arith);
      })

  install_after_head :
      (c : Log)
      → Copied start s.lh s.buf s.disk s.lh.n c
      → Ends
          (Recovered start s.buf)
          (AllOrNothing start s)
          (write_head c >> λ b. install_trans false b >> λ t. write_head (clear_count t))
  unfolding write_head
  install_after_head c i =
      Ends-bind (λ b. b ≡ headed c) (Recovered start s.buf) (AllOrNothing start s) (write_head c) _
        (Ends-bwrite (λ b. b ≡ headed c) (AllOrNothing start s) c.start _
          (inl (Untouched-Survives c.disk (i.disk_home, i.disk_head))) refl)
        (λ b e.
          subst
            (λ t.
              Ends (Recovered start s.buf) (AllOrNothing start s)
                (install_trans false t >> λ u. write_head (clear_count u)))
            (sym e)
            (Ends-mono _ _ _ _ (install_trans false (headed c) >> λ t. write_head (clear_count t))
              (install-Recovered c i) (λ t r. r) (λ d v. inr v)))

  nothing_logged : s.lh.n ≡ 0 → Recovered start s.buf s
  nothing_logged e = record {
    at_start = at_start;
    empty = e;
    empty_disk = empty_disk;
    homes = λ b h. sym (clean b (rw e (logged_zero s.lh.block b)));
    buffers = λ b h. refl;
    area = λ a h. clean a (logged-area start s.lh.block s.lh.n a layout.homes h);
  }

  -- `commit` makes every home block what the buffers hold and empties the log. If power fails on the
  -- way, the disk stands for the home blocks either all as they were or all as in the buffers, and
  -- recovery can read it.
  pub commit-AllOrNothing : Ends (Recovered start s.buf) (AllOrNothing start s) (commit s)
  unfolding commit
  commit-AllOrNothing = elim (Bool-cases (ltb 0 s.lh.n)) [
    | inl some_blocks ↦ rw some_blocks (
        Ends-bind (Copied start s.lh s.buf s.disk s.lh.n) (Recovered start s.buf)
          (AllOrNothing start s) (write_log s) _
          (Ends-mono _ _ _ (AllOrNothing start s) (write_log s) write_log-Copied (λ t i. i)
            (λ d u. inl (Untouched-Survives d u)))
          install_after_head)
    | inr none_logged ↦ rw none_logged (nothing_logged (ground arith))
  ]
