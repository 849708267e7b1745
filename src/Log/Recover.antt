-- ===== src/Log/Recover.antt =====
-- `initlog` after a crash: recovery installs what the header commits, and may itself be cut off.
use csci_315_operating_sytem.Prelude.{
  ℕ, ◌+◌, ◌<◌, ◌≡◌, refl, arith, Bool, true, false, update, update_self, ◌∙◌, sym, subst, List, [],
  ◌∷◌,
}
use csci_315_operating_sytem.Log.Defs.{
  Block, Disk, Log, LogHeader, Run, done, panic, crash, read_head, write_head, clear_count,
  recover_from_log, initlog, install_trans, head_words, read_blocks, ◌>>◌,
}
use csci_315_operating_sytem.Log.Overlay.{IsHome, overlay, overlay_congr, meaning}
use csci_315_operating_sytem.Log.Outcome.{Ends, Ends-bind, Ends-mono, Ends-bwrite}
use csci_315_operating_sytem.Log.Head.{head_words_low, read_blocks_at}
use csci_315_operating_sytem.Log.Install.{
  IsLayout, InArea, Installed, Cut, Cut-meaning, install_trans-Installed,
}

-- The header on disk names home blocks and fits the log.
abbrev pub IsLogDisk : ℕ → Disk → Type 0
IsLogDisk start d = IsLayout start (record { n = d start 0; block = λ i. d start (i + 1) })

-- Same home contents, as recovery would leave them.
abbrev pub SameHomes : ℕ → (ℕ → Block) → (ℕ → Block) → Type 0
SameHomes start v w = (b : ℕ) → IsHome start b → v b ≡ w b

-- Recovery has ended: an empty log, and on the home blocks `v`, which the buffers agree with.
pub record Recovered (start : ℕ) (v : Disk) (s : Log) : Type 0 where
  pub at_start : s.start ≡ start
  pub empty : s.lh.n ≡ 0
  pub empty_disk : s.disk start 0 ≡ 0
  pub homes : SameHomes start s.disk v
  pub buffers : SameHomes start s.buf v
  pub area : (a : ℕ) → InArea start a → s.buf a ≡ s.disk a

-- Clearing the header is the last step of recovery and of a commit.
module _ (start : ℕ) (s : Log) (v : Disk) (at : s.start ≡ start) (homes : SameHomes start s.disk v)
    (buffers : SameHomes start s.buf v) (area : (a : ℕ) → InArea start a → s.buf a ≡ s.disk a) where
  zeroed : head_words s.lh.block 0 0 (update (s.buf s.start) 0 0) 0 ≡ 0
  zeroed = head_words_low s.lh.block 0 0 0 _ (omega arith) ∙ update_self (s.buf s.start) 0 0

  pub write_head-Recovered :
      (Q : Disk → Type 0) → Q s.disk → Ends (Recovered start v) Q (write_head (clear_count s))
  unfolding write_head clear_count update
  write_head-Recovered Q q = Ends-bwrite (Recovered start v) Q s.start _ q (record {
    at_start = at;
    empty = refl;
    empty_disk = ground (arith, zeroed);
    homes = λ b h. ground (arith, homes b h);
    buffers = λ b h. ground (arith, buffers b h);
    area = λ a h. ground (arith, area a h);
  })

-- What a reboot may leave: the same contents, and a log that recovery can read again.
abbrev pub Survives : ℕ → (ℕ → Block) → Disk → Type 0
Survives start v d = SameHomes start (meaning start d) v × IsLogDisk start d

-- An empty log on disk stands for the home blocks as they are.
pub meaning_empty : (start : ℕ) (d : Disk) (b : ℕ) → d start 0 ≡ 0 → meaning start d b ≡ d b
unfolding overlay
meaning_empty start d b e = rw e

IsLayout-congr :
    (start : ℕ) (d e : Disk) → e start ≡ d start → IsLogDisk start d → IsLogDisk start e
IsLayout-congr start d e p ok = rw p ok

module _ (start : ℕ) (s : Log) (at : s.start ≡ start) (ok : IsLayout start s.lh)
    (clean : (a : ℕ) → InArea start a → s.buf a ≡ s.disk a) (count : s.lh.n ≡ s.disk start 0)
    (entries : (t : ℕ) → t < s.lh.n → s.lh.block t ≡ s.disk start (t + 1))
    (log_disk : IsLogDisk start s.disk) where
  abbrev target : Disk → Disk
  target base b = overlay base s.disk start s.lh.block s.lh.n b

  Cut-Survives : (d : Disk) → Cut start s.lh s.buf s.disk d → Survives start (target s.disk) d
  Cut-Survives d c = (
    Cut-meaning start s.lh s.buf s.disk ok clean d c count entries,
    IsLayout-congr start s.disk d (c.2.area start (omega arith, omega arith)) log_disk,
  )

  Installed-start : Installed start s.lh s.buf s.disk 0 s
  unfolding overlay
  Installed-start = record {
    at_start = at;
    header = refl;
    disk_home = λ b h. refl;
    disk_area = λ a h. refl;
    buf_home = λ b h. refl;
    buf_area = λ a h. refl;
  }

  -- `install_trans` and the clearing of the header, from a state whose log is on disk.
  pub install_clear-Recovered :
      (recovering : Bool)
      → SameHomes start (target s.buf) (target s.disk)
      → Ends
          (Recovered start (target s.disk))
          (Survives start (target s.disk))
          (install_trans recovering s >> λ t. write_head (clear_count t))
  install_clear-Recovered recovering agree =
      Ends-bind (Installed start s.lh s.buf s.disk s.lh.n) (Recovered start (target s.disk))
        (Survives start (target s.disk)) (install_trans recovering s) _
        (Ends-mono _ _ (Cut start s.lh s.buf s.disk) (Survives start (target s.disk))
          (install_trans recovering s)
          (install_trans-Installed start s.lh s.buf s.disk ok clean recovering s Installed-start)
          (λ t i. i) Cut-Survives)
        (λ t i.
          write_head-Recovered start t (target s.disk) i.at_start i.disk_home
            (λ b h. i.buf_home b h ∙ agree b h)
            (λ a h. i.buf_area a h ∙ clean a h ∙ sym (i.disk_area a h))
            (Survives start (target s.disk))
            (Cut-Survives t.disk
              (s.lh.n, omega arith, record { home = i.disk_home; area = i.disk_area })))

module _ (start : ℕ) (v w : Disk) (same : SameHomes start v w) where
  pub Recovered-mono : (s : Log) → Recovered start v s → Recovered start w s
  Recovered-mono s r = record {
    at_start = r.at_start;
    empty = r.empty;
    empty_disk = r.empty_disk;
    homes = λ b h. r.homes b h ∙ same b h;
    buffers = λ b h. r.buffers b h ∙ same b h;
    area = r.area;
  }

  pub Survives-mono : (d : Disk) → Survives start v d → Survives start w d
  Survives-mono d r = (λ b h. r.0 b h ∙ same b h, r.1)

-- What `read_head` makes of the header block.
abbrev read_header : ℕ → Disk → LogHeader
read_header start d = record { n = d start 0; block = read_blocks (d start) (d start 0) 0 (λ _. 0) }

abbrev fresh : ℕ → Disk → ℕ → Log
fresh start d power = record {
  start = start;
  outstanding = 0;
  committing = false;
  lh = read_header start d;
  disk = d;
  buf = d;
  pins = λ _. 0;
  power = power;
}

read_entries :
    (start : ℕ) (d : Disk) (t : ℕ) → t < d start 0 → (read_header start d).block t ≡ d start (t + 1)
read_entries start d t lt =
    read_blocks_at (d start) (d start 0) 0 t (λ _. 0) (omega arith) (omega arith)

read_header-IsLayout :
    (start : ℕ) (d : Disk) → IsLogDisk start d → IsLayout start (read_header start d)
read_header-IsLayout start d ok = record {
  fits = ok.fits;
  homes = λ t lt. subst (λ b. IsHome start b) (sym (read_entries start d t lt)) (ok.homes t lt);
}

target-meaning :
    (start : ℕ) (d : Disk)
    → SameHomes start
        (λ b. overlay d d start (read_header start d).block (d start 0) b)
        (meaning start d)
target-meaning start d b h =
    overlay_congr d d start (λ i. d start (i + 1)) d d (read_header start d).block (d start 0) b
      (λ _. refl) (λ _ _. refl) (λ t lt. read_entries start d t lt)

-- Recovery brings the home blocks to what the disk stood for, and empties the log. If power fails
-- on the way, the disk still stands for the same, and can be recovered again.
pub initlog-Recovered :
    (start : ℕ) (d : Disk) (power : ℕ)
    → IsLogDisk start d
    → Ends
        (Recovered start (meaning start d))
        (Survives start (meaning start d))
        (initlog start d power)
unfolding initlog recover_from_log read_head
initlog-Recovered start d power ok =
    Ends-mono _ (Recovered start (meaning start d)) _ (Survives start (meaning start d))
      (initlog start d power)
      (install_clear-Recovered start (fresh start d power) refl (read_header-IsLayout start d ok)
        (λ a h. refl) refl (read_entries start d) ok true (λ b h. refl))
      (Recovered-mono start _ (meaning start d) (target-meaning start d))
      (Survives-mono start _ (meaning start d) (target-meaning start d))

-- One attempt at recovery after another, each with the writes that its power allows, until one
-- returns.
unfoldable pub reboots : ℕ → Disk → List ℕ → Run
reboots start d [] = crash d
reboots start d (p ∷ ps) = elim (initlog start d p) [
  | done s ↦ done s
  | panic ↦ panic
  | crash d' ↦ reboots start d' ps
]

-- However often recovery is cut off, the run that completes leaves the contents that the first
-- disk stood for; and until then the disk goes on standing for them.
pub reboots-Recovered :
    (start : ℕ) (d v : Disk) (ps : List ℕ)
    → Survives start v d
    → Ends (Recovered start v) (Survives start v) (reboots start d ps)
unfolding reboots
reboots-Recovered start d v [] h = h
reboots-Recovered start d v (p ∷ ps) h =
    go (initlog start d p) first_try (λ d' k. reboots-Recovered start d' v ps k)
  where
    first_try : Ends (Recovered start v) (Survives start v) (initlog start d p)
    first_try =
        Ends-mono _ _ _ _ (initlog start d p) (initlog-Recovered start d p h.1)
          (Recovered-mono start (meaning start d) v h.0)
          (Survives-mono start (meaning start d) v h.0)

    go :
        (r : Run)
        → Ends (Recovered start v) (Survives start v) r
        → ((d' : Disk)
            → Survives start v d'
            → Ends (Recovered start v) (Survives start v) (reboots start d' ps))
        → Ends
            (Recovered start v)
            (Survives start v)
            (elim r [ done s ↦ done s | panic ↦ panic | crash d' ↦ reboots start d' ps ])
    go (done s) e next = e
    go panic e next = e
    go (crash d') e next = next d' e
