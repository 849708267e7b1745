-- ===== src/Log/Install.antt =====
-- `install_trans`: the committed blocks reach their homes, and a power failure on the way loses none.
use csci_315_operating_sytem.Prelude.{
  ℕ, zero, suc, ◌+◌, ◌<◌, ◌≤◌, ◌≡◌, ◌≢◌, arith, Bool, true, false, if◌then◌else◌, update, ◌∙◌, ap,
  sym, subst,
}
use csci_315_operating_sytem.Log.Defs.{
  Disk, Log, LogHeader, log_blocks, bwrite, bunpin, copy_block, install_block, install_loop,
  install_trans,
}
use csci_315_operating_sytem.Log.Overlay.{IsHome, overlay, overlay_congr, overlay_again, meaning}
use csci_315_operating_sytem.Log.Outcome.{Ends, Ends-bind, Ends-bwrite, written}

-- A log header whose entries name home blocks and fit the log.
pub record IsLayout (start : ℕ) (lh : LogHeader) : Type 0 where
  pub fits : lh.n ≤ log_blocks
  pub homes : (t : ℕ) → t < lh.n → IsHome start (lh.block t)

-- Log area: the header block and the blocks behind it.
abbrev pub InArea : ℕ → ℕ → Type 0
InArea start a = (start ≤ a) × (a ≤ start + log_blocks)

pub home-ne-area : (start b a : ℕ) → IsHome start b → InArea start a → b ≢ a
home-ne-area start b a h i = ground arith

module _ (start : ℕ) (lh : LogHeader) (b0 d0 : Disk) where
  -- The first `k` entries are installed.
  pub record Installed (k : ℕ) (s : Log) : Type 0 where
    pub at_start : s.start ≡ start
    pub header : s.lh ≡ lh
    pub disk_home : (b : ℕ) → IsHome start b → s.disk b ≡ overlay d0 d0 start lh.block k b
    pub disk_area : (a : ℕ) → InArea start a → s.disk a ≡ d0 a
    pub buf_home : (b : ℕ) → IsHome start b → s.buf b ≡ overlay b0 d0 start lh.block k b
    pub buf_area : (a : ℕ) → InArea start a → s.buf a ≡ b0 a

  -- The disk of a run that is cut off.
  pub record Partial (k : ℕ) (d : Disk) : Type 0 where
    pub home : (b : ℕ) → IsHome start b → d b ≡ overlay d0 d0 start lh.block k b
    pub area : (a : ℕ) → InArea start a → d a ≡ d0 a

  abbrev pub Cut : Disk → Type 0
  Cut d = (k : ℕ) × (k ≤ lh.n) × Partial k d

  module _ (ok : IsLayout start lh) (clean : (a : ℕ) → InArea start a → b0 a ≡ d0 a) where
    -- What the state is after the write of one round.
    abbrev installed : ℕ → Log → Log
    installed k s = written (s.lh.block k) (copy_block (s.lh.block k) (s.start + k + 1) s)

    installed-Installed :
        (k : ℕ) (s : Log) → k < lh.n → Installed k s → Installed (suc k) (installed k s)
    unfolding copy_block overlay update
    installed-Installed k s lt i = record {
      at_start = i.at_start;
      header = i.header;
      disk_home = λ b h. ground (arith, i.disk_home b h, e, src);
      disk_area = λ a h.
          ground (arith, i.disk_area a h, e, home-ne-area start (lh.block k) a (ok.homes k lt) h);
      buf_home = λ b h. ground (arith, i.buf_home b h, e, src);
      buf_area = λ a h.
          ground (arith, i.buf_area a h, e, home-ne-area start (lh.block k) a (ok.homes k lt) h);
    }
      where
        e : s.lh.block k ≡ lh.block k
        e = ap (λ (l : LogHeader). l.block k) i.header

        fits : lh.n ≤ log_blocks
        fits = ok.fits

        in_area : InArea start (start + k + 1)
        in_area = (omega arith, omega (arith, fits))

        src : s.buf (s.start + k + 1) ≡ d0 (start + k + 1)
        src =
            ap (λ (n : ℕ). s.buf (n + k + 1)) i.at_start
            ∙ i.buf_area (start + k + 1) in_area
            ∙ clean (start + k + 1) in_area

    -- The call of `bunpin` touches no disk block and no buffer.
    unpin-Installed :
        (recovering : Bool) (k b : ℕ) (s : Log)
        → Installed k s
        → Installed k (if recovering then s else bunpin b s)
    unfolding bunpin
    unpin-Installed true k b s i = i
    unpin-Installed false k b s i = record {
      at_start = i.at_start;
      header = i.header;
      disk_home = i.disk_home;
      disk_area = i.disk_area;
      buf_home = i.buf_home;
      buf_area = i.buf_area;
    }

    Cut-Installed : (k : ℕ) (s : Log) → k ≤ lh.n → Installed k s → Cut s.disk
    Cut-Installed k s le i = (k, le, record { home = i.disk_home; area = i.disk_area })

    install_block-Installed :
        (recovering : Bool) (k : ℕ) (s : Log)
        → k < lh.n
        → Installed k s
        → Ends (Installed (suc k)) Cut (install_block recovering k s)
    unfolding install_block
    install_block-Installed recovering k s lt i =
        Ends-bind (Installed (suc k)) (Installed (suc k)) Cut
          (bwrite (s.lh.block k) (copy_block (s.lh.block k) (s.start + k + 1) s)) _
          (Ends-bwrite (Installed (suc k)) Cut (s.lh.block k)
            (copy_block (s.lh.block k) (s.start + k + 1) s)
            (unfold copy_block in (Cut-Installed k s (omega arith) i))
            (installed-Installed k s lt i))
          (λ t j. unpin-Installed recovering (suc k) (t.lh.block k) t j)

    install_loop-Installed :
        (recovering : Bool) (k rounds : ℕ) (s : Log)
        → k + rounds ≡ lh.n
        → Installed k s
        → Ends (Installed lh.n) Cut (install_loop recovering rounds k s)
    unfolding install_loop
    install_loop-Installed recovering k zero s e i =
        subst (λ (j : ℕ). Installed j s) (omega arith) i
    install_loop-Installed recovering k (suc r) s e i =
        Ends-bind (Installed (suc k)) (Installed lh.n) Cut (install_block recovering k s) _
          (install_block-Installed recovering k s (omega arith) i)
          (λ t j.
            (let e' : k + 1 ≡ suc k = omega arith in
              rw e' (install_loop-Installed recovering (suc k) r t (omega arith) j)))

    -- Whenever power fails, the disk holds the log and a part of the installed blocks; if it does
    -- not, every block is installed.
    pub install_trans-Installed :
        (recovering : Bool) (s : Log)
        → Installed 0 s
        → Ends (Installed lh.n) Cut (install_trans recovering s)
    unfolding install_trans
    install_trans-Installed recovering s i =
        install_loop-Installed recovering 0 s.lh.n s
          (omega (arith, ap (λ (l : LogHeader). l.n) i.header)) i

    -- A disk that was cut off still stands for what it stood for.
    pub Cut-meaning :
        (d : Disk)
        → Cut d
        → lh.n ≡ d0 start 0
        → ((t : ℕ) → t < lh.n → lh.block t ≡ d0 start (t + 1))
        → (b : ℕ) → IsHome start b
        → meaning start d b ≡ overlay d0 d0 start lh.block lh.n b
    Cut-meaning d (k, le, p) en eb b h =
        rw (head_eq, ← en)
          (overlay_congr d0 d0 start lh.block d d (λ t. d0 start (t + 1)) lh.n b
            (overlay_again d0 d0 start lh.block k lh.n b d le (p.home b h))
            (λ t lt. p.area (start + t + 1) (omega arith, omega (arith, ok.fits)))
            (λ t lt. sym (eb t lt)))
      where
        head_eq : d start ≡ d0 start
        head_eq = p.area start (omega arith, omega arith)
