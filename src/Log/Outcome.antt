-- ===== src/Log/Outcome.antt =====
-- What may be said of a run: it does not panic, and `P` holds if it returns, `Q` of the disk if not.
use csci_315_operating_sytem.Prelude.{ℕ, ◌-◌, inl, inr, ◌==◌, Bool-cases, update}
use csci_315_operating_sytem.Log.Defs.{Disk, Log, Run, done, panic, crash, ◌>>◌, bwrite}

abbrev pub Ends : (Log → Type 0) → (Disk → Type 0) → Run → Type 0
Ends P Q (done s) = P s
Ends P Q panic = ⊥
Ends P Q (crash d) = Q d

pub Ends-bind :
    (P P' : Log → Type 0) (Q : Disk → Type 0) (r : Run) (k : Log → Run)
    → Ends P Q r
    → ((s : Log) → P s → Ends P' Q (k s))
    → Ends P' Q (r >> k)
Ends-bind P P' Q (done s) k h next = next s h
Ends-bind P P' Q panic k h next = h
Ends-bind P P' Q (crash d) k h next = h

pub Ends-mono :
    (P P' : Log → Type 0) (Q Q' : Disk → Type 0) (r : Run)
    → Ends P Q r
    → ((s : Log) → P s → P' s)
    → ((d : Disk) → Q d → Q' d)
    → Ends P' Q' r
Ends-mono P P' Q Q' (done s) h f g = f s h
Ends-mono P P' Q Q' panic h f g = h
Ends-mono P P' Q Q' (crash d) h f g = g d h

-- The record that a completed `bwrite` returns.
abbrev pub written : ℕ → Log → Log
written b s = record s { disk = update s.disk b (s.buf b); power = s.power - 1 }

pub Ends-bwrite :
    (P : Log → Type 0) (Q : Disk → Type 0) (b : ℕ) (s : Log)
    → Q s.disk
    → P (written b s)
    → Ends P Q (bwrite b s)
unfolding bwrite
Ends-bwrite P Q b s q p = elim (Bool-cases (s.power == 0)) [ inl out ↦ rw out q | inr on ↦ rw on p ]
