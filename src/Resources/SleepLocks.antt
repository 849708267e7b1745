-- ===== src/Resources/SleepLocks.antt =====
-- kernel/sleeplock.c: a lock on which processes sleep. Each function runs under the lock's spin lock;
-- a process that sleeps in `acquiresleep` tests the lock again when it is woken.
use csci_315_operating_sytem.Prelude.{
  ℕ, ◌≡◌, ◌↔◌, refl, arith, Bool, true, false, ◌&&◌, Option, none, some, ◌==◌, if◌then◌else◌, inl,
  inr, Bool-cases,
}

-- `struct sleeplock`.
pub record SleepLock : Type 0 where
  pub locked : Bool
  pub pid : ℕ

unfoldable pub initsleeplock : SleepLock
initsleeplock = record { locked = false; pid = 0 }

-- `none` for a pass of the loop that sleeps.
unfoldable pub acquiresleep : ℕ → SleepLock → Option SleepLock
acquiresleep me lk = if lk.locked then none else some (record { locked = true; pid = me })

unfoldable pub releasesleep : SleepLock → SleepLock
releasesleep lk = record { locked = false; pid = 0 }

unfoldable pub holdingsleep : ℕ → SleepLock → Bool
holdingsleep me lk = lk.locked && (lk.pid == me)

-- Runs of the lock from `initsleeplock` on, with the process that holds it: one acquires it, or the
-- holder releases it.
pub data Reaches : SleepLock → Option ℕ → Type 0 where
  starts : Reaches initsleeplock none
  acquires :
      {lk next : SleepLock} {holder : Option ℕ} (me : ℕ)
      → Reaches lk holder
      → acquiresleep me lk ≡ some next
      → Reaches next (some me)
  releases : {lk : SleepLock} {me : ℕ} → Reaches lk (some me) → Reaches (releasesleep lk) none

abbrev Agrees : SleepLock → Option ℕ → Type 0
Agrees lk none = lk.locked ≡ false
Agrees lk (some p) = (lk.locked ≡ true) × (lk.pid ≡ p)

Reaches-Agrees : (lk : SleepLock) (holder : Option ℕ) → Reaches lk holder → Agrees lk holder
unfolding initsleeplock acquiresleep releasesleep
Reaches-Agrees lk holder starts = refl
Reaches-Agrees lk holder (acquires {lk = l} {next = next} me r e) = elim (Bool-cases l.locked) [
  | inl taken ↦ absurd (let bad : none ≡ some next = rw taken at e in cc)
  | inr free ↦
      (let same : some (record { locked = true; pid = me }) ≡ some next = rw free at e in
        (ground (arith, same), ground (arith, same)))
]
Reaches-Agrees lk holder (releases r) = refl

-- What the two tests answer under each holder.
abbrev AnswersFor : ℕ → SleepLock → Option ℕ → Type 0
AnswersFor me lk holder =
    ((holdingsleep me lk ≡ true) ↔ (holder ≡ some me))
    × ((acquiresleep me lk ≡ none) ↔ ((p : ℕ) × (holder ≡ some p)))

Agrees-AnswersFor :
    (me : ℕ) (lk : SleepLock) (holder : Option ℕ) → Agrees lk holder → AnswersFor me lk holder
unfolding holdingsleep acquiresleep
Agrees-AnswersFor me lk none free = (
  (λ e. absurd (ground (arith, free)), λ e. absurd (cc (e))),
  (λ e. absurd (ground (arith, free)), λ x. (let (p, e) = x in absurd (cc (e)))),
)
Agrees-AnswersFor me lk (some p) (held, mine) =
    ((λ e. ground arith, λ e. ground arith), (λ e. (p, refl), λ x. ground arith))

-- In every run, `holdingsleep` answers for the process that acquired the lock and has not released it,
-- and for no other; and a pass of `acquiresleep` sleeps exactly when a process holds the lock.
pub Reaches-AnswersFor :
    (me : ℕ) (lk : SleepLock) (holder : Option ℕ)
    → Reaches lk holder
    → ((holdingsleep me lk ≡ true) ↔ (holder ≡ some me))
      × ((acquiresleep me lk ≡ none) ↔ ((p : ℕ) × (holder ≡ some p)))
Reaches-AnswersFor me lk holder r = Agrees-AnswersFor me lk holder (Reaches-Agrees lk holder r)
