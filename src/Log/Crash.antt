-- ===== src/Log/Crash.antt =====
-- A commit, the power failure that may cut it off, and the recoveries that follow.
use csci_315_operating_sytem.Prelude.{ℕ, ◌⊎◌, inl, inr, List}
use csci_315_operating_sytem.Log.Defs.{Disk, Log, Run, done, panic, crash, commit}
use csci_315_operating_sytem.Log.Outcome.{Ends, Ends-mono}
use csci_315_operating_sytem.Log.Recover.{Recovered, reboots, reboots-Recovered}
use csci_315_operating_sytem.Log.Commit.{Ready, AllOrNothing, commit-AllOrNothing}

-- `commit`, and after a power failure one recovery for each entry of `ps`, until one completes.
unfoldable pub commit_and_reboot : ℕ → List ℕ → Log → Run
commit_and_reboot start ps s = elim (commit s) [
  | done t ↦ done t
  | panic ↦ panic
  | crash d ↦ reboots start d ps
]

module _ (start : ℕ) (s : Log) (ps : List ℕ) where
  abbrev pub OldOrNew : Log → Type 0
  OldOrNew t = Recovered start s.disk t ⊎ Recovered start s.buf t

  after_crash :
      (d : Disk)
      → AllOrNothing start s d
      → Ends OldOrNew (AllOrNothing start s) (reboots start d ps)
  after_crash d (inl old) =
      Ends-mono _ OldOrNew _ (AllOrNothing start s) (reboots start d ps)
        (reboots-Recovered start d s.disk ps old) (λ t r. inl r) (λ e v. inl v)
  after_crash d (inr new) =
      Ends-mono _ OldOrNew _ (AllOrNothing start s) (reboots start d ps)
        (reboots-Recovered start d s.buf ps new) (λ t r. inr r) (λ e v. inr v)

  -- After a commit that was cut off at any write, and recoveries that were cut off at any write, the
  -- recovery that completes has all home blocks as before the transaction or all as after it, and no
  -- call panics.
  pub commit_and_reboot-OldOrNew :
      Ready start s → Ends OldOrNew (AllOrNothing start s) (commit_and_reboot start ps s)
  unfolding commit_and_reboot
  commit_and_reboot-OldOrNew ready = go (commit s) (commit-AllOrNothing start s ready)
    where
      go :
          (r : Run)
          → Ends (Recovered start s.buf) (AllOrNothing start s) r
          → Ends OldOrNew
              (AllOrNothing start s)
              (elim r [ done t ↦ done t | panic ↦ panic | crash d ↦ reboots start d ps ])
      go (done t) e = inr e
      go panic e = e
      go (crash d) e = after_crash d e
