-- ===== src/Examples/Log.antt =====
-- A log at block 2 with two home blocks of a transaction, 0 and 40.
use csci_315_operating_sytem.Prelude.{
  ◌≡◌, refl, arith, true, false, inl, inr, ◌==◌, Bool-cases, if◌then◌else◌, [], ◌∷◌,
}
use csci_315_operating_sytem.Log.Defs.{
  Disk, Log, LogHeader, commit, initlog, done, log_write, begin_op, enters,
}
use csci_315_operating_sytem.Log.Overlay.{logged, meaning}
use csci_315_operating_sytem.Log.Outcome.{Ends}
use csci_315_operating_sytem.Log.Install.{IsLayout}
use csci_315_operating_sytem.Log.Recover.{
  IsLogDisk, Recovered, Survives, initlog-Recovered, reboots, reboots-Recovered,
}
use csci_315_operating_sytem.Log.Commit.{Ready, AllOrNothing, commit-AllOrNothing}
use csci_315_operating_sytem.Log.Crash.{OldOrNew, commit_and_reboot, commit_and_reboot-OldOrNew}
use csci_315_operating_sytem.Log.Write.{modify, Logs}
use csci_315_operating_sytem.Log.Reserve.{begins, IsSound, log_write_returns, OpStep-IsSound}

abbrev two_blocks : LogHeader
two_blocks = record { n = 2; block = λ i. if i == 0 then 0 else 40 }

abbrev blank : Disk
blank _ _ = 0

-- Two changed buffers; the power lasts for three writes.
abbrev transaction : Log
transaction = record {
  start = 2;
  outstanding = 0;
  committing = true;
  lh = two_blocks;
  disk = blank;
  buf = λ b. if b == 0 then (λ _. 7) else (if b == 40 then (λ _. 8) else (λ _. 0));
  pins = λ _. 1;
  power = 3;
}

two_blocks-IsLayout : IsLayout 2 two_blocks
two_blocks-IsLayout = record {
  fits = omega arith;
  homes = λ t lt. elim (Bool-cases (t == 0)) [
    | inl e ↦ rw e (inl (omega arith))
    | inr e ↦ rw e (inr (omega arith))
  ];
}

transaction-Ready : Ready 2 transaction
unfolding logged
transaction-Ready = record {
  at_start = refl;
  layout = two_blocks-IsLayout;
  empty_disk = refl;
  clean = λ b e. ground arith;
}

blank-IsLogDisk : IsLogDisk 2 blank
blank-IsLogDisk = record { fits = omega arith; homes = λ t lt. absurd (omega arith) }

commit_and_reboot_example :
    Ends
      (OldOrNew 2 transaction (1 ∷ 9 ∷ []))
      (AllOrNothing 2 transaction)
      (commit_and_reboot 2 (1 ∷ 9 ∷ []) transaction)
commit_and_reboot_example = commit_and_reboot-OldOrNew 2 transaction (1 ∷ 9 ∷ []) transaction-Ready

commit_example :
    Ends (Recovered 2 transaction.buf) (AllOrNothing 2 transaction) (commit transaction)
commit_example = commit-AllOrNothing 2 transaction transaction-Ready

-- A disk whose log holds block 40.
abbrev one_logged : Disk
one_logged b =
    if b == 2 then (λ w. if w == 0 then 1 else 40) else (if b == 3 then (λ _. 9) else (λ _. 0))

one_logged-IsLogDisk : IsLogDisk 2 one_logged
one_logged-IsLogDisk = record { fits = omega arith; homes = λ t lt. inr (ground arith) }

initlog_example :
    Ends
      (Recovered 2 (meaning 2 one_logged))
      (Survives 2 (meaning 2 one_logged))
      (initlog 2 one_logged 5)
initlog_example = initlog-Recovered 2 one_logged 5 one_logged-IsLogDisk

reboots_example :
    Ends
      (Recovered 2 (meaning 2 one_logged))
      (Survives 2 (meaning 2 one_logged))
      (reboots 2 one_logged (0 ∷ 1 ∷ 5 ∷ []))
reboots_example =
    reboots-Recovered 2 one_logged (meaning 2 one_logged) (0 ∷ 1 ∷ 5 ∷ [])
      ((λ b h. refl), one_logged-IsLogDisk)

-- One open operation that has logged nothing.
abbrev one_open : Log
one_open = record {
  start = 2;
  outstanding = 1;
  committing = false;
  lh = record { n = 0; block = λ _. 0 };
  disk = blank;
  buf = blank;
  pins = λ _. 0;
  power = 9;
}

one_open-IsSound : IsSound 2 one_open (0 ∷ [])
one_open-IsSound = record {
  ready = record {
    at_start = refl;
    layout = record { fits = omega arith; homes = λ t lt. absurd (omega arith) };
    empty_disk = refl;
    clean = λ b e. refl;
  };
  open_ops = refl;
  space = omega arith;
  idle = refl;
}

log_write_example :
    (t : Log) × (log_write 40 (modify 40 (λ _. 5) one_open) ≡ done t)
    × Logs 40 (modify 40 (λ _. 5) one_open) t
log_write_example =
    log_write_returns 2 one_open (0 ∷ []) 0 40 (λ _. 5) one_open-IsSound (omega arith)

-- A second operation begins.
abbrev two_open : Log
two_open = record one_open { outstanding = 2 }

two_open_begins : begin_op one_open ≡ enters two_open
unfolding begin_op
two_open_begins = refl

OpStep_example : IsSound 2 two_open (0 ∷ 0 ∷ [])
OpStep_example = OpStep-IsSound 2 one_open-IsSound (begins two_open_begins)
