-- ===== src/Examples/Proc.antt =====
-- A table of which slot 3 sleeps on channel 99.
use csci_315_operating_sytem.Prelude.{
  ℕ, ◌<◌, ◌≡◌, ◌⊎◌, refl, arith, Bool, true, false, some, none, [], ◌==◌, ltb, if◌then◌else◌,
}
use csci_315_operating_sytem.Prelude.Fold.{first}
use csci_315_operating_sytem.Proc.Defs.{
  nproc, unused, sleeping, runnable, is_runnable, Proc, Kernel, ok, M,
}
use csci_315_operating_sytem.Proc.Scheduler.{scheduler_pass}
use csci_315_operating_sytem.Proc.Turns.{had_turn, scheduler_pass-turns}
use csci_315_operating_sytem.Proc.Life.{wakeup, kkill}
use csci_315_operating_sytem.Proc.Wakeup.{
  Unlocked, replaced, woken, wakeup-woken, kill_result, kkill-first,
}

abbrev free_slot : Proc
free_slot = record {
  lock = false;
  state = unused;
  chan = 0;
  killed = false;
  xstate = 0;
  pid = 0;
  parent = none;
  kstack = 0;
  sz = 0;
  pagetable = 0;
  trapframe = 0;
  context_ra = 0;
  context_sp = 0;
  ofile = λ _. 0;
  cwd = 0;
  name = [];
}

abbrev sleeper : Proc
sleeper = record free_slot { state = sleeping; chan = 99; pid = 5 }

abbrev one_sleeper : Kernel ℕ
one_sleeper = record {
  proc = λ i. if i == 3 then sleeper else free_slot;
  nextpid = 6;
  pid_lock = false;
  wait_lock = false;
  noff = 0;
  initproc = some 0;
  world = 0;
}

one_sleeper-Unlocked : Unlocked one_sleeper
one_sleeper-Unlocked i = ground arith

wakeup_example :
    wakeup none 99 one_sleeper
    ≡ ok tt (record one_sleeper {
      proc = λ j. if ltb j nproc then woken none 99 j (one_sleeper.proc j) else one_sleeper.proc j;
    })
wakeup_example = wakeup-woken none 99 one_sleeper one_sleeper-Unlocked

kkill_example :
    kkill 5 one_sleeper
    ≡ kill_result 5 one_sleeper (first (λ j. (one_sleeper.proc j).pid == 5) nproc 0)
kkill_example = kkill-first 5 one_sleeper one_sleeper-Unlocked

-- Slot 2 can run, and yields.
abbrev one_runnable : Kernel ℕ
one_runnable = record one_sleeper {
  proc = λ i. if i == 2 then record free_slot { state = runnable; pid = 4 } else one_sleeper.proc i;
}

one_runnable-Unlocked : Unlocked one_runnable
one_runnable-Unlocked i = ground arith

abbrev yields : ℕ → Proc → Proc
yields i p = record p { state = runnable }

abbrev yield_turn : ℕ → M ℕ (Unit {0})
yield_turn i k = ok tt (replaced i k (record (k.proc i) { state = runnable; lock = true }))

scheduler_pass_example :
    (b : Bool) × (scheduler_pass yield_turn one_runnable
      ≡ ok b (record one_runnable {
        proc = λ j.
            if ltb j nproc then had_turn yields j (one_runnable.proc j) else one_runnable.proc j;
      }))
    × (((b ≡ true) × (j : ℕ) × (j < nproc) × (is_runnable (one_runnable.proc j).state ≡ true))
        ⊎ ((b ≡ false) × ((j : ℕ) → j < nproc → is_runnable (one_runnable.proc j).state ≡ false)))
scheduler_pass_example =
    scheduler_pass-turns yield_turn yields (λ i k l r. refl) one_runnable one_runnable-Unlocked
