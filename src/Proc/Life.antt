-- ===== src/Proc/Life.antt =====
-- proc.c: `wakeup`, `kkill`, `killed`, `setkilled`, `reparent`, `kexit` and `kwait`.
use csci_315_operating_sytem.Prelude.{
  ℕ, zero, suc, ◌+◌, Bool, true, false, ◌&&◌, ◌||◌, not, Option, none, some, ◌==◌, if◌then◌else◌,
  update,
}
use csci_315_operating_sytem.Proc.Defs.{
  nproc, nofile, runnable, sleeping, zombie, is_sleeping, is_running, is_zombie, Proc, ok, panic, M,
  pure, ◌>>=◌, ◌>>◌, get, put, call, run, acquire, release, acquire_wait_lock, release_wait_lock,
}
use csci_315_operating_sytem.Proc.Services.{Services}
use csci_315_operating_sytem.Proc.Alloc.{freeproc}

-- `p == q` on pointers into the table, where null is `none`.
unfoldable pub same_ptr : Option ℕ → Option ℕ → Bool
same_ptr none none = true
same_ptr none (some b) = false
same_ptr (some a) none = false
same_ptr (some a) (some b) = a == b

-- The victim in `kkill`: killed, and awake.
abbrev pub killed_proc : Proc → Proc
killed_proc p = record p {
  killed = true;
  state = if is_sleeping p.state then runnable else p.state;
}

module _ {W : Type 0} where
  -- One round of `wakeup`. `me` is `myproc()`, null on a CPU that runs no process.
  unfoldable pub wakeup_one : Option ℕ → (chan i : ℕ) → M W (Unit {0})
  unfolding get put
  wakeup_one me chan i = if same_ptr (some i) me then pure tt else do
    acquire i
    p ← get i
    (if is_sleeping p.state && (p.chan == chan)
        then put i (record p { state = runnable })
        else pure tt)
    release i

  unfoldable pub wakeup_loop : Option ℕ → (chan rounds i : ℕ) → M W (Unit {0})
  wakeup_loop me chan zero i = pure tt
  wakeup_loop me chan (suc n) i = do wakeup_one me chan i; wakeup_loop me chan n (i + 1)

  unfoldable pub wakeup : Option ℕ → ℕ → M W (Unit {0})
  wakeup me chan = wakeup_loop me chan nproc 0

  unfoldable pub kill_loop : (pid rounds i : ℕ) → M W Bool
  unfolding get put
  kill_loop pid zero i = pure false
  kill_loop pid (suc n) i = do
    acquire i
    p ← get i
    if p.pid == pid
        then (do put i (killed_proc p); release i; pure true)
        else do release i; kill_loop pid n (i + 1)

  -- 0 is `true`, -1 is `false`.
  unfoldable pub kkill : ℕ → M W Bool
  kkill pid = kill_loop pid nproc 0

  unfoldable pub setkilled : ℕ → M W (Unit {0})
  unfolding get put
  setkilled i = do acquire i; p ← get i; put i (record p { killed = true }); release i

  unfoldable pub killed : ℕ → M W Bool
  unfolding get
  killed i = do acquire i; p ← get i; release i; pure p.killed

  -- `addr i` is the address of slot `i`, which serves as a channel to sleep on.
  unfoldable pub reparent_loop : (me : ℕ) (addr : ℕ → ℕ) (rounds i : ℕ) → M W (Unit {0})
  unfolding get put
  reparent_loop me addr zero i = pure tt
  reparent_loop me addr (suc n) i = do
    p ← get i
    (if same_ptr p.parent (some me)
        then (λ k.
            (do
              put i (record p { parent = k.initproc })
              wakeup (some me) (elim k.initproc [ none ↦ 0 | some j ↦ addr j ]))
              k)
        else pure tt)
    reparent_loop me addr n (i + 1)

  unfoldable pub reparent : (me : ℕ) (addr : ℕ → ℕ) → M W (Unit {0})
  reparent me addr = reparent_loop me addr nproc 0

  -- Up to the switch to the scheduler: the tests of `sched`.
  unfoldable pub sched : ℕ → M W (Unit {0})
  sched me k =
      if not (k.proc me).lock
      then panic
      else (if not (k.noff == 1)
          then panic
          else (if is_running (k.proc me).state then panic else ok tt k))

  -- `sleep(chan, &wait_lock)` up to the switch, after which the process is off the CPU.
  unfoldable pub sleep_wait : (me chan : ℕ) → M W (Unit {0})
  unfolding get put
  sleep_wait me chan = do
    acquire me
    release_wait_lock
    p ← get me
    put me (record p { chan = chan; state = sleeping })
    sched me

  unfoldable pub yield : ℕ → M W (Unit {0})
  unfolding get put
  yield me = do acquire me; p ← get me; put me (record p { state = runnable }); sched me

-- What a pass of the loop in `kwait` comes to.
pub data Waited : Type 0 where
  reaped : ℕ → Waited
  failed : Waited
  asleep : Waited

module _ {W : Type 0} (os : Services W) where
  unfoldable pub close_files : (me rounds fd : ℕ) → M W (Unit {0})
  unfolding get put run
  close_files me zero fd = pure tt
  close_files me (suc n) fd = do
    p ← get me
    (if p.ofile fd == 0 then pure tt else do
      run (os.fileclose (p.ofile fd))
      q ← get me
      put me (record q { ofile = update q.ofile fd 0 }))
    close_files me n (fd + 1)

  -- `kexit`, up to the switch from which the process does not come back.
  unfoldable pub kexit : (me status : ℕ) (addr : ℕ → ℕ) → M W (Unit {0})
  unfolding get put run
  kexit me status addr k =
      if same_ptr (some me) k.initproc
      then panic
      else (do
        close_files me nofile 0
        run os.begin_op
        p ← get me
        run (os.iput p.cwd)
        run os.end_op
        put me (record p { cwd = 0 })
        acquire_wait_lock
        reparent me addr
        q ← get me
        wakeup (some me) (elim q.parent [ none ↦ 0 | some j ↦ addr j ])
        acquire me
        r ← get me
        put me (record r { xstate = status; state = zombie })
        release_wait_lock
        sched me)
          k

  -- A zombie child, locked: its exit status is copied out, unless `addr` is null, and it is freed.
  unfoldable pub reap : (me addr i : ℕ) → M W Waited
  unfolding get call
  reap me addr i = do
    p ← get i
    me' ← get me
    copied ← (if addr == 0 then pure true else call (os.copyout_int me'.pagetable addr p.xstate))
    if not copied
        then (do release i; release_wait_lock; pure failed)
        else do freeproc os i; release i; release_wait_lock; pure (reaped p.pid)

  -- The scan for a zombie child, from `i` on; `havekids` says whether one was seen.
  unfoldable pub wait_loop :
      (me addr : ℕ) (wait_chan : ℕ) (havekids : Bool) (rounds i : ℕ) → M W Waited
  unfolding get
  wait_loop me addr wait_chan havekids zero i = do
    dead ← killed me
    if not havekids || dead
        then (do release_wait_lock; pure failed)
        else do sleep_wait me wait_chan; pure asleep
  wait_loop me addr wait_chan havekids (suc n) i = do
    p ← get i
    if same_ptr p.parent (some me)
        then (do
          acquire i
          q ← get i
          if is_zombie q.state
              then reap me addr i
              else do release i; wait_loop me addr wait_chan true n (i + 1))
        else wait_loop me addr wait_chan havekids n (i + 1)

  -- `kwait` until it returns or goes to sleep; one that is woken runs the scan again.
  unfoldable pub kwait : (me addr wait_chan : ℕ) → M W Waited
  kwait me addr wait_chan = do acquire_wait_lock; wait_loop me addr wait_chan false nproc 0
