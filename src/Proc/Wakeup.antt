-- ===== src/Proc/Wakeup.antt =====
-- About `wakeup` and `kkill` of kernel/proc.c, whose loops go over the whole table.
use csci_315_operating_sytem.Prelude.{
  ℕ, zero, suc, ◌+◌, ◌≡◌, refl, arith, Bool, true, false, ◌&&◌, Option, none, some, ◌==◌, ltb,
  update_self, leb, if◌then◌else◌, update, inl, inr, Bool-cases, fun_ext, ap, ◌∙◌,
}
use csci_315_operating_sytem.Prelude.Fold.{first}
use csci_315_operating_sytem.Proc.Defs.{
  nproc, ProcState, unused, used, sleeping, runnable, running, zombie, is_sleeping, Proc, Kernel,
  Run, ok, acquire, release,
}
use csci_315_operating_sytem.Proc.Life.{
  same_ptr, wakeup_one, wakeup_loop, wakeup, killed_proc, kill_loop, kkill,
}

-- No slot of the table is locked.
abbrev pub Unlocked : {W : Type 0} → Kernel W → Type 0
Unlocked k = (i : ℕ) → (k.proc i).lock ≡ false

-- What a slot becomes when `chan` is woken by `me`.
unfoldable pub woken : Option ℕ → (chan i : ℕ) → Proc → Proc
woken me chan i p =
    if same_ptr (some i) me
    then p
    else (if is_sleeping p.state && (p.chan == chan) then record p { state = runnable } else p)

pub update_same : (f : ℕ → Proc) (i : ℕ) → update f i (f i) ≡ f
unfolding update
update_same f i = fun_ext (λ j. ground arith)

pub update-update : (f : ℕ → Proc) (i : ℕ) (p q : Proc) → update (update f i p) i q ≡ update f i q
unfolding update
update-update f i p q = fun_ext (λ j. ground arith)

-- The kernel with slot `i` replaced.
abbrev pub replaced : {W : Type 0} → ℕ → Kernel W → Proc → Kernel W
replaced i k p = record k { proc = update k.proc i p }

module _ {W : Type 0} (i : ℕ) (k : Kernel W) (free : (k.proc i).lock ≡ false) where
  abbrev pub locked : Kernel W
  locked = record k {
    proc = update k.proc i (record (k.proc i) { lock = true });
    noff = k.noff + 1;
  }

  pub acquire-ok : acquire i k ≡ ok tt locked
  unfolding acquire
  acquire-ok = rw free

  pub slot-locked : locked.proc i ≡ record (k.proc i) { lock = true }
  slot-locked = update_self k.proc i (record (k.proc i) { lock = true })

  -- Releasing a slot that was changed under its lock.
  pub release-ok :
      (p : Proc)
      → release i (record locked { proc = update locked.proc i (record p { lock = true }) })
        ≡ ok tt (replaced i k (record p { lock = false }))
  unfolding release
  release-ok p =
      let got = update_self locked.proc i (record p { lock = true }) in
      ground (
        arith,
        got,
        update-update locked.proc i (record p { lock = true }) (record p { lock = false }),
        update-update k.proc i (record (k.proc i) { lock = true }) (record p { lock = false }),
      )

  -- Releasing a slot that was not changed.
  pub release-unchanged : release i locked ≡ ok tt k
  unfolding release
  release-unchanged = ground (
    arith,
    slot-locked,
    update-update k.proc i (record (k.proc i) { lock = true }) (k.proc i),
    update_same k.proc i,
  )

  wakeup_one_lem :
      (me : Option ℕ) (chan : ℕ)
      → wakeup_one me chan i k ≡ ok tt (replaced i k (woken me chan i (k.proc i)))
  unfolding wakeup_one woken
  wakeup_one_lem me chan = elim (Bool-cases (same_ptr (some i) me)) [
    | inl mine ↦ rw mine (ground (arith, update_same k.proc i))
    | inr other ↦
        rw (other, acquire-ok, slot-locked)
          (elim (Bool-cases (is_sleeping (k.proc i).state && ((k.proc i).chan == chan))) [
            | inl wakes ↦
                rw wakes (ground (arith, release-ok (record (k.proc i) { state = runnable })))
            | inr sleeps_on ↦ rw sleeps_on (ground (arith, release-unchanged, update_same k.proc i))
          ])
  ]

woken-lock : (me : Option ℕ) (chan i : ℕ) (p : Proc) → (woken me chan i p).lock ≡ p.lock
unfolding woken
woken-lock me chan i p = ground arith

-- The table with slots `i .. i + n` replaced by what `f` makes of them.
abbrev pub over : (ℕ → Proc → Proc) → (n i : ℕ) → (ℕ → Proc) → ℕ → Proc
over f n i t j = if leb i j && ltb j (i + n) then f j (t j) else t j

pub over-zero : (f : ℕ → Proc → Proc) (i : ℕ) (t : ℕ → Proc) → over f 0 i t ≡ t
over-zero f i t = fun_ext (λ j. ground arith)

pub over-suc :
    (f : ℕ → Proc → Proc) (n i : ℕ) (t : ℕ → Proc)
    → over f n (i + 1) (update t i (f i (t i))) ≡ over f (suc n) i t
unfolding update
over-suc f n i t = fun_ext (λ j. ground arith)

-- The state of a process that no longer sleeps.
abbrev pub awake : ProcState → ProcState
awake sleeping = runnable
awake unused = unused
awake used = used
awake runnable = runnable
awake running = running
awake zombie = zombie

awake_lem : (x : ProcState) → (if is_sleeping x then runnable else x) ≡ awake x
awake_lem sleeping = refl
awake_lem unused = refl
awake_lem used = refl
awake_lem runnable = refl
awake_lem running = refl
awake_lem zombie = refl

abbrev has_pid : ℕ → (ℕ → Proc) → ℕ → Bool
has_pid pid t j = (t j).pid == pid

module _ {W : Type 0} where
  wakeup_loop_lem :
      (me : Option ℕ) (chan n i : ℕ) (k : Kernel W)
      → Unlocked k
      → wakeup_loop me chan n i k ≡ ok tt (record k { proc = over (woken me chan) n i k.proc })
  unfolding wakeup_loop
  wakeup_loop_lem me chan zero i k free = rw (over-zero (woken me chan) i k.proc)
  wakeup_loop_lem me chan (suc n) i k free = rw (wakeup_one_lem i k (free i) me chan) (
      wakeup_loop_lem me chan n (i + 1) (replaced i k (woken me chan i (k.proc i))) still
      ∙ ap (λ t. ok tt (record k { proc = t })) (over-suc (woken me chan) n i k.proc))
    where
      still : Unlocked (replaced i k (woken me chan i (k.proc i)))
      still j = unfold update in (ground (arith, free j, woken-lock me chan i (k.proc i)))

  -- `wakeup(chan)` makes runnable every sleeper on `chan` but the caller, changes nothing else, and
  -- leaves no lock held.
  pub wakeup-woken :
      (me : Option ℕ) (chan : ℕ) (k : Kernel W)
      → Unlocked k
      → wakeup me chan k
        ≡ ok tt
            (record k { proc = λ j. if ltb j nproc then woken me chan j (k.proc j) else k.proc j })
  unfolding wakeup
  wakeup-woken me chan k free =
      wakeup_loop_lem me chan nproc 0 k free
      ∙ ap (λ t. ok tt (record k { proc = t })) (fun_ext (λ j. ground arith))

  -- What `kkill` comes to, from the first slot with the pid.
  abbrev pub kill_result : ℕ → Kernel W → Option ℕ → Run W Bool
  kill_result pid k none = ok false k
  kill_result pid k (some j) =
      ok true (replaced j k (record (k.proc j) { killed = true; state = awake (k.proc j).state }))

  kill_loop_lem :
      (pid n i : ℕ) (k : Kernel W)
      → Unlocked k
      → kill_loop pid n i k ≡ kill_result pid k (first (has_pid pid k.proc) n i)
  unfolding kill_loop first
  kill_loop_lem pid zero i k free = refl
  kill_loop_lem pid (suc n) i k free =
      rw (acquire-ok i k (free i), slot-locked i k (free i))
        (elim (Bool-cases ((k.proc i).pid == pid)) [
          | inl hit ↦ rw hit (
              ground (
                arith,
                release-ok i k (free i) (killed_proc (k.proc i)),
                free i,
                awake_lem (k.proc i).state,
              ))
          | inr miss ↦
              rw (miss, release-unchanged i k (free i)) (kill_loop_lem pid n (i + 1) k free)
        ])

  -- `kkill(pid)` marks the first slot with this pid as killed, makes it runnable if it sleeps, changes nothing else,
  -- leaves no lock held and reports success; if no slot has the pid it changes nothing and reports failure.
  pub kkill-first :
      (pid : ℕ) (k : Kernel W)
      → Unlocked k
      → kkill pid k ≡ kill_result pid k (first (λ j. (k.proc j).pid == pid) nproc 0)
  unfolding kkill
  kkill-first pid k free = kill_loop_lem pid nproc 0 k free
