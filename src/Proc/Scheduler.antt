-- ===== src/Proc/Scheduler.antt =====
-- proc.c: `procinit`, `userinit`, and a pass of the scheduler over the table.
use csci_315_operating_sytem.Prelude.{
  ℕ, zero, suc, ◌+◌, ◌-◌, ◌*◌, Bool, true, false, none, some, if◌then◌else◌,
}
use csci_315_operating_sytem.Proc.Defs.{
  nproc, pgsize, unused, runnable, running, is_runnable, ok, M, pure, ◌>>=◌, ◌>>◌, fails, get, put,
  call, acquire, release,
}
use csci_315_operating_sytem.Proc.Services.{Services}
use csci_315_operating_sytem.Proc.Alloc.{trampoline_va, allocproc}

-- KSTACK.
abbrev kstack_va : ℕ → ℕ
kstack_va p = trampoline_va - (p + 1) * 2 * pgsize

module _ {W : Type 0} where
  unfoldable pub procinit_loop : (rounds i : ℕ) → M W (Unit {0})
  unfolding get put
  procinit_loop zero i = pure tt
  procinit_loop (suc n) i = do
    p ← get i
    put i (record p { lock = false; state = unused; kstack = kstack_va i })
    procinit_loop n (i + 1)

  unfoldable pub procinit : M W (Unit {0})
  procinit k = procinit_loop nproc 0 (record k { pid_lock = false; wait_lock = false })

  -- The slots from `i` on. `switch` is what the process in a slot does with the CPU until it comes back
  -- from it, with its lock held; the result says whether one ran.
  unfoldable pub scheduler_loop :
      (switch : ℕ → M W (Unit {0})) → (found : Bool) (rounds i : ℕ) → M W Bool
  unfolding get put
  scheduler_loop switch found zero i = pure found
  scheduler_loop switch found (suc n) i = do
    acquire i
    p ← get i
    if is_runnable p.state
        then (do
          put i (record p { state = running })
          switch i
          release i
          scheduler_loop switch true n (i + 1))
        else do release i; scheduler_loop switch found n (i + 1)

  unfoldable pub scheduler_pass : (switch : ℕ → M W (Unit {0})) → M W Bool
  scheduler_pass switch = scheduler_loop switch false nproc 0

-- `userinit`, where `root` is `namei("/")`. A null pointer from `allocproc` would be dereferenced.
unfoldable pub userinit : {W : Type 0} → Services W → (root : W → ℕ × W) → M W (Unit {0})
unfolding get put call
userinit os root = do
  slot ← allocproc os
  elim slot [
    | none ↦ fails
    | some i ↦ (do
      (λ k. ok tt (record k { initproc = some i }))
      cwd ← call root
      p ← get i
      put i (record p { cwd = cwd; state = runnable })
      release i)
  ]
