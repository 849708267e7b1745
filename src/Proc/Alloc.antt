-- ===== src/Proc/Alloc.antt =====
-- proc.c: allocation, release and growth of a process, and `kfork`.
use csci_315_operating_sytem.Prelude.{
  ℕ, zero, suc, ◌+◌, ◌-◌, ◌^◌, ◌%◌, Bool, true, false, not, Option, none, some, [], ◌==◌,
  if◌then◌else◌, update,
}
use csci_315_operating_sytem.Proc.Defs.{
  nproc, nofile, pgsize, unused, used, runnable, is_unused, Proc, M, pure, ◌>>=◌, ◌>>◌, get, put,
  call, run, acquire, release, acquire_wait_lock, release_wait_lock, allocpid,
}
use csci_315_operating_sytem.Proc.Services.{Services}

-- riscv.h and memlayout.h: the top of the user address space, and its two highest pages.
abbrev pub maxva : ℕ
maxva = 2 ^ 38

abbrev pub trampoline_va : ℕ
trampoline_va = maxva - pgsize

abbrev pub trapframe_va : ℕ
trapframe_va = trampoline_va - pgsize

abbrev pub pte_r : ℕ
pte_r = 2

abbrev pub pte_w : ℕ
pte_w = 4

abbrev pub pte_x : ℕ
pte_x = 8

-- `int n`: not negative, or negative with its absolute value.
pub data Change : Type 0 where
  up down : ℕ → Change

module _ {W : Type 0} (os : Services W) where
  open os use {kalloc, kfree, uvmcreate, mappages, uvmunmap, uvmfree}

  unfoldable pub proc_pagetable : Proc → M W ℕ
  unfolding call run
  proc_pagetable p = do
    pagetable ← call uvmcreate
    if pagetable == 0 then pure 0 else do
      code ← call (mappages pagetable trampoline_va pgsize os.trampoline (pte_r + pte_x))
      if not code then (do run (uvmfree pagetable 0); pure 0) else do
        frame ← call (mappages pagetable trapframe_va pgsize p.trapframe (pte_r + pte_w))
        if not frame
            then (do run (uvmunmap pagetable trampoline_va 1 0); run (uvmfree pagetable 0); pure 0)
            else pure pagetable

  unfoldable pub proc_freepagetable : (pagetable sz : ℕ) → W → W
  proc_freepagetable pagetable sz w =
      uvmfree pagetable sz
        (uvmunmap pagetable trapframe_va 1 0 (uvmunmap pagetable trampoline_va 1 0 w))

  -- What `freeproc` leaves in the slot: the kernel stack, the context, the files and the lock stay.
  abbrev pub freed_proc : Proc → Proc
  freed_proc p = record p {
    trapframe = 0;
    pagetable = 0;
    sz = 0;
    pid = 0;
    parent = none;
    name = [];
    chan = 0;
    killed = false;
    xstate = 0;
    state = unused;
  }

  abbrev pub freed_world : Proc → W → W
  freed_world p w =
      let w' : W = (if p.trapframe == 0 then w else kfree p.trapframe w) in
      if p.pagetable == 0 then w' else proc_freepagetable p.pagetable p.sz w'

  unfoldable pub freeproc : ℕ → M W (Unit {0})
  unfolding get put run proc_freepagetable
  freeproc i = do p ← get i; run (freed_world p); put i (freed_proc p)

  -- The scan of `allocproc`: it returns with the lock of the slot that it finds.
  unfoldable pub find_unused : (rounds i : ℕ) → M W (Option ℕ)
  find_unused zero i = pure none
  find_unused (suc n) i = do
    acquire i
    p ← get i
    if is_unused p.state then pure (some i) else do release i; find_unused n (i + 1)

  unfoldable pub give_up : ℕ → M W (Option ℕ)
  give_up i = do freeproc i; release i; pure none

  unfoldable pub fill_slot : ℕ → M W (Option ℕ)
  unfolding get put call
  fill_slot i = do
    pid ← allocpid
    p ← get i
    put i (record p { pid = pid; state = used })
    frame ← call kalloc
    q ← get i
    put i (record q { trapframe = frame })
    if frame == 0 then give_up i else do
      r ← get i
      pagetable ← proc_pagetable r
      s ← get i
      put i (record s { pagetable = pagetable })
      if pagetable == 0 then give_up i else do
        t ← get i
        put i (record t { context_ra = os.forkret; context_sp = t.kstack + pgsize })
        pure (some i)

  unfoldable pub allocproc : M W (Option ℕ)
  allocproc = do slot ← find_unused nproc 0; elim slot [ none ↦ pure none | some i ↦ fill_slot i ]

  -- `int n`, by its sign. The sum `sz + n` is one of uint64.
  unfoldable pub growproc : ℕ → Change → M W Bool
  unfolding get put call
  growproc me (up n) = do
    p ← get me
    if n == 0 then pure true else do
      sz ← call (os.uvmalloc p.pagetable p.sz ((p.sz + n) % 2 ^ 64) pte_w)
      if sz == 0 then pure false else do q ← get me; put me (record q { sz = sz }); pure true
  growproc me (down n) = do
    p ← get me
    sz ← call (os.uvmdealloc p.pagetable p.sz ((p.sz + 2 ^ 64 - n) % 2 ^ 64))
    q ← get me
    put me (record q { sz = sz })
    pure true

  -- `for(i = 0; i < NOFILE; i++) if(p->ofile[i]) np->ofile[i] = filedup(p->ofile[i]);`
  unfoldable pub dup_files : (me np rounds i : ℕ) → M W (Unit {0})
  dup_files me np zero i = pure tt
  dup_files me np (suc n) i = do
    p ← get me
    (if p.ofile i == 0 then pure tt else do
      run (os.filedup (p.ofile i))
      q ← get np
      put np (record q { ofile = update q.ofile i (p.ofile i) }))
    dup_files me np n (i + 1)

  -- `kfork` from the child's slot `np` on, which is locked. -1 is `none`.
  unfoldable pub fork_into : (me np : ℕ) → M W (Option ℕ)
  unfolding get put call run
  fork_into me np = do
    p ← get me
    q ← get np
    copied ← call (os.uvmcopy p.pagetable q.pagetable p.sz)
    if not copied then (do freeproc np; release np; pure none) else do
      put np (record q { sz = p.sz })
      run (os.copy_trapframe q.trapframe p.trapframe)
      run (os.set_a0 q.trapframe 0)
      dup_files me np nofile 0
      run (os.idup p.cwd)
      r ← get np
      put np (record r { cwd = p.cwd; name = p.name })
      release np
      acquire_wait_lock
      s ← get np
      put np (record s { parent = some me })
      release_wait_lock
      acquire np
      t ← get np
      put np (record t { state = runnable })
      release np
      pure (some r.pid)

  unfoldable pub kfork : ℕ → M W (Option ℕ)
  kfork me = do slot ← allocproc; elim slot [ none ↦ pure none | some np ↦ fork_into me np ]
