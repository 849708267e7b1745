-- ===== src/Checkpoint/Proc.antt =====
-- `checkpoint_proc` and `restore_proc` (kernel/proc.c) as calls that take and release locks, over the
-- process table of Proc. The file system, the pages and the two passes over the descriptors
-- (Checkpoint.Restore) are calls into the world.
pub mod SelfLock
use csci_315_operating_sytem.Prelude.{
  ℕ, zero, suc, ◌+◌, ◌-◌, Bool, true, false, ◌&&◌, ◌||◌, not, Option, none, some, List, ◌==◌,
  if◌then◌else◌, update,
}
use csci_315_operating_sytem.Proc.Defs.{
  nproc, nofile, runnable, Proc, Kernel, Run, ok, panic, M, pure, ◌>>=◌, ◌>>◌, get, put, call, run,
  acquire, release, acquire_wait_lock, release_wait_lock,
}
use csci_315_operating_sytem.Proc.Services.{Services}
use csci_315_operating_sytem.Proc.Alloc.{allocproc, freeproc, pte_r, pte_w, pte_x}
use csci_315_operating_sytem.Proc.Life.{close_files}
use csci_315_operating_sytem.Checkpoint.Defs.{CkptFd}

-- CKPT_MAGIC, CKPT_VERSION, ROOTINO, PTE_U.
abbrev pub ckpt_magic : ℕ
ckpt_magic = 0x43484B50

abbrev pub ckpt_version : ℕ
ckpt_version = 1

abbrev pub rootino : ℕ
rootino = 1

abbrev pub pte_u : ℕ
pte_u = 16

-- `struct ckpt_header`. `tf` stands for the saved registers.
pub record CkptHeader : Type 0 where
  pub magic : ℕ
  pub version : ℕ
  pub pid : ℕ
  pub sz : ℕ
  pub tf : ℕ
  pub name : List ℕ
  pub cwd_inum : ℕ
  pub fds : ℕ → CkptFd

-- The calls that only checkpoint and restore make.
pub record CkptServices (W : Type 0) : Type 0 where
  -- `create(path, T_FILE, 0, 0)` and `namei(path)` followed by `ilock`; 0 for null.
  pub create : List ℕ → W → ℕ × W
  pub lookup : List ℕ → W → ℕ × W
  pub iunlockput : ℕ → W → W
  -- The header's bytes at offset 0, `none` for a short read; whether a write was whole.
  pub read_header : ℕ → W → Option CkptHeader × W
  pub write_header : ℕ → CkptHeader → W → Bool × W
  pub checkpoint_addr_space : (pagetable sz ip : ℕ) → W → Bool × W
  pub restore_addr_space : (pagetable sz ip : ℕ) → W → Bool × W
  -- The descriptors of a process as a header has them, if they can be captured.
  pub capture : Proc → W → Option (ℕ → CkptFd) × W
  -- The two passes over the descriptors: whether they end, and the table that they leave.
  pub rebuild_files : (ℕ → CkptFd) → W → (Bool × (ℕ → ℕ)) × W
  pub rebuild_pipes : (ℕ → CkptFd) → (ℕ → ℕ) → W → (Bool × (ℕ → ℕ)) × W
  pub inum : ℕ → W → ℕ × W
  pub iget_by_inum : ℕ → W → ℕ × W
  pub read_trapframe : ℕ → W → ℕ × W
  pub write_trapframe : (trapframe tf : ℕ) → W → W

module _ {W : Type 0} (os : Services W) (ck : CkptServices W) where
  open ck use {iunlockput, iget_by_inum}

  -- `iunlockput(ip); end_op(); return -1;`
  unfoldable pub close_file : ℕ → W → W
  close_file ip w = os.end_op (iunlockput ip w)

  -- `checkpoint_proc(p, path)`; 0 is `true`, -1 is `false`.
  unfoldable pub checkpoint_proc : ℕ → List ℕ → M W Bool
  unfolding get call run close_file
  checkpoint_proc me path = do
    run os.begin_op
    ip ← call (ck.create path)
    if ip == 0 then (do run os.end_op; pure false) else do
      p ← get me
      tf ← call (ck.read_trapframe p.trapframe)
      captured ← call (ck.capture p)
      elim captured [
        | none ↦ (do run (close_file ip); pure false)
        | some fds ↦ (do
          cwd ← (if p.cwd == 0 then pure 0 else call (ck.inum p.cwd))
          written ← call (
              ck.write_header ip (record {
                magic = ckpt_magic;
                version = ckpt_version;
                pid = p.pid;
                sz = p.sz;
                tf = tf;
                name = p.name;
                cwd_inum = cwd;
                fds = fds;
              }))
          if not written then (do run (close_file ip); pure false) else do
            pages ← call (ck.checkpoint_addr_space p.pagetable p.sz ip)
            run (close_file ip)
            pure pages)
      ]

  -- The label `bad` of `restore_proc`.
  unfoldable pub restore_bad : (np ip : ℕ) → M W (Option ℕ)
  unfolding get put run close_file
  restore_bad np ip = do
    close_files os np nofile 0
    p ← get np
    (if p.cwd == 0
        then pure tt
        else do run (os.iput p.cwd); q ← get np; put np (record q { cwd = 0 }))
    acquire np
    freeproc os np
    release np
    run (close_file ip)
    pure none

  -- From the restored tables on: the registers, the name, the parent, and the state.
  unfoldable pub restore_finish : CkptHeader → (np ip : ℕ) → M W (Option ℕ)
  unfolding get put run close_file
  restore_finish hdr np ip = do
    acquire np
    p ← get np
    run (ck.write_trapframe p.trapframe hdr.tf)
    run (os.set_a0 p.trapframe 1)
    put np (record p { name = hdr.name })
    acquire_wait_lock
    q ← get np
    (λ k. put np (record q { parent = k.initproc }) k)
    release_wait_lock
    r ← get np
    put np (record r { state = runnable })
    release np
    run (close_file ip)
    pure (some r.pid)

  -- `np->cwd`: the saved directory, or the root.
  unfoldable pub restore_cwd : CkptHeader → M W ℕ
  unfolding call
  restore_cwd hdr = do
    saved ← (if hdr.cwd_inum == 0 then pure 0 else call (iget_by_inum hdr.cwd_inum))
    if saved == 0 then call (iget_by_inum rootino) else pure saved

  -- From `release(&np->lock)` on.
  unfoldable pub restore_state : CkptHeader → (np ip : ℕ) → M W (Option ℕ)
  unfolding get put call
  restore_state hdr np ip = do
    release np
    p ← get np
    pages ← call (ck.restore_addr_space p.pagetable p.sz ip)
    if not pages then restore_bad np ip else do
      (files, ofile) ← call (ck.rebuild_files hdr.fds)
      q ← get np
      put np (record q { ofile = ofile })
      if not files then restore_bad np ip else do
        cwd ← restore_cwd hdr
        r ← get np
        put np (record r { cwd = cwd })
        if cwd == 0 then restore_bad np ip else do
          (pipes, ofile') ← call (ck.rebuild_pipes hdr.fds ofile)
          s ← get np
          put np (record s { ofile = ofile' })
          if not pipes then restore_bad np ip else restore_finish hdr np ip

  -- From `allocproc` on, in the slot `np`, which is locked.
  unfoldable pub restore_into : CkptHeader → (np ip : ℕ) → M W (Option ℕ)
  unfolding get put call
  restore_into hdr np ip = do
    p ← get np
    sz ← call (os.uvmalloc p.pagetable 0 hdr.sz (((pte_w + pte_r) + pte_x) + pte_u))
    if sz == 0
        then restore_bad np ip
        else do q ← get np; put np (record q { sz = hdr.sz }); restore_state hdr np ip

  -- `restore_proc(path)`: the new pid, or `none` for -1.
  unfoldable pub restore_proc : List ℕ → M W (Option ℕ)
  unfolding call run close_file
  restore_proc path = do
    run os.begin_op
    ip ← call (ck.lookup path)
    if ip == 0 then (do run os.end_op; pure none) else do
      read ← call (ck.read_header ip)
      elim read [
        | none ↦ (do run (close_file ip); pure none)
        | some hdr ↦
            if not (hdr.magic == ckpt_magic) || not (hdr.version == ckpt_version)
            then (do run (close_file ip); pure none)
            else (do
              slot ← allocproc os
              elim slot [
                | none ↦ (do run (close_file ip); pure none)
                | some np ↦ restore_into hdr np ip
              ])
      ]
