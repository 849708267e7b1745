-- ===== src/Checkpoint/Proc/SelfLock.antt =====
-- The path of `restore_proc` on which it takes a lock that it holds.
use csci_315_operating_sytem.Prelude.{
  ℕ, zero, suc, ◌+◌, ◌≡◌, refl, true, ◌==◌, inl, inr, Bool-cases, update, update_self, ap, ◌∙◌,
}
use csci_315_operating_sytem.Proc.Defs.{nofile, Proc, Kernel, ok, panic, acquire}
use csci_315_operating_sytem.Proc.Services.{Services}
use csci_315_operating_sytem.Proc.Alloc.{pte_r, pte_w, pte_x}
use csci_315_operating_sytem.Proc.Life.{close_files}
use csci_315_operating_sytem.Checkpoint.Proc.{
  CkptHeader, CkptServices, restore_bad, restore_into, pte_u,
}

module _ {W : Type 0} (os : Services W) (ck : CkptServices W) where
  -- The slot is locked by the running code.
  abbrev Locked : ℕ → Kernel W → Type 0
  Locked i k = (k.proc i).lock ≡ true

  close_files-Locked :
      (np n fd : ℕ) (k : Kernel W)
      → Locked np k
      → (k' : Kernel W) × (close_files os np n fd k ≡ ok tt k') × Locked np k'
  unfolding close_files
  close_files-Locked np zero fd k h = (k, refl, h)
  close_files-Locked np (suc n) fd k h = elim (Bool-cases ((k.proc np).ofile fd == 0)) [
    | inl shut ↦
        (let (k', e, l) = close_files-Locked np n (fd + 1) k h in (k', rw (shut, close_files) e, l))
    | inr open_file ↦
        (let q = record (k.proc np) { ofile = update (k.proc np).ofile fd 0 } in
          let k1 = record k {
            world = os.fileclose ((k.proc np).ofile fd) k.world;
            proc = update k.proc np q;
          } in
          let l1 : Locked np k1 = ap (λ (p : Proc). p.lock) (update_self k.proc np q) ∙ h in
          let (k', e, l) = close_files-Locked np n (fd + 1) k1 l1 in
          (k', rw (open_file, close_files) e, l))
  ]

  -- The clean-up takes the lock of the slot itself.
  restore_bad-panic : (np ip : ℕ) (k : Kernel W) → Locked np k → restore_bad os ck np ip k ≡ panic
  unfolding restore_bad acquire
  restore_bad-panic np ip k h =
      let (k', e, l) = close_files-Locked np nofile 0 k h in
      rw e (elim (Bool-cases ((k'.proc np).cwd == 0)) [
        | inl none_saved ↦ rw none_saved (rw l)
        | inr saved ↦
            rw saved (rw (update_self k'.proc np (record (k'.proc np) { cwd = 0 })) (rw l))
      ])

  -- When `allocproc` has returned the locked slot `np` and `uvmalloc` then returns 0 for the saved size,
  -- `restore_into`, the rest of `restore_proc`, panics: it goes to `bad` with the lock still held.
  pub restore_into-panic :
      (hdr : CkptHeader) (np ip : ℕ) (k : Kernel W)
      → Locked np k
      → (os.uvmalloc (k.proc np).pagetable 0 hdr.sz (((pte_w + pte_r) + pte_x) + pte_u) k.world).0
        ≡ 0
      → restore_into os ck hdr np ip k ≡ panic
  unfolding restore_into
  restore_into-panic hdr np ip k h none_left = rw none_left (
      restore_bad-panic np ip
        (record k {
          world =
              (os.uvmalloc (k.proc np).pagetable 0 hdr.sz (((pte_w + pte_r) + pte_x) + pte_u)
                k.world).1;
        })
        h)
