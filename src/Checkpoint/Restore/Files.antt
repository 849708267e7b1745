-- ===== src/Checkpoint/Restore/Files.antt =====
-- The first pass of `restore_proc`: inodes and devices.
use csci_315_operating_sytem.Prelude.{
  ℕ, zero, suc, ◌+◌, ◌<◌, ◌≤◌, ◌≡◌, refl, arith, Bool, true, Option, none, some, ◌==◌, inl, inr,
  Bool-cases, update, update_self, update_ne, ◌∙◌,
}
use csci_315_operating_sytem.Proc.Defs.{nofile}
use csci_315_operating_sytem.Checkpoint.Defs.{
  FileType, fd_none, fd_pipe, fd_inode, fd_device, OpenFile, CkptFd,
}
use csci_315_operating_sytem.Checkpoint.Restore.Defs.{
  Restored, restored_file, restore_file, restore_files,
}

-- The slot of a descriptor after the first pass.
abbrev pub file_slot : FileType → CkptFd → Option OpenFile
file_slot fd_none e = none
file_slot fd_pipe e = none
file_slot fd_inode e = some (restored_file e)
file_slot fd_device e = some (restored_file e)

module _ (files : ℕ → Bool) (enough : (i : ℕ) → i < nofile → files i ≡ true) where
  restore_file-ok :
      (t : FileType) (e : CkptFd) (i : ℕ) (r : Restored)
      → i < nofile
      → restore_file files t e i r ≡ some (record r { ofile = update r.ofile i (file_slot t e) })
  unfolding restore_file
  restore_file-ok fd_none e i r lt = refl
  restore_file-ok fd_pipe e i r lt = refl
  restore_file-ok fd_inode e i r lt = rw (enough i lt)
  restore_file-ok fd_device e i r lt = rw (enough i lt)

  -- With a file structure for every descriptor the first pass fills each slot from its entry.
  pub restore_files-ok :
      (fds : ℕ → CkptFd) (n i : ℕ) (r : Restored)
      → i + n ≤ nofile
      → (s : Restored) × (restore_files files fds n i r ≡ some s)
        × (s.next ≡ r.next)
        × ((k : ℕ) → i ≤ k → k < i + n → s.ofile k ≡ file_slot (fds k).type (fds k))
        × ((k : ℕ) → k < i → s.ofile k ≡ r.ofile k)
  unfolding restore_files
  restore_files-ok fds zero i r le = (r, refl, refl, (λ k a b. absurd (omega arith)), (λ k a. refl))
  restore_files-ok fds (suc n) i r le =
      let r' = record r { ofile = update r.ofile i (file_slot (fds i).type (fds i)) } in
      let (s, e, next, above, below) = restore_files-ok fds n (i + 1) r' (omega arith) in
      (
        s,
        rw (restore_file-ok (fds i).type (fds i) i r (omega arith), restore_files) e,
        next,
        (λ k a b. elim (Bool-cases (k == i)) [
          | inl here ↦
              (let same : k ≡ i = ground arith in
                rw same
                  (below i (omega arith) ∙ update_self r.ofile i (file_slot (fds i).type (fds i))))
          | inr later ↦ above k (ground arith) (omega arith)
        ]),
        (λ k a.
            below k (omega arith)
            ∙ update_ne r.ofile i k (file_slot (fds i).type (fds i)) (omega arith)),
      )
