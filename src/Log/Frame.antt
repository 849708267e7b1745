-- ===== src/Log/Frame.antt =====
-- A commit leaves the count of open operations as it is.
use csci_315_operating_sytem.Prelude.{
  ℕ, zero, suc, ◌+◌, ◌≡◌, Bool, true, false, inl, inr, ltb, ◌==◌, Bool-cases, if◌then◌else◌,
}
use csci_315_operating_sytem.Log.Defs.{
  Log, Run, done, panic, crash, ◌>>◌, bwrite, bunpin, copy_block, install_block, install_loop,
  install_trans, write_head, clear_count, write_log_block, write_log_loop, write_log, commit,
}

abbrev pub Keeps : ℕ → Run → Type 0
Keeps o (done s) = s.outstanding ≡ o
Keeps o panic = Unit
Keeps o (crash d) = Unit

Keeps-bind :
    (o : ℕ) (r : Run) (k : Log → Run)
    → Keeps o r
    → ((s : Log) → s.outstanding ≡ o → Keeps o (k s))
    → Keeps o (r >> k)
Keeps-bind o (done s) k h next = next s h
Keeps-bind o panic k h next = tt
Keeps-bind o (crash d) k h next = tt

Keeps-bwrite : (o b : ℕ) (s : Log) → s.outstanding ≡ o → Keeps o (bwrite b s)
unfolding bwrite
Keeps-bwrite o b s h = elim (Bool-cases (s.power == 0)) [ inl out ↦ rw out tt | inr on ↦ rw on h ]

Keeps-unpin :
    (o : ℕ) (recovering : Bool) (b : ℕ) (s : Log)
    → s.outstanding ≡ o
    → Keeps o (done (if recovering then s else bunpin b s))
unfolding bunpin
Keeps-unpin o true b s h = h
Keeps-unpin o false b s h = h

Keeps-install :
    (o : ℕ) (recovering : Bool) (rounds k : ℕ) (s : Log)
    → s.outstanding ≡ o
    → Keeps o (install_loop recovering rounds k s)
unfolding install_loop install_block copy_block
Keeps-install o recovering zero k s h = h
Keeps-install o recovering (suc r) k s h =
    Keeps-bind o (install_block recovering k s) _
      (Keeps-bind o (bwrite (s.lh.block k) (copy_block (s.lh.block k) (s.start + k + 1) s)) _
        (Keeps-bwrite o (s.lh.block k) (copy_block (s.lh.block k) (s.start + k + 1) s) h)
        (λ t e. Keeps-unpin o recovering (t.lh.block k) t e))
      (λ t e. Keeps-install o recovering r (k + 1) t e)

Keeps-write_log :
    (o rounds k : ℕ) (s : Log) → s.outstanding ≡ o → Keeps o (write_log_loop rounds k s)
unfolding write_log_loop write_log_block copy_block
Keeps-write_log o zero k s h = h
Keeps-write_log o (suc r) k s h =
    Keeps-bind o (write_log_block k s) _
      (Keeps-bwrite o (s.start + k + 1) (copy_block (s.start + k + 1) (s.lh.block k) s) h)
      (λ t e. Keeps-write_log o r (k + 1) t e)

pub Keeps-commit : (o : ℕ) (s : Log) → s.outstanding ≡ o → Keeps o (commit s)
unfolding commit write_log write_head install_trans clear_count
Keeps-commit o s h = elim (Bool-cases (ltb 0 s.lh.n)) [
  | inl some_blocks ↦ rw some_blocks (
      Keeps-bind o (write_log s) _ (Keeps-write_log o s.lh.n 0 s h) (λ a ha.
        Keeps-bind o (write_head a) _ (Keeps-bwrite o _ _ ha) (λ b hb.
          Keeps-bind o (install_trans false b) _ (Keeps-install o false b.lh.n 0 b hb)
            (λ c hc. Keeps-bwrite o _ _ hc))))
  | inr none_logged ↦ rw none_logged h
]
