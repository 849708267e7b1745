-- ===== src/Log/Write.antt =====
-- `begin_op` and `log_write`: what is logged, and that reserved space is enough.
use csci_315_operating_sytem.Prelude.{
  ℕ, ◌+◌, ◌<◌, ◌≡◌, ◌≢◌, refl, arith, true, inl, inr, ◌==◌, Bool-cases, if◌then◌else◌, update, ◌⊎◌,
}
use csci_315_operating_sytem.Log.Defs.{Block, Log, done, log_blocks, find_slot, log_write, bpin}
use csci_315_operating_sytem.Log.Overlay.{logged}
use csci_315_operating_sytem.Log.Slots.{logged_of_miss, logged_of_hit, logged-absorb, logged-extend}

-- A caller's change of a buffer, before its `log_write`.
unfoldable pub modify : ℕ → Block → Log → Log
modify b w s = record s { buf = update s.buf b w }

-- What `log_write b` does to the header when it returns: it absorbs `b` or adds it at the end.
pub record Logs (b : ℕ) (s t : Log) : Type 0 where
  pub same_disk : t.disk ≡ s.disk
  pub same_buf : t.buf ≡ s.buf
  pub same_start : t.start ≡ s.start
  pub same_ops : t.outstanding ≡ s.outstanding
  pub same_committing : t.committing ≡ s.committing
  pub count : t.lh.n ≡ (if logged s.lh.block s.lh.n b then s.lh.n else s.lh.n + 1)
  pub entries :
      (c : ℕ) → logged t.lh.block t.lh.n c ≡ (if b == c then true else logged s.lh.block s.lh.n c)
  pub homes :
      (k : ℕ)
      → k < t.lh.n
      → (t.lh.block k ≡ b) ⊎ ((j : ℕ) × (j < s.lh.n) × (t.lh.block k ≡ s.lh.block j))

abbrev absorbed : ℕ → Log → Log
absorbed b s = record s {
  lh = record { n = s.lh.n; block = update s.lh.block (find_slot s.lh.block b s.lh.n 0) b };
}

abbrev appended : ℕ → Log → Log
appended b s =
    bpin b (record s { lh = record { n = s.lh.n + 1; block = update s.lh.block s.lh.n b } })

module _ (b : ℕ) (s : Log) where
  absorbed-Logs : find_slot s.lh.block b s.lh.n 0 ≢ s.lh.n → Logs b s (absorbed b s)
  unfolding update
  absorbed-Logs ne = record {
    same_disk = refl;
    same_buf = refl;
    same_start = refl;
    same_ops = refl;
    same_committing = refl;
    count = rw hit.1;
    entries = λ c. ground (arith, logged-absorb s.lh.block s.lh.n b c _ hit.0, hit.1);
    homes = λ k lt. inr (k, lt, ground (arith, hit.0));
  }
    where
      hit : (s.lh.block (find_slot s.lh.block b s.lh.n 0) ≡ b) × (logged s.lh.block s.lh.n b ≡ true)
      hit = logged_of_hit s.lh.block b s.lh.n ne

  appended-Logs : find_slot s.lh.block b s.lh.n 0 ≡ s.lh.n → Logs b s (appended b s)
  unfolding bpin
  appended-Logs e = record {
    same_disk = refl;
    same_buf = refl;
    same_start = refl;
    same_ops = refl;
    same_committing = refl;
    count = rw (logged_of_miss s.lh.block b s.lh.n e);
    entries = λ c. logged-extend s.lh.block s.lh.n b c;
    homes = λ k lt. elim (Bool-cases (k == s.lh.n)) [
      | inl last ↦ inl (unfold update in (ground arith))
      | inr old ↦ inr (k, ground arith, unfold update in (ground arith))
    ];
  }

  -- With room in the log, `log_write` returns, and logs `b` besides what was logged.
  pub log_write-Logs :
      s.lh.n < log_blocks → 0 < s.outstanding → (t : Log) × (log_write b s ≡ done t) × Logs b s t
  unfolding log_write
  log_write-Logs room inside = elim (Bool-cases (find_slot s.lh.block b s.lh.n 0 == s.lh.n)) [
    | inl miss ↦ (appended b s, ground arith, appended-Logs (ground arith))
    | inr hit ↦ (absorbed b s, ground arith, absorbed-Logs (ground arith))
  ]
