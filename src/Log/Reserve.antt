-- ===== src/Log/Reserve.antt =====
-- Open operations, their shares of the log, and why no `log_write` of theirs finds the log full.
use csci_315_operating_sytem.Prelude.{
  ℕ, zero, suc, ◌+◌, ◌*◌, ◌-◌, ◌<◌, ◌≤◌, ◌≡◌, refl, arith, true, false, inl, inr, ◌==◌, ltb,
  Bool-cases, update, List, [], ◌∷◌, length, ◌⊎◌, sym, ◌∙◌, ap, subst,
}
use csci_315_operating_sytem.Log.Defs.{
  Block, Disk, Log, Run, done, panic, crash, ◌>>◌, enters, max_op_blocks, log_blocks, log_write,
  begin_op, end_op, commit,
}
use csci_315_operating_sytem.Log.Overlay.{IsHome}
use csci_315_operating_sytem.Log.Outcome.{Ends}
use csci_315_operating_sytem.Log.Install.{InArea}
use csci_315_operating_sytem.Log.Recover.{Recovered}
use csci_315_operating_sytem.Log.Commit.{Ready, AllOrNothing, commit-AllOrNothing}
use csci_315_operating_sytem.Log.Write.{modify, Logs, log_write-Logs}
use csci_315_operating_sytem.Log.Frame.{Keeps, Keeps-commit}

-- Calls of `log_write` that each open operation has made.
abbrev pub Used : Type 0
Used = List ℕ

-- Calls that the open operations may still make.
abbrev pub slack : Used → ℕ
slack [] = 0
slack (u ∷ us) = (max_op_blocks - u) + slack us

-- The operation at index `i` makes one more call.
abbrev pub count_up : Used → ℕ → Used
count_up [] i = []
count_up (u ∷ us) zero = (u + 1) ∷ us
count_up (u ∷ us) (suc i) = u ∷ count_up us i

abbrev pub calls : Used → ℕ → ℕ
calls [] i = max_op_blocks
calls (u ∷ us) zero = u
calls (u ∷ us) (suc i) = calls us i

abbrev pub drop_at : Used → ℕ → Used
drop_at [] i = []
drop_at (u ∷ us) zero = us
drop_at (u ∷ us) (suc i) = u ∷ drop_at us i

-- One step of the file system's callers: an operation begins, changes and logs a home block, having
-- made fewer than MAXOPBLOCKS calls, or ends.
pub data OpStep (start : ℕ) (s : Log) (us : Used) (t : Log) : Used → Type 0 where
  begins : begin_op s ≡ enters t → OpStep start s us t (0 ∷ us)
  writes :
      (i b : ℕ) (w : Block)
      → IsHome start b
      → calls us i < max_op_blocks
      → log_write b (modify b w s) ≡ done t
      → OpStep start s us t (count_up us i)
  ends : (i : ℕ) → i < length us → end_op s ≡ done t → OpStep start s us t (drop_at us i)

-- The log between steps.
pub record IsSound (start : ℕ) (s : Log) (us : Used) : Type 0 where
  pub ready : Ready start s
  pub open_ops : s.outstanding ≡ length us
  pub space : s.lh.n + slack us ≤ log_blocks
  pub idle : s.committing ≡ false

length-count_up : (us : Used) (i : ℕ) → length (count_up us i) ≡ length us
length-count_up [] i = refl
length-count_up (u ∷ us) zero = refl
length-count_up (u ∷ us) (suc i) = ap suc (length-count_up us i)

slack-count_up :
    (us : Used) (i : ℕ) → calls us i < max_op_blocks → slack (count_up us i) + 1 ≡ slack us
slack-count_up [] i h = absurd (omega arith)
slack-count_up (u ∷ us) zero h = omega arith
slack-count_up (u ∷ us) (suc i) h = omega (arith, slack-count_up us i h)

length-drop_at : (us : Used) (i : ℕ) → i < length us → length (drop_at us i) + 1 ≡ length us
length-drop_at [] i h = absurd (omega arith)
length-drop_at (u ∷ us) zero h = omega arith
length-drop_at (u ∷ us) (suc i) h = omega (arith, length-drop_at us i (omega arith))

slack-drop_at : (us : Used) (i : ℕ) → slack (drop_at us i) ≤ slack us
slack-drop_at [] i = omega arith
slack-drop_at (u ∷ us) zero = omega arith
slack-drop_at (u ∷ us) (suc i) = omega (arith, slack-drop_at us i)

slack-le : (us : Used) → slack us ≤ length us * max_op_blocks
slack-le [] = omega arith
slack-le (u ∷ us) = omega (arith, slack-le us)

-- A buffer that is changed and then logged keeps the log ready.
module _ (start b : ℕ) (w : Block) (s : Log) (h : IsHome start b) (ready : Ready start s) where
  Ready-Logs : (t : Log) → Logs b (modify b w s) t → s.lh.n < log_blocks → Ready start t
  unfolding modify update
  Ready-Logs t l room = record {
    at_start = l.same_start ∙ ready.at_start;
    layout = record { fits = ground (arith, l.count); homes = λ k lt. home k (l.homes k lt) };
    empty_disk = ap (λ (d : Disk). d start 0) l.same_disk ∙ ready.empty_disk;
    clean = λ c e. ground (arith, l.entries c, l.same_buf, l.same_disk, ready.clean c);
  }
    where
      home :
          (k : ℕ)
          → ((t.lh.block k ≡ b) ⊎ ((j : ℕ) × (j < s.lh.n) × (t.lh.block k ≡ s.lh.block j)))
          → IsHome start (t.lh.block k)
      home k (inl e) = subst (λ c. IsHome start c) (sym e) h
      home k (inr (j, lt, e)) = subst (λ c. IsHome start c) (sym e) (ready.layout.homes j lt)

-- A call of `log_write` by an operation that has made fewer than MAXOPBLOCKS calls returns: neither
-- of its panics is reached.
pub log_write_returns :
    (start : ℕ) (s : Log) (us : Used) (i b : ℕ) (w : Block)
    → IsSound start s us
    → calls us i < max_op_blocks
    → (t : Log) × (log_write b (modify b w s) ≡ done t) × Logs b (modify b w s) t
unfolding modify
log_write_returns start s us i b w sound few =
    log_write-Logs b (modify b w s) (omega (arith, sound.space, slack-count_up us i few))
      (omega (arith, sound.open_ops, some_op us i few))
  where
    some_op : (us : Used) (i : ℕ) → calls us i < max_op_blocks → 0 < length us
    some_op [] i h = absurd (omega arith)
    some_op (u ∷ us) i h = omega arith

done-injective : {s t : Log} → done s ≡ done t → s ≡ t
done-injective {s} e = ap (λ (r : Run). elim r [ done u ↦ u | _ ↦ s ]) e

module _ (start : ℕ) (s : Log) (us : Used) (sound : IsSound start s us) where
  open sound use {ready, open_ops, space, idle}

  begun-IsSound :
      s.lh.n + (s.outstanding + 1) * max_op_blocks ≤ log_blocks
      → IsSound start (record s { outstanding = s.outstanding + 1 }) (0 ∷ us)
  begun-IsSound room = record {
    ready = record {
      at_start = ready.at_start;
      layout = ready.layout;
      empty_disk = ready.empty_disk;
      clean = ready.clean;
    };
    open_ops = omega (arith, open_ops);
    space = omega (arith, open_ops, slack-le us);
    idle = idle;
  }

  begin-IsSound : (t : Log) → begin_op s ≡ enters t → IsSound start t (0 ∷ us)
  unfolding begin_op
  begin-IsSound t e =
      elim (Bool-cases (ltb log_blocks (s.lh.n + (s.outstanding + 1) * max_op_blocks))) [
        | inl full ↦ absurd (ground arith)
        | inr room ↦
            (let same : record s { outstanding = s.outstanding + 1 } ≡ t = ground arith in
              subst (λ u. IsSound start u (0 ∷ us)) same (begun-IsSound (ground arith)))
      ]

  Logs-IsSound :
      (t : Log) (i b : ℕ) (w : Block)
      → IsHome start b
      → calls us i < max_op_blocks
      → Logs b (modify b w s) t
      → IsSound start t (count_up us i)
  unfolding modify
  Logs-IsSound t i b w h few l = record {
    ready = Ready-Logs start b w s h ready t l (omega (arith, space, slack-count_up us i few));
    open_ops = l.same_ops ∙ open_ops ∙ sym (length-count_up us i);
    space = ground (arith, l.count, slack-count_up us i few);
    idle = l.same_committing ∙ idle;
  }

  write-IsSound :
      (t : Log) (i b : ℕ) (w : Block)
      → IsHome start b
      → calls us i < max_op_blocks
      → log_write b (modify b w s) ≡ done t
      → IsSound start t (count_up us i)
  write-IsSound t i b w h few e =
      let (t', e', l) = log_write_returns start s us i b w sound few in
      subst (λ u. IsSound start u (count_up us i)) (done-injective (sym e' ∙ e))
        (Logs-IsSound t' i b w h few l)

  -- The state in which the last operation calls `commit`.
  abbrev closing : Log
  closing = record s { outstanding = 0; committing = true }

  closing-Ready : Ready start closing
  closing-Ready = record {
    at_start = ready.at_start;
    layout = ready.layout;
    empty_disk = ready.empty_disk;
    clean = ready.clean;
  }

  closed-IsSound :
      (r : Run) (t : Log)
      → Ends (Recovered start s.buf) (AllOrNothing start closing) r
      → Keeps 0 r
      → (r >> λ u. done (record u { committing = false })) ≡ done t
      → IsSound start t []
  closed-IsSound (done u) t rec ops e =
      subst (λ v. IsSound start v []) (done-injective e)
        (record {
          ready = record {
            at_start = rec.at_start;
            layout = record {
              fits = omega (arith, rec.empty);
              homes = λ k lt. absurd (omega (arith, rec.empty));
            };
            empty_disk = rec.empty_disk;
            clean = λ b h. agree b (home_or_area b);
          };
          open_ops = ops;
          space = omega (arith, rec.empty);
          idle = refl;
        })
    where
      home_or_area : (b : ℕ) → IsHome start b ⊎ InArea start b
      home_or_area b = grind arith

      agree : (b : ℕ) → (IsHome start b ⊎ InArea start b) → u.buf b ≡ u.disk b
      agree b (inl h) = rec.buffers b h ∙ sym (rec.homes b h)
      agree b (inr a) = rec.area b a
  closed-IsSound panic t rec ops e = absurd rec
  closed-IsSound (crash d) t rec ops e = cc

  ended-IsSound :
      (i : ℕ)
      → i < length us
      → IsSound start (record s { outstanding = s.outstanding - 1 }) (drop_at us i)
  ended-IsSound i lt = record {
    ready = record {
      at_start = ready.at_start;
      layout = ready.layout;
      empty_disk = ready.empty_disk;
      clean = ready.clean;
    };
    open_ops = omega (arith, open_ops, length-drop_at us i lt);
    space = omega (arith, space, slack-drop_at us i);
    idle = idle;
  }

  end-IsSound :
      (t : Log) (i : ℕ) → i < length us → end_op s ≡ done t → IsSound start t (drop_at us i)
  unfolding end_op
  end-IsSound t i lt e = elim (Bool-cases (s.outstanding == 1)) [
    | inl last ↦
        subst (λ vs. IsSound start t vs)
          (sym (no_ops (drop_at us i) (omega (arith, one last, length-drop_at us i lt))))
          (closed-IsSound (commit closing) t (commit-AllOrNothing start closing closing-Ready)
            (Keeps-commit 0 closing refl) (rw (idle, last) at e))
    | inr more ↦
        (let same : record s { outstanding = s.outstanding - 1 } ≡ t = ground (arith, idle) in
          subst (λ u. IsSound start u (drop_at us i)) same (ended-IsSound i lt))
  ]
    where
      one : (s.outstanding == 1) ≡ true → length us ≡ 1
      one h = ground (arith, open_ops)

      no_ops : (vs : Used) → length vs ≡ 0 → vs ≡ []
      no_ops [] h = refl
      no_ops (v ∷ vs) h = absurd (omega arith)

-- Every step of the callers keeps the log sound: the space that `begin_op` reserves is never used up,
-- and after the last `end_op` the log is empty and the disk agrees with the buffers.
pub OpStep-IsSound :
    (start : ℕ) {s t : Log} {us vs : Used}
    → IsSound start s us
    → OpStep start s us t vs
    → IsSound start t vs
OpStep-IsSound start {s} {t} {us} sound (begins e) = begin-IsSound start s us sound t e
OpStep-IsSound start {s} {t} {us} sound (writes i b w h few e) =
    write-IsSound start s us sound t i b w h few e
OpStep-IsSound start {s} {t} {us} sound (ends i lt e) = end-IsSound start s us sound t i lt e
