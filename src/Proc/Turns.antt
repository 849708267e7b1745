-- ===== src/Proc/Turns.antt =====
-- A pass of the scheduler of kernel/proc.c over the whole table.
use csci_315_operating_sytem.Prelude.{
  ℕ, zero, suc, ◌+◌, ◌<◌, ◌≤◌, ◌≡◌, ◌⊎◌, refl, arith, Bool, true, false, ltb, if◌then◌else◌, inl,
  inr, Bool-cases, update, update_self, fun_ext, ap, ◌∙◌, sym, ◌==◌,
}
use csci_315_operating_sytem.Proc.Defs.{nproc, running, is_runnable, Proc, Kernel, ok, M}
use csci_315_operating_sytem.Proc.Wakeup.{
  Unlocked, replaced, update_same, update-update, locked, acquire-ok, slot-locked, release-ok,
  release-unchanged, over, over-zero, over-suc,
}
use csci_315_operating_sytem.Proc.Scheduler.{scheduler_loop, scheduler_pass}

-- A process that has the CPU, running and with its lock held, comes back from it with its own slot changed by
-- `turn` and the lock held.
abbrev pub ComesBack : {W : Type 0} → (ℕ → M W (Unit {0})) → (ℕ → Proc → Proc) → Type 0
ComesBack {W} switch turn =
    (i : ℕ) (k : Kernel W)
    → (k.proc i).lock ≡ true
    → (k.proc i).state ≡ running
    → switch i k ≡ ok tt (replaced i k (record (turn i (k.proc i)) { lock = true }))

-- What a pass makes of a slot.
unfoldable pub had_turn : (ℕ → Proc → Proc) → ℕ → Proc → Proc
had_turn turn i p =
    if is_runnable p.state
    then record (turn i (record p { state = running; lock = true })) { lock = false }
    else p

-- Whether a runnable slot is among the `n` from `i` on.
abbrev Found : (ℕ → Proc) → (i n : ℕ) → Bool → Type 0
Found t i n b =
    ((b ≡ true) × (j : ℕ) × (i ≤ j) × (j < i + n) × (is_runnable (t j).state ≡ true))
    ⊎ ((b ≡ false) × ((j : ℕ) → i ≤ j → j < i + n → is_runnable (t j).state ≡ false))

had_turn-lock :
    (turn : ℕ → Proc → Proc) (i : ℕ) (p : Proc) → p.lock ≡ false → (had_turn turn i p).lock ≡ false
unfolding had_turn
had_turn-lock turn i p e = ground arith

module _ {W : Type 0} (switch : ℕ → M W (Unit {0})) (turn : ℕ → Proc → Proc)
    (back : ComesBack switch turn) where
  -- The turn of slot `i`.
  switch-ok :
      (i : ℕ) (k : Kernel W) (free : (k.proc i).lock ≡ false)
      → switch i (record (locked i k free) {
        proc = update (locked i k free).proc i (record (k.proc i) { state = running; lock = true });
      })
        ≡ ok tt (record (locked i k free) {
          proc =
              update
                (locked i k free).proc
                i
                (record (turn i (record (k.proc i) { state = running; lock = true })) {
                  lock = true;
                });
        })
  switch-ok i k free =
      let p = record (k.proc i) { state = running; lock = true } in
      let start = record (locked i k free) { proc = update (locked i k free).proc i p } in
      let self : start.proc i ≡ p = update_self (locked i k free).proc i p in
      back i start (ap (λ (q : Proc). q.lock) self) (ap (λ (q : Proc). q.state) self)
      ∙ ap (λ q. ok tt (replaced i start (record (turn i q) { lock = true }))) self
      ∙ ap (λ t. ok tt (record (locked i k free) { proc = t }))
          (update-update (locked i k free).proc i p _)

  runs-step :
      (n i : ℕ) (found : Bool) (k : Kernel W)
      → (k.proc i).lock ≡ false
      → is_runnable (k.proc i).state ≡ true
      → scheduler_loop switch found (suc n) i k
        ≡ scheduler_loop switch true n (i + 1) (replaced i k (had_turn turn i (k.proc i)))
  unfolding scheduler_loop had_turn
  runs-step n i found k free runs =
      let p = record (k.proc i) { state = running; lock = true } in
      rw (acquire-ok i k free, slot-locked i k free)
        (rw (runs, switch-ok i k free) (rw (release-ok i k free (turn i p)) refl))

  waits-step :
      (n i : ℕ) (found : Bool) (k : Kernel W)
      → (k.proc i).lock ≡ false
      → is_runnable (k.proc i).state ≡ false
      → scheduler_loop switch found (suc n) i k ≡ scheduler_loop switch found n (i + 1) k
  unfolding scheduler_loop
  waits-step n i found k free waits =
      rw (acquire-ok i k free, slot-locked i k free) (rw (waits, release-unchanged i k free) refl)

  abbrev Passed : (n i : ℕ) → Bool → Kernel W → Type 0
  Passed n i found k =
      (b : Bool) × (scheduler_loop switch found n i k
        ≡ ok b (record k { proc = over (had_turn turn) n i k.proc }))
      × (((found ≡ true) × (b ≡ true)) ⊎ ((found ≡ false) × Found k.proc i n b))

  runs-Found :
      (n i : ℕ) (found b : Bool) (t u : ℕ → Proc)
      → is_runnable (t i).state ≡ true
      → ((true ≡ true) × (b ≡ true)) ⊎ ((true ≡ false) × Found u (i + 1) n b)
      → ((found ≡ true) × (b ≡ true)) ⊎ ((found ≡ false) × Found t i (suc n) b)
  runs-Found n i found b t u runs (inr (bad, rest)) = absurd (let e : true ≡ false = bad in cc)
  runs-Found n i found b t u runs (inl (some_ran, e)) = elim (Bool-cases found) [
    | inl before ↦ inl (before, e)
    | inr first_one ↦ inr (first_one, inl (e, i, omega arith, omega arith, runs))
  ]

  waits-Found :
      (n i : ℕ) (found b : Bool) (k : Kernel W)
      → is_runnable (k.proc i).state ≡ false
      → ((found ≡ true) × (b ≡ true)) ⊎ ((found ≡ false) × Found k.proc (i + 1) n b)
      → ((found ≡ true) × (b ≡ true)) ⊎ ((found ≡ false) × Found k.proc i (suc n) b)
  waits-Found n i found b k waits (inl before) = inl before
  waits-Found n i found b k waits (inr (f, inl (e, j, le, lt, runs))) =
      inr (f, inl (e, j, omega (arith, le), omega (arith, lt), runs))
  waits-Found n i found b k waits (inr (f, inr (e, all))) = inr (
    f,
    inr (
      e,
      λ j le lt. elim (Bool-cases (j == i)) [
        | inl this ↦ ap (λ j. is_runnable (k.proc j).state) {x = j} {y = i} (ground arith) ∙ waits
        | inr other ↦ all j (ground arith) (omega (arith, lt))
      ],
    ),
  )

  -- The slots from a waiting one on.
  over-waits :
      (n i : ℕ) (k : Kernel W)
      → is_runnable (k.proc i).state ≡ false
      → over (had_turn turn) n (i + 1) k.proc ≡ over (had_turn turn) (suc n) i k.proc
  unfolding had_turn
  over-waits n i k waits =
      ap (over (had_turn turn) n (i + 1))
        (sym (update_same k.proc i) ∙ ap (update k.proc i) (rw waits refl))
      ∙ over-suc (had_turn turn) n i k.proc

  scheduler_loop-Passed : (n i : ℕ) (found : Bool) (k : Kernel W) → Unlocked k → Passed n i found k
  scheduler_loop-Passed zero i found k free = (
    found,
    unfold scheduler_loop in (rw (over-zero (had_turn turn) i k.proc) refl),
    elim (Bool-cases found) [
      | inl ran ↦ inl (ran, ran)
      | inr none_ran ↦ inr (none_ran, inr (none_ran, λ j le lt. absurd (omega (arith, le, lt))))
    ],
  )
  scheduler_loop-Passed (suc n) i found k free = elim (Bool-cases (is_runnable (k.proc i).state)) [
    | inl runs ↦
        (let (b, e, f) =
            scheduler_loop-Passed n (i + 1) true (replaced i k (had_turn turn i (k.proc i)))
              still in
          (
            b,
            runs-step n i found k (free i) runs
                ∙ e
                ∙ ap (λ t. ok b (record k { proc = t })) (over-suc (had_turn turn) n i k.proc),
            runs-Found n i found b k.proc (replaced i k (had_turn turn i (k.proc i))).proc runs f,
          ))
    | inr waits ↦
        (let (b, e, f) = scheduler_loop-Passed n (i + 1) found k free in
          (
            b,
            waits-step n i found k (free i) waits
                ∙ e
                ∙ ap (λ t. ok b (record k { proc = t })) (over-waits n i k waits),
            waits-Found n i found b k waits f,
          ))
  ]
    where
      still : Unlocked (replaced i k (had_turn turn i (k.proc i)))
      still j = unfold update in (ground (arith, free j, had_turn-lock turn i (k.proc i)))

  -- With no lock held, and processes that come back from the CPU with their own slot changed by `turn` and locked,
  -- a pass of the scheduler gives each runnable slot of the table one turn, as running and with its lock held,
  -- changes nothing else, and leaves no lock held. It reports whether any slot was runnable.
  pub scheduler_pass-turns :
      (k : Kernel W)
      → Unlocked k
      → (b : Bool) × (scheduler_pass switch k
          ≡ ok b (record k {
            proc = λ j. if ltb j nproc then had_turn turn j (k.proc j) else k.proc j;
          }))
        × (((b ≡ true) × (j : ℕ) × (j < nproc) × (is_runnable (k.proc j).state ≡ true))
            ⊎ ((b ≡ false) × ((j : ℕ) → j < nproc → is_runnable (k.proc j).state ≡ false)))
  unfolding scheduler_pass
  scheduler_pass-turns k free =
      let (b, e, f) = scheduler_loop-Passed nproc 0 false k free in
      (b, e ∙ ap (λ t. ok b (record k { proc = t })) (fun_ext (λ j. ground arith)), from_start b f)
    where
      from_start :
          (b : Bool)
          → ((false ≡ true) × (b ≡ true)) ⊎ ((false ≡ false) × Found k.proc 0 nproc b)
          → ((b ≡ true) × (j : ℕ) × (j < nproc) × (is_runnable (k.proc j).state ≡ true))
            ⊎ ((b ≡ false) × ((j : ℕ) → j < nproc → is_runnable (k.proc j).state ≡ false))
      from_start b (inl (bad, e)) = absurd (let e : false ≡ true = bad in cc)
      from_start b (inr (z, inl (e, j, le, lt, runs))) = inl (e, j, lt, runs)
      from_start b (inr (z, inr (e, all))) = inr (e, λ j lt. all j (omega arith) lt)
