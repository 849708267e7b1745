-- ===== src/Checkpoint/Restore/Pipes.antt =====
-- The second pass of `restore_proc`: pairs of pipe entries become pipes.
use csci_315_operating_sytem.Prelude.{
  ℕ, zero, suc, ◌+◌, ◌-◌, ◌<◌, ◌≤◌, ◌≡◌, ◌≢◌, refl, arith, Bool, true, false, ◌&&◌, Option, none,
  some, ◌==◌, ltb, inl, inr, ◌⊎◌, Bool-cases, Option-cases, update, update_self, update_ne, ap, ◌∙◌,
  sym, subst,
}
use csci_315_operating_sytem.Proc.Defs.{nofile}
use csci_315_operating_sytem.Checkpoint.Defs.{fd_pipe, is_pipe, OpenFile, CkptFd}
use csci_315_operating_sytem.Checkpoint.Capture.Pairs.{Paired}
use csci_315_operating_sytem.Checkpoint.Restore.Defs.{
  Restored, same_id, is_free, find_mate, pipe_end, choose_end, join_ends, restore_pipe,
  restore_pipes,
}

same_id_iff : (a b : Option ℕ) → ((same_id a b ≡ true) → (a ≡ b)) × ((a ≡ b) → (same_id a b ≡ true))
unfolding same_id
same_id_iff none none = (λ _. refl, λ _. refl)
same_id_iff none (some b) = (λ e. cc, λ e. cc)
same_id_iff (some a) none = (λ e. cc, λ e. cc)
same_id_iff (some a) (some b) = (λ e. ground arith, λ e. ground arith)

module _ (fds : ℕ → CkptFd) (ofile : ℕ → Option OpenFile) (i : ℕ) where
  -- Descriptor `j` can be the other end of descriptor `i`.
  abbrev IsMate : ℕ → Type 0
  IsMate j = (is_pipe (fds j).type ≡ true) × ((fds j).pipe_id ≡ (fds i).pipe_id) × (ofile j ≡ none)

  find_mate-some :
      (n j : ℕ) {k : ℕ} → find_mate fds ofile i n j ≡ some k → IsMate k × (j ≤ k) × (k < j + n)
  unfolding find_mate
  find_mate-some zero j e = absurd (cc)
  find_mate-some (suc n) j {k} e =
      elim (Bool-cases
        (is_pipe (fds j).type && (same_id (fds j).pipe_id (fds i).pipe_id && is_free (ofile j)))) [
          | inl hit ↦ found (ground arith) hit
          | inr miss ↦
              (let rest = find_mate-some n (j + 1) {k = k} (rw miss at e) in
                (rest.0, omega arith, omega arith))
        ]
    where
      free : (o : Option OpenFile) → is_free o ≡ true → o ≡ none
      free none h = refl
      free (some f) h = cc

      found :
          j ≡ k
          → (is_pipe (fds j).type && (same_id (fds j).pipe_id (fds i).pipe_id && is_free (ofile j)))
            ≡ true
          → IsMate k × (j ≤ k) × (k < j + suc n)
      found same hit =
          subst (λ m. IsMate m × (j ≤ m) × (m < j + suc n)) same
            (
              (
                ground arith,
                (same_id_iff (fds j).pipe_id (fds i).pipe_id).0 (ground arith),
                free (ofile j) (ground arith),
              ),
              omega arith,
              omega arith,
            )

  find_mate-none : (n j k : ℕ) → find_mate fds ofile i n j ≡ none → j ≤ k → k < j + n → ¬ IsMate k
  unfolding find_mate
  find_mate-none zero j k e le lt m = omega arith
  find_mate-none (suc n) j k e le lt m = elim (Bool-cases (k == j)) [
    | inl here ↦
        (let same : k ≡ j = ground arith in
          let mj : IsMate j = subst IsMate same m in
          ground (arith, (same_id_iff (fds j).pipe_id (fds i).pipe_id).1 mj.1, mj))
    | inr later ↦ find_mate-none n (j + 1) k (ground arith) (ground arith) (omega arith) m
  ]

module _ (pairs : ℕ → Bool) (enough : (i : ℕ) → i < nofile → pairs i ≡ true) (fds : ℕ → CkptFd)
    (v : Paired fds) (base : ℕ → Option OpenFile) where
  -- What a slot holds after the second pass has filled it.
  pub record IsEnd (i next : ℕ) (f : OpenFile) : Type 0 where
    pub typed : f.type ≡ fd_pipe
    pub readable : f.readable ≡ (fds i).readable
    pub writable : f.writable ≡ (fds i).writable
    pub numbered : f.pipe < next

  -- The table when descriptors below `m` have been looked at.
  pub record Joined (m : ℕ) (r : Restored) : Type 0 where
    pub others : (i : ℕ) → i < nofile → is_pipe (fds i).type ≡ false → r.ofile i ≡ base i
    pub filled : (i : ℕ) → i < nofile → i < m → is_pipe (fds i).type ≡ true → r.ofile i ≢ none
    pub ends :
        (i : ℕ) (f : OpenFile)
        → i < nofile
        → is_pipe (fds i).type ≡ true
        → r.ofile i ≡ some f
        → IsEnd i r.next f
    pub closed :
        (i j : ℕ)
        → i < nofile
        → j < nofile
        → is_pipe (fds i).type ≡ true
        → is_pipe (fds j).type ≡ true
        → (fds j).pipe_id ≡ (fds i).pipe_id
        → r.ofile i ≢ none
        → r.ofile j ≢ none
    pub shared :
        (i j : ℕ) (f g : OpenFile)
        → i < nofile
        → j < nofile
        → is_pipe (fds i).type ≡ true
        → is_pipe (fds j).type ≡ true
        → r.ofile i ≡ some f
        → r.ofile j ≡ some g
        → ((f.pipe ≡ g.pipe) → ((fds i).pipe_id ≡ (fds j).pipe_id))
          × (((fds i).pipe_id ≡ (fds j).pipe_id) → (f.pipe ≡ g.pipe))

  choose_end-IsEnd :
      (i p : ℕ)
      → i < nofile
      → is_pipe (fds i).type ≡ true
      → (f : OpenFile) × (choose_end (fds i) p ≡ some f) × IsEnd i (p + 1) f × (f.pipe ≡ p)
  unfolding choose_end
  choose_end-IsEnd i p lt typed = elim (v.one_way i lt typed) [
    | inl (r, w) ↦ (
      pipe_end p true,
      ground arith,
      record { typed = refl; readable = sym r; writable = sym w; numbered = omega arith },
      refl,
    )
    | inr (r, w) ↦ (
      pipe_end p false,
      ground arith,
      record { typed = refl; readable = sym r; writable = sym w; numbered = omega arith },
      refl,
    )
  ]

  -- One pair of ends is joined by a new pipe.
  module _ (m j : ℕ) (r : Restored) (q : Joined m r) (a b : OpenFile) (lt : m < j) (lj : j < nofile)
      (tm : is_pipe (fds m).type ≡ true) (tj : is_pipe (fds j).type ≡ true)
      (ids : (fds j).pipe_id ≡ (fds m).pipe_id) (free_m : r.ofile m ≡ none)
      (free_j : r.ofile j ≡ none) (ea : IsEnd m (r.next + 1) a × (a.pipe ≡ r.next))
      (eb : IsEnd j (r.next + 1) b × (b.pipe ≡ r.next)) where
    abbrev joined : Restored
    joined = record { ofile = update (update r.ofile m (some a)) j (some b); next = r.next + 1 }

    -- A slot is one of the new ends, or as before.
    data Place (k : ℕ) : Type 0 where
      new_end :
          (f : OpenFile)
          → joined.ofile k ≡ some f
          → IsEnd k (r.next + 1) f × (f.pipe ≡ r.next)
          → (fds k).pipe_id ≡ (fds m).pipe_id
          → (k ≡ m) ⊎ (k ≡ j)
          → Place k
      old : joined.ofile k ≡ r.ofile k → k ≢ m → k ≢ j → Place k

    place : (k : ℕ) → Place k
    place k = elim (Bool-cases (k == j)) [
      | inl at_j ↦
          (let same : j ≡ k = ground arith in
            subst Place same
              (new_end b (update_self (update r.ofile m (some a)) j (some b)) eb ids (inr refl)))
      | inr not_j ↦ elim (Bool-cases (k == m)) [
        | inl at_m ↦
            (let same : m ≡ k = ground arith in
              subst Place same (
                new_end a
                  (update_ne (update r.ofile m (some a)) j m (some b) (omega arith)
                    ∙ update_self r.ofile m (some a))
                  ea refl (inl refl)))
        | inr not_m ↦
            old
              (update_ne (update r.ofile m (some a)) j k (some b) (ground arith)
                ∙ update_ne r.ofile m k (some a) (ground arith))
              (ground arith) (ground arith)
      ]
    ]

    -- An old pipe slot that is filled has another id than the new ends.
    old_id :
        (k : ℕ)
        → k < nofile
        → is_pipe (fds k).type ≡ true
        → r.ofile k ≢ none
        → (fds k).pipe_id ≢ (fds m).pipe_id
    old_id k lk tk full e = q.closed k m lk (omega arith) tk tm (sym e) full free_m

    joined-Joined : Joined (suc m) joined
    joined-Joined = record {
      others = λ i li ti. others i li ti (place i);
      filled = λ i li le ti. filled i li le ti (place i);
      ends = λ i f li ti e. ends i f li ti e (place i);
      closed = λ i k li lk ti tk e full. closed i k li lk ti tk e full (place i) (place k);
      shared = λ i k f g li lk ti tk ei ek. shared i k f g li lk ti tk ei ek (place i) (place k);
    }
      where
        others :
            (i : ℕ) → i < nofile → is_pipe (fds i).type ≡ false → Place i → joined.ofile i ≡ base i
        others i li ti (new_end f e h ids' (inl same)) =
            (let bad : true ≡ false =
                sym tm ∙ ap (λ (k : ℕ). is_pipe (fds k).type) (sym same) ∙ ti in
              cc)
        others i li ti (new_end f e h ids' (inr same)) =
            (let bad : true ≡ false =
                sym tj ∙ ap (λ (k : ℕ). is_pipe (fds k).type) (sym same) ∙ ti in
              cc)
        others i li ti (old e nm nj) = e ∙ q.others i li ti

        filled :
            (i : ℕ)
            → i < nofile
            → i < suc m
            → is_pipe (fds i).type ≡ true
            → Place i
            → joined.ofile i ≢ none
        filled i li le ti (new_end f e h ids' at) n = cc
        filled i li le ti (old e nm nj) n = q.filled i li (omega arith) ti (sym e ∙ n)

        ends :
            (i : ℕ) (f : OpenFile)
            → i < nofile
            → is_pipe (fds i).type ≡ true
            → joined.ofile i ≡ some f
            → Place i
            → IsEnd i (r.next + 1) f
        ends i f li ti e (new_end f' e' h ids' at) =
            (let same : some f' ≡ some f = sym e' ∙ e in
              let same' : f' ≡ f = cc in subst (IsEnd i (r.next + 1)) same' h.0)
        ends i f li ti e (old e' nm nj) =
            (let h : IsEnd i r.next f = q.ends i f li ti (sym e' ∙ e) in
              record {
                typed = h.typed;
                readable = h.readable;
                writable = h.writable;
                numbered = omega (arith, h.numbered);
              })

        closed :
            (i k : ℕ)
            → i < nofile
            → k < nofile
            → is_pipe (fds i).type ≡ true
            → is_pipe (fds k).type ≡ true
            → (fds k).pipe_id ≡ (fds i).pipe_id
            → joined.ofile i ≢ none
            → Place i
            → Place k
            → joined.ofile k ≢ none
        closed i k li lk ti tk e full pi (new_end f e' h ids' at) n = cc
        closed i k li lk ti tk e full (old ei ni nj) (old ek mk jk) n =
            q.closed i k li lk ti tk e (λ z. full (ei ∙ z)) (sym ek ∙ n)
        closed i k li lk ti tk e full (new_end f e' h ids' at) (old ek mk jk) n =
            no_third (v.no_third m j k (omega arith) lj lk tm tj tk ids (e ∙ ids'))
          where
            no_third : ((m ≡ j) ⊎ ((m ≡ k) ⊎ (j ≡ k))) → ⊥
            no_third (inl x) = omega arith
            no_third (inr (inl x)) = mk (sym x)
            no_third (inr (inr x)) = jk (sym x)

        shared :
            (i k : ℕ) (f g : OpenFile)
            → i < nofile
            → k < nofile
            → is_pipe (fds i).type ≡ true
            → is_pipe (fds k).type ≡ true
            → joined.ofile i ≡ some f
            → joined.ofile k ≡ some g
            → Place i
            → Place k
            → ((f.pipe ≡ g.pipe) → ((fds i).pipe_id ≡ (fds k).pipe_id))
              × (((fds i).pipe_id ≡ (fds k).pipe_id) → (f.pipe ≡ g.pipe))
        shared i k f g li lk ti tk ei ek (new_end f' e' h ids' at) (new_end g' e'' h' ids'' at') =
            (let sf : some f' ≡ some f = sym e' ∙ ei in
              let sg : some g' ≡ some g = sym e'' ∙ ek in
              (λ _. ids' ∙ sym ids'', λ _. ground (arith, sf, sg, h.1, h'.1)))
        shared i k f g li lk ti tk ei ek (old e' mi ji) (old e'' mk jk) =
            q.shared i k f g li lk ti tk (sym e' ∙ ei) (sym e'' ∙ ek)
        shared i k f g li lk ti tk ei ek (new_end f' e' h ids' at) (old e'' mk jk) =
            (let sf : some f' ≡ some f = sym e' ∙ ei in
              let full : r.ofile k ≡ some g = sym e'' ∙ ek in
              (
                λ e. absurd (ground (arith, sf, h.1, (q.ends k g lk tk full).numbered)),
                λ e. absurd (
                    old_id k lk tk (λ z. (let bad : some g ≡ none = sym full ∙ z in cc))
                      (sym e ∙ ids')),
              ))
        shared i k f g li lk ti tk ei ek (old e' mi ji) (new_end g' e'' h ids' at) =
            (let sg : some g' ≡ some g = sym e'' ∙ ek in
              let full : r.ofile i ≡ some f = sym e' ∙ ei in
              (
                λ e. absurd (ground (arith, sg, h.1, (q.ends i f li ti full).numbered)),
                λ e. absurd (
                    old_id i li ti (λ z. (let bad : some f ≡ none = sym full ∙ z in cc))
                      (e ∙ ids')),
              ))

  skipped-Joined :
      (m : ℕ) (r : Restored)
      → Joined m r
      → (is_pipe (fds m).type ≡ true → r.ofile m ≢ none)
      → Joined (suc m) r
  skipped-Joined m r q here = record {
    others = q.others;
    filled = λ i li le ti. elim (Bool-cases (i == m)) [
      | inl same ↦
          (let e : m ≡ i = ground arith in
            subst (λ k. (is_pipe (fds k).type ≡ true) → r.ofile k ≢ none) e here ti)
      | inr before ↦ q.filled i li (ground arith) ti
    ];
    ends = q.ends;
    closed = q.closed;
    shared = q.shared;
  }

  -- A pipe entry that is not yet restored finds its mate further on.
  mate_found :
      (m : ℕ) (r : Restored)
      → m < nofile
      → Joined m r
      → is_pipe (fds m).type ≡ true
      → r.ofile m ≡ none
      → (j : ℕ) × (find_mate fds r.ofile m (nofile - (m + 1)) (m + 1) ≡ some j)
  mate_found m r lt q tm free =
      elim (Option-cases (find_mate fds r.ofile m (nofile - (m + 1)) (m + 1))) [
        | inr hit ↦ hit
        | inl miss ↦ absurd (contra miss (v.mate m lt tm))
      ]
    where
      contra :
          find_mate fds r.ofile m (nofile - (m + 1)) (m + 1) ≡ none
          → ((j : ℕ) × (j < nofile)
              × (j ≢ m)
              × (is_pipe (fds j).type ≡ true)
              × ((fds j).pipe_id ≡ (fds m).pipe_id))
          → ⊥
      contra miss (j, lj, ne, tj, ids) = elim (Option-cases (r.ofile j)) [
        | inr (g, full) ↦
            q.closed j m lj lt tj tm (sym ids) (λ z. (let bad : some g ≡ none = sym full ∙ z in cc))
              free
        | inl empty ↦ elim (Bool-cases (ltb j m)) [
          | inl before ↦ q.filled j lj (ground arith) tj empty
          | inr after ↦
              find_mate-none fds r.ofile m (nofile - (m + 1)) (m + 1) j miss (ground arith)
                (omega arith) (tj, ids, empty)
        ]
      ]

  join_ends-Joined :
      (m j : ℕ) (r : Restored)
      → m < nofile
      → Joined m r
      → is_pipe (fds m).type ≡ true
      → r.ofile m ≡ none
      → find_mate fds r.ofile m (nofile - (m + 1)) (m + 1) ≡ some j
      → (s : Restored) × (join_ends pairs fds m j r ≡ some s) × Joined (suc m) s
  unfolding join_ends
  join_ends-Joined m j r lt q tm free hit =
      let ((tj, ids, free_j), lo, hi) =
        find_mate-some fds r.ofile m (nofile - (m + 1)) (m + 1) hit in
      let (a, ca, ea, na) = choose_end-IsEnd m r.next lt tm in
      let (b, cb, eb, nb) = choose_end-IsEnd j r.next (omega arith) tj in
      (
        record { ofile = update (update r.ofile m (some a)) j (some b); next = r.next + 1 },
        ground (arith, enough m lt, ca, cb),
        joined-Joined m j r q a b (omega arith) (omega arith) tm tj ids free free_j (ea, na)
            (eb, nb),
      )

  restore_pipe-Joined :
      (m : ℕ) (r : Restored)
      → m < nofile
      → Joined m r
      → (s : Restored) × (restore_pipe pairs fds m r ≡ some s) × Joined (suc m) s
  unfolding restore_pipe
  restore_pipe-Joined m r lt q = elim (Bool-cases (is_pipe (fds m).type)) [
    | inr other ↦ (
      r,
      ground (arith, other),
      skipped-Joined m r q (λ ti. (let bad : true ≡ false = sym ti ∙ other in cc)),
    )
    | inl tm ↦ elim (Option-cases (r.ofile m)) [
      | inr (f, full) ↦ (
        r,
        ground (arith, full),
        skipped-Joined m r q (λ ti z. (let bad : some f ≡ none = sym full ∙ z in cc)),
      )
      | inl free ↦
          (let (j, hit) = mate_found m r lt q tm free in
            let (s, e, q') = join_ends-Joined m j r lt q tm free hit in
            (s, ground (arith, tm, free, hit, e), q'))
    ]
  ]

  -- With a pipe for every pair the second pass ends with every pipe entry restored.
  pub restore_pipes-Joined :
      (n m : ℕ) (r : Restored)
      → m + n ≡ nofile
      → Joined m r
      → (s : Restored) × (restore_pipes pairs fds n m r ≡ some s) × Joined nofile s
  unfolding restore_pipes
  restore_pipes-Joined zero m r e q = (r, refl, subst (λ (k : ℕ). Joined k r) (omega arith) q)
  restore_pipes-Joined (suc n) m r e q =
      let (s, es, qs) = restore_pipe-Joined m r (omega arith) q in
      let qs' : Joined (m + 1) s = subst (λ (k : ℕ). Joined k s) (omega arith) qs in
      let (t, et, qt) = restore_pipes-Joined n (m + 1) s (omega arith) qs' in
      (t, rw (es, restore_pipes) et, qt)
