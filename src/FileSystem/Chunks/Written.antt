-- ===== src/FileSystem/Chunks/Written.antt =====
-- What `filewrite` of an inode leaves.
use csci_315_operating_sytem.Prelude.{
  ℕ, zero, suc, ◌+◌, ◌-◌, ◌*◌, ◌^◌, ◌<◌, ◌≤◌, ◌≡◌, ◌⊎◌, refl, arith, Bool, true, false, ◌&&◌,
  Option, some, none, ◌==◌, ltb, leb, if◌then◌else◌, inl, inr, Bool-cases, u32, ap, ◌∙◌, sym, subst,
}
use csci_315_operating_sytem.FileSystem.Volume.{bsize, maxfile, Volume, is_used}
use csci_315_operating_sytem.FileSystem.Content.{Inode, Moved, writei}
use csci_315_operating_sytem.FileSystem.Content.Slots.{byte_at, IsFile, IsWhole}
use csci_315_operating_sytem.FileSystem.Content.File.{Wrote, Ends, writei-Ends}
use csci_315_operating_sytem.FileSystem.Chunks.{
  chunk, Writing, advanced, is_count, chunks_loop, write_result, filewrite_inode, untouched,
  filewrite,
}

-- Why a write falls short.
abbrev pub Short : (copyin : ℕ → ℕ → Bool) → (start n : ℕ) → Volume → Type 0
Short copyin start n w =
    (maxfile * bsize < start + n)
    ⊎ (((k : ℕ) × (p : ℕ) × (copyin k p ≡ false)) ⊎ ((b : ℕ) → b < w.blocks → is_used w b ≡ true))

-- The first `total` bytes are in the file, and the offset is behind them: all `n` of them when `n` is returned.
pub record HasWritten (copyin : ℕ → ℕ → Bool) (src : ℕ → ℕ) (v : Volume) (ip : Inode) (start n : ℕ)
    (r : Option ℕ) (w : Writing) : Type 0 where
  pub total : ℕ
  pub result : Wrote src v ip start total w.vol w.ip
  pub offset : w.off ≡ start + total
  pub outcome :
      ((r ≡ some n) × (total ≡ n)) ⊎ ((r ≡ none) × (total < n) × Short copyin start n w.vol)

module _ (copyin : ℕ → ℕ → Bool) (src : ℕ → ℕ) (v : Volume) (ip : Inode) (start n : ℕ)
    (no_wrap : start + n < 2 ^ 32) where
  -- One chunk behind the others.
  join-Wrote :
      (i c : ℕ) (w x : Volume) (jp kp : Inode)
      → Wrote src v ip start i w jp
      → Wrote (λ k. src (i + k)) w jp (start + i) c x kp
      → Wrote src v ip start (i + c) x kp
  join-Wrote i c w x jp kp r q = record {
    file = q.file;
    whole = q.whole;
    size = ground (arith, q.size, r.size);
    bytes = λ a lt. q.bytes a lt ∙ joined a lt;
  }
    where
      joined :
          (a : ℕ)
          → a < maxfile * bsize
          → (if leb (start + i) a && ltb a (start + i + c)
              then src (i + (a - (start + i)))
              else byte_at w jp a)
            ≡ (if leb start a && ltb a (start + (i + c)) then src (a - start) else byte_at v ip a)
      joined a lt = elim (Bool-cases (leb (start + i) a)) [
        | inl later ↦
            (let place : i + (a - (start + i)) ≡ a - start = ground arith in
              ground (arith, ap src place, r.bytes a lt))
        | inr before ↦ ground (arith, r.bytes a lt)
      ]

  -- What the loop is to come to from here.
  abbrev Comes : (f i off : ℕ) → Volume → Inode → Type 0
  Comes f i off w jp =
      (z : Writing) × (chunks_loop copyin src n f i off w jp ≡ some z)
      × HasWritten copyin src v ip start n (write_result n z) z

  part-HasWritten :
      (i off : ℕ) (w : Volume) (jp : Inode) (m : Moved)
      → off ≡ start + i
      → i < n
      → is_count m.count (chunk n i) ≡ false
      → Wrote src v ip start i w jp
      → Ends (λ k m. copyin (i + k) m) (λ k. src (i + k)) w jp off (chunk n i) m
      → HasWritten copyin src v ip start n none
          (record { i = i; off = advanced off m.count; vol = m.vol; ip = m.ip })
  part-HasWritten i off w jp m eo lt part r e = record {
    total = i + e.wrote;
    result =
        join-Wrote i e.wrote w m.vol jp m.ip r
          (subst (λ o. Wrote (λ k. src (i + k)) w jp o e.wrote m.vol m.ip) eo e.result);
    offset = ap (advanced off) e.counted ∙ omega (arith, eo, no_wrap, e.at_most, fits);
    outcome = inr (
      refl,
      ground (arith, part, ap (λ c. is_count c (chunk n i)) e.counted, e.at_most, fits),
      elim e.why [
        | inl whole ↦
            absurd (ground (arith, part, ap (λ c. is_count c (chunk n i)) e.counted, whole))
        | inr (inl (k, p, fails)) ↦ inr (inl (i + k, p, fails))
        | inr (inr full) ↦ inr (inr full)
      ],
    );
  }
    where
      fits : i + chunk n i ≤ n
      fits = ground arith

  none-HasWritten :
      (i off : ℕ) (w : Volume) (jp : Inode) (m : Moved)
      → off ≡ start + i
      → i < n
      → Wrote src v ip start i w jp
      → (jp.size < off) ⊎ (maxfile * bsize < off + chunk n i)
      → m.count ≡ none
      → m.vol ≡ w
      → m.ip ≡ jp
      → HasWritten copyin src v ip start n none
          (record { i = i; off = advanced off m.count; vol = m.vol; ip = m.ip })
  none-HasWritten i off w jp m eo lt r why count same_vol same_ip = record {
    total = i;
    result =
        subst (λ w. Wrote src v ip start i w m.ip) (sym same_vol)
          (subst (Wrote src v ip start i w) (sym same_ip) r);
    offset = ap (advanced off) count ∙ eo;
    outcome = inr (
      refl,
      omega arith,
      inl (elim why [
        | inl past ↦ absurd (ground (arith, r.size, past, eo))
        | inr large ↦ ground (arith, eo, large)
      ]),
    );
  }

  chunk_round :
      (f i off : ℕ) (w : Volume) (jp : Inode) (m : Moved)
      → off ≡ start + i
      → i < n
      → Wrote src v ip start i w jp
      → writei (λ k m. copyin (i + k) m) (λ k. src (i + k)) w jp off (chunk n i) ≡ some m
      → ((off ≤ jp.size)
          × (off + chunk n i ≤ maxfile * bsize)
          × Ends (λ k m. copyin (i + k) m) (λ k. src (i + k)) w jp off (chunk n i) m)
        ⊎ (((jp.size < off) ⊎ (maxfile * bsize < off + chunk n i))
            × (m.count ≡ none)
            × (m.vol ≡ w)
            × (m.ip ≡ jp))
      → ((o : ℕ)
          → o ≡ start + (i + chunk n i)
          → Wrote src v ip start (i + chunk n i) m.vol m.ip
          → Comes f (i + chunk n i) o m.vol m.ip)
      → Comes (suc f) i off w jp
  unfolding chunks_loop
  chunk_round f i off w jp m eo lt r em res rest =
      let more : ltb i n ≡ true = ground arith in
      rw (more, chunks_loop)
        (rw (em, chunks_loop)
          (elim (Bool-cases (is_count m.count (chunk n i))) [
            | inr part ↦
                rw (part, chunks_loop)
                  (
                    _,
                    refl,
                    subst
                        (λ o.
                          HasWritten copyin src v ip start n o
                            (record { i = i; off = advanced off m.count; vol = m.vol; ip = m.ip }))
                        (sym not_all)
                        (elim res [
                          | inl (le, limit, e) ↦ part-HasWritten i off w jp m eo lt part r e
                          | inr (why, count, same_vol, same_ip) ↦
                              none-HasWritten i off w jp m eo lt r why count same_vol same_ip
                        ]),
                  )
            | inl all ↦
                rw (all, chunks_loop)
                  (elim res [
                    | inr (why, count, same_vol, same_ip) ↦ absurd (
                        let bad = sym (ap (λ c. is_count c (chunk n i)) count) ∙ all in
                        ground (arith, bad))
                    | inl (le, limit, e) ↦
                        (let whole : e.wrote ≡ chunk n i =
                            is_equal (sym (ap (λ c. is_count c (chunk n i)) e.counted) ∙ all) in
                          rest (advanced off m.count)
                            (ap (advanced off) e.counted ∙ onward e.wrote whole)
                            (subst (λ c. Wrote src v ip start (i + c) m.vol m.ip) whole
                              (join-Wrote i e.wrote w m.vol jp m.ip r (
                                subst (λ o. Wrote (λ k. src (i + k)) w jp o e.wrote m.vol m.ip) eo
                                  e.result))))
                  ])
          ]))
    where
      not_all : (if i == n then some n else none) ≡ none
      not_all = ground arith

      is_equal : {a b : ℕ} → (a == b) ≡ true → a ≡ b
      is_equal e = ground arith

      onward : (c : ℕ) → c ≡ chunk n i → u32 (off + c) ≡ start + (i + chunk n i)
      onward c e = ground (arith, eo, no_wrap)

  chunks_loop-HasWritten :
      (f i off : ℕ) (w : Volume) (jp : Inode)
      → off ≡ start + i
      → i ≤ n
      → n ≤ i + f
      → Wrote src v ip start i w jp
      → (z : Writing) × (chunks_loop copyin src n f i off w jp ≡ some z)
        × HasWritten copyin src v ip start n (write_result n z) z
  unfolding chunks_loop
  chunks_loop-HasWritten zero i off w jp eo le enough r = (
    _,
    refl,
    record { total = i; result = r; offset = eo; outcome = inl (ground arith, omega arith) },
  )
  chunks_loop-HasWritten (suc f) i off w jp eo le enough r = elim (Bool-cases (ltb i n)) [
    | inr over ↦
        rw (over, chunks_loop)
          (
            _,
            refl,
            record {
              total = i;
              result = r;
              offset = eo;
              outcome = inl (ground arith, ground arith);
            },
          )
    | inl more ↦
        (let (m, em, res) =
            writei-Ends (λ k m. copyin (i + k) m) (λ k. src (i + k)) w jp off (chunk n i) r.file
              r.whole (ground (arith, eo, no_wrap)) in
          chunk_round f i off w jp m eo (ground arith) r em res (λ o e q.
            chunks_loop-HasWritten f (i + chunk n i) o m.vol m.ip e (ground arith)
              (ground (arith, enough)) q))
  ]

  filewrite_inode-HasWritten :
      start ≤ ip.size
      → IsFile v ip
      → IsWhole v ip
      → (r : Option ℕ) × (z : Writing) × (filewrite_inode copyin src n start v ip ≡ some (r, z))
        × HasWritten copyin src v ip start n r z
  unfolding filewrite_inode
  filewrite_inode-HasWritten le f whole =
      let (z, e, h) =
        chunks_loop-HasWritten n 0 start v ip (omega arith) (omega arith) (omega arith)
          (record { file = f; whole = whole; size = ground arith; bytes = λ a lt. ground arith }) in
      (write_result n z, z, rw (e, filewrite_inode) refl, h)

-- An offset beyond the end: the first chunk is refused.
chunks_loop-past :
    (copyin : ℕ → ℕ → Bool) (src : ℕ → ℕ) (n f start : ℕ) (v : Volume) (ip : Inode)
    → ip.size < start
    → chunks_loop copyin src n f 0 start v ip ≡ some (untouched start v ip)
unfolding chunks_loop writei
chunks_loop-past copyin src n zero start v ip past = refl
chunks_loop-past copyin src n (suc f) start v ip past = elim (Bool-cases (ltb 0 n)) [
  | inr over ↦ rw (over, chunks_loop) refl
  | inl more ↦
      (let beyond : ltb ip.size start ≡ true = ground arith in
        rw (more, chunks_loop) (rw (beyond, writei) refl))
]

-- How a write to an inode ends. A file that is not writable gives -1; an offset beyond the end gives -1, if there
-- is a byte to write; neither changes anything. Otherwise the bytes are written as far as there is room.
pub data Finish (writable : Bool) (copyin : ℕ → ℕ → Bool) (src : ℕ → ℕ) (v : Volume) (ip : Inode)
    (start n : ℕ) (r : Option ℕ) (z : Writing) : Type 0 where
  refused :
      writable ≡ false
      → r ≡ none
      → z ≡ untouched start v ip
      → Finish writable copyin src v ip start n r z
  past_end :
      writable ≡ true
      → ip.size < start
      → r ≡ (if n == 0 then some 0 else none)
      → z ≡ untouched start v ip
      → Finish writable copyin src v ip start n r z
  writes :
      writable ≡ true
      → start ≤ ip.size
      → HasWritten copyin src v ip start n r z
      → Finish writable copyin src v ip start n r z

-- `filewrite` of `n` bytes to a file that stands for an inode does not panic. It returns -1 with nothing changed
-- if the file is not writable. With an offset beyond the end of the inode it changes nothing, and returns -1 if
-- there is a byte to write. Otherwise it returns `n` with all the bytes in the inode and the offset behind
-- them, or -1 with a first part of the bytes in the inode and the offset behind this part, and then the inode
-- would become too large, a `copyin` failed, or the disk is full.
pub filewrite-Finish :
    (writable : Bool) (copyin : ℕ → ℕ → Bool) (src : ℕ → ℕ) (v : Volume) (ip : Inode) (start n : ℕ)
    → start + n < 2 ^ 32
    → IsFile v ip
    → IsWhole v ip
    → (r : Option ℕ) × (z : Writing) × (filewrite writable copyin src n start v ip ≡ some (r, z))
      × Finish writable copyin src v ip start n r z
unfolding filewrite filewrite_inode
filewrite-Finish false copyin src v ip start n no_wrap f whole =
    (_, _, refl, refused refl refl refl)
filewrite-Finish true copyin src v ip start n no_wrap f whole =
    elim (Bool-cases (ltb ip.size start)) [
      | inl past ↦ (
        write_result n (untouched start v ip),
        untouched start v ip,
        ap (λ o. elim o [ none ↦ none | some w ↦ some (write_result n w, w) ])
            (chunks_loop-past copyin src n n start v ip (ground arith)),
        past_end refl (ground arith) (ground arith) refl,
      )
      | inr inside ↦
          (let (r, z, e, h) =
              filewrite_inode-HasWritten copyin src v ip start n no_wrap (ground arith) f whole in
            (r, z, e, writes refl (ground arith) h))
    ]
