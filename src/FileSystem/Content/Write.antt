-- ===== src/FileSystem/Content/Write.antt =====
-- The loop of `writei`.
use csci_315_operating_sytem.Prelude.{
  ℕ, zero, suc, ◌+◌, ◌-◌, ◌*◌, ◌/◌, ◌%◌, ◌<◌, ◌≤◌, ◌≡◌, ◌⊎◌, refl, arith, Bool, true, false, ◌&&◌,
  Option, some, ◌==◌, ltb, leb, if◌then◌else◌, inl, inr, Bool-cases, update, sym, subst,
}
use csci_315_operating_sytem.FileSystem.Volume.{bsize, maxfile, Volume, is_used}
use csci_315_operating_sytem.FileSystem.Content.{Inode, Mapped, bmap, piece, Moved, write_loop}
use csci_315_operating_sytem.FileSystem.Content.Grow.{Maps}
use csci_315_operating_sytem.FileSystem.Content.Map.{bmap-Maps}
use csci_315_operating_sytem.FileSystem.Content.Pieces.{piece-IsPiece}
use csci_315_operating_sytem.FileSystem.Content.Round.{Replaced, Extends-Replaced, round-Replaced}

-- What a loop of `writei` comes to: the first `wrote` bytes of `src` are in the file, all of them unless
-- a `copyin` fails or the disk is full.
pub record Writes (copyin : ℕ → ℕ → Bool) (src : ℕ → ℕ) (v : Volume) (ip : Inode) (start n : ℕ)
    (m : Moved) : Type 0 where
  pub wrote : ℕ
  pub counted : m.count ≡ some wrote
  pub off : m.off ≡ start + wrote
  pub at_most : wrote ≤ n
  pub replaced : Replaced src v ip start wrote m.vol m.ip
  pub why :
      (wrote ≡ n)
      ⊎ (((k : ℕ) × (p : ℕ) × (copyin k p ≡ false))
          ⊎ ((b : ℕ) → b < m.vol.blocks → is_used m.vol b ≡ true))

module _ (copyin : ℕ → ℕ → Bool) (src : ℕ → ℕ) (v : Volume) (ip : Inode) (start n : ℕ)
    (limit : start + n ≤ maxfile * bsize) where
  abbrev pub Result : Option Moved → Type 0
  Result r = (m : Moved) × (r ≡ some m) × Writes copyin src v ip start n m

  stopped :
      (tot off : ℕ) (w : Volume) (jp : Inode)
      → off ≡ start + tot
      → tot ≤ n
      → Replaced src v ip start tot w jp
      → (tot ≡ n)
        ⊎ (((k : ℕ) × (p : ℕ) × (copyin k p ≡ false))
            ⊎ ((b : ℕ) → b < w.blocks → is_used w b ≡ true))
      → Result (some (record { count = some tot; vol = w; ip = jp; off = off; got = src }))
  stopped tot off w jp eo le r why = (
    _,
    refl,
    record { wrote = tot; counted = refl; off = eo; at_most = le; replaced = r; why = why },
  )

  -- A round, and the loop from there on.
  write_round :
      (f tot off : ℕ) (w : Volume) (jp : Inode) (m : Mapped)
      → off ≡ start + tot
      → tot < n
      → Replaced src v ip start tot w jp
      → bmap w jp (off / bsize) ≡ some m
      → Maps w jp (off / bsize) m
      → ((x : Volume)
          → Replaced src v ip start (tot + piece n tot off) x m.ip
          → Result
              (write_loop copyin src n f (tot + piece n tot off) (off + piece n tot off) x m.ip))
      → Result (write_loop copyin src n (suc f) tot off w jp)
  unfolding write_loop
  write_round f tot off w jp m eo lt r em maps rest =
      rw (more, write_loop)
        (rw (em, write_loop)
          (elim (Bool-cases (m.addr == 0)) [
            | inl full ↦
                rw (full, write_loop)
                  (stopped tot off m.vol m.ip eo (omega arith) mapped
                    (inr (inr (maps.full (ground arith)))))
            | inr there ↦
                rw (there, write_loop)
                  (elim (Bool-cases (copyin tot (piece n tot off))) [
                    | inr fails ↦
                        rw (fails, write_loop)
                          (stopped tot off m.vol m.ip eo (omega arith) mapped
                            (inr (inl (tot, piece n tot off, fails))))
                    | inl copied ↦
                        rw (copied, write_loop)
                          (subst
                            (λ b. Result (
                              write_loop copyin src n f (tot + piece n tot off)
                                (off + piece n tot off)
                                (record m.vol {
                                  block = update m.vol.block b (λ a.
                                      if leb (off % bsize) a
                                        && ltb a (off % bsize + piece n tot off)
                                      then src (tot + (a - off % bsize))
                                      else m.vol.block b a);
                                })
                                m.ip))
                            (sym maps.address)
                            (rest _ (
                              round-Replaced src v ip start n tot off (piece n tot off) w jp m eo
                                (piece-IsPiece n tot off lt) limit r maps
                                (λ z. ground (arith, maps.address, there)))))
                  ])
          ]))
    where
      more : ltb tot n ≡ true
      more = ground arith

      mapped : Replaced src v ip start tot m.vol m.ip
      mapped = Extends-Replaced src v ip start tot w m.vol jp m.ip (omega arith) r maps.extends

  pub write_loop-Writes :
      (f tot off : ℕ) (w : Volume) (jp : Inode)
      → off ≡ start + tot
      → tot ≤ n
      → n ≤ tot + f
      → Replaced src v ip start tot w jp
      → Result (write_loop copyin src n f tot off w jp)
  unfolding write_loop
  write_loop-Writes zero tot off w jp eo le enough r =
      stopped tot off w jp eo le r (inl (omega arith))
  write_loop-Writes (suc f) tot off w jp eo le enough r = elim (Bool-cases (ltb tot n)) [
    | inr over ↦ rw (over, write_loop) (stopped tot off w jp eo le r (inl (ground arith)))
    | inl more ↦
        (let lt : tot < n = ground arith in
          let (m, em, maps) = bmap-Maps w jp (off / bsize) (omega (arith, lt, limit, eo)) r.file in
          let q = piece-IsPiece n tot off lt in
          write_round f tot off w jp m eo lt r em maps (λ x rx.
            write_loop-Writes f (tot + piece n tot off) (off + piece n tot off) x m.ip (omega arith)
              q.asked (omega (arith, enough, q.some_bytes)) rx))
  ]
