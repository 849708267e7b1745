-- ===== src/FileSystem/Content/Read.antt =====
-- About `readi` of kernel/fs.c.
use csci_315_operating_sytem.Prelude.{
  ℕ, zero, suc, ◌+◌, ◌-◌, ◌/◌, ◌%◌, ◌^◌, ◌<◌, ◌≤◌, ◌≡◌, ◌≢◌, ◌⊎◌, refl, arith, Bool, false, ◌&&◌,
  some, none, ◌==◌, ltb, leb, if◌then◌else◌, inl, inr, Bool-cases, u32, ap, ◌∙◌, sym, subst,
}
use csci_315_operating_sytem.FileSystem.Volume.{bsize, maxfile, Volume}
use csci_315_operating_sytem.FileSystem.Content.{
  Inode, bmap, bmap_direct, bmap_indirect, bmap_entry, piece, Moved, read_loop, readi,
}
use csci_315_operating_sytem.FileSystem.Content.Slots.{slot, byte_at, IsWhole}
use csci_315_operating_sytem.FileSystem.Content.Pieces.{IsPiece, piece-IsPiece, byte_at-piece}

-- What a read of `n` bytes at `off` comes to: the disk and the inode do not change, and the bytes are
-- delivered, unless a `copyout` fails.
pub record Reads (copyout : ℕ → ℕ → Bool) (v : Volume) (ip : Inode) (off n : ℕ) (m : Moved)
    : Type 0 where
  pub same_vol : m.vol ≡ v
  pub same_ip : m.ip ≡ ip
  pub outcome :
      ((m.count ≡ some n) × ((k : ℕ) → k < n → m.got k ≡ byte_at v ip (off + k)))
      ⊎ ((m.count ≡ none) × ((k : ℕ) × (p : ℕ) × (copyout k p ≡ false)))

-- Where the inode has the block, `bmap` changes nothing.
bmap_present :
    (v : Volume) (ip : Inode) (n : ℕ)
    → n < maxfile
    → slot v ip n ≢ 0
    → bmap v ip n ≡ some (record { addr = slot v ip n; vol = v; ip = ip })
unfolding bmap bmap_direct bmap_indirect bmap_entry slot
bmap_present v ip n lt ne = ground arith

module _ (copyout : ℕ → ℕ → Bool) (v : Volume) (ip : Inode) (whole : IsWhole v ip) (start n : ℕ)
    (within : start + n ≤ ip.size) where
  -- The bytes that a round adds.
  round_bytes :
      (tot off p : ℕ) (got : ℕ → ℕ)
      → off ≡ start + tot
      → IsPiece n tot off p
      → slot v ip (off / bsize) ≢ 0
      → ((k : ℕ) → k < tot → got k ≡ byte_at v ip (start + k))
      → (k : ℕ) → k < tot + p
      → (if leb tot k && ltb k (tot + p)
          then v.block (slot v ip (off / bsize)) (off % bsize + (k - tot))
          else got k)
        ≡ byte_at v ip (start + k)
  round_bytes tot off p got eo q ne h k lt = elim (Bool-cases (leb tot k)) [
    | inr old ↦ ground (arith, h k)
    | inl new ↦
        (let place : start + k ≡ off + (k - tot) = ground (arith, eo) in
          let here : v.block (slot v ip (off / bsize)) (off % bsize + (k - tot))
              ≡ byte_at v ip (start + k) =
            sym (byte_at-piece v ip off (k - tot) (fits k (ground arith)) ne)
            ∙ ap (byte_at v ip) (sym place) in
          ground (arith, here))
  ]
    where
      fits : (k : ℕ) → k < tot + p → off % bsize + (k - tot) < bsize
      fits k lt = omega (arith, q.one_block, q.some_bytes)

  read_loop-Reads :
      (f tot off : ℕ) (got : ℕ → ℕ)
      → off ≡ start + tot
      → tot ≤ n
      → n ≤ tot + f
      → ((k : ℕ) → k < tot → got k ≡ byte_at v ip (start + k))
      → (m : Moved) × (read_loop copyout n f tot off got v ip ≡ some m)
        × Reads copyout v ip start n m
  unfolding read_loop
  read_loop-Reads zero tot off got eo le enough h =
      let same : tot ≡ n = omega arith in
      (
        _,
        refl,
        record {
          same_vol = refl;
          same_ip = refl;
          outcome = inl (ap some same, λ k lt. h k (omega arith));
        },
      )
  read_loop-Reads (suc f) tot off got eo le enough h = elim (Bool-cases (ltb tot n)) [
    | inr over ↦
        (let same : tot ≡ n = ground arith in
          rw (over, read_loop)
            (
              _,
              refl,
              record {
                same_vol = refl;
                same_ip = refl;
                outcome = inl (ap some same, λ k lt. h k (omega arith));
              },
            ))
    | inl more ↦
        (let lt : tot < n = ground arith in
          let ne = whole.present (off / bsize) (omega (arith, lt, within, eo)) in
          let p = piece n tot off in
          let q = piece-IsPiece n tot off lt in
          let there : (slot v ip (off / bsize) == 0) ≡ false = ground (arith, ne) in
          rw (more, read_loop)
            (rw
              (
                bmap_present v ip (off / bsize) (omega (arith, lt, within, eo, whole.small)) ne,
                read_loop,
              )
              (rw (there, read_loop)
                (elim (Bool-cases (copyout tot p)) [
                  | inr fails ↦
                      rw (fails, read_loop)
                        (
                          _,
                          refl,
                          record {
                            same_vol = refl;
                            same_ip = refl;
                            outcome = inr (refl, (tot, p, fails));
                          },
                        )
                  | inl copied ↦
                      rw (copied, read_loop)
                        (read_loop-Reads f (tot + p) (off + p) _ (omega arith) q.asked
                          (omega (arith, enough, q.some_bytes))
                          (round_bytes tot off p got eo q ne h))
                ]))))
  ]

-- The bytes that a file of this size has from `off` on, at most `n`.
abbrev pub available : (size off n : ℕ) → ℕ
available size off n = if ltb (size - off) n then size - off else n

-- `readi` does not panic. It delivers the bytes of the file from `off` on, as many of the `n` as the file
-- has, or -1 if a `copyout` fails; the disk and the inode do not change.
pub readi-Reads :
    (copyout : ℕ → ℕ → Bool) (v : Volume) (ip : Inode) (off n : ℕ)
    → IsWhole v ip
    → off + n < 2 ^ 32
    → (m : Moved) × (readi copyout v ip off n ≡ some m)
      × Reads copyout v ip off (available ip.size off n) m
unfolding readi
readi-Reads copyout v ip off n whole no_wrap = elim (Bool-cases (ltb ip.size off)) [
  | inl past ↦
      rw (past, readi)
        (
          _,
          refl,
          record {
            same_vol = refl;
            same_ip = refl;
            outcome = inl (
              ap some (let e : 0 ≡ available ip.size off n = ground arith in e),
              λ k lt. absurd (ground arith),
            );
          },
        )
  | inr inside ↦
      (let wraps : ltb (u32 (off + n)) off ≡ false = ground (arith, exact) in
        rw (inside, readi)
          (rw (wraps, readi)
            (subst
              (λ c.
                (m : Moved) × (read_loop copyout c c 0 off (λ _. 0) v ip ≡ some m)
                × Reads copyout v ip off (available ip.size off n) m)
              (clip inside)
              (read_loop-Reads copyout v ip whole off (available ip.size off n) (ground arith)
                (available ip.size off n) 0 off (λ _. 0) (omega arith) (omega arith) (omega arith)
                (λ k lt. absurd (omega arith))))))
]
  where
    exact : u32 (off + n) ≡ off + n
    exact = omega arith

    clip :
        ltb ip.size off ≡ false
        → available ip.size off n ≡ (if ltb ip.size (u32 (off + n)) then ip.size - off else n)
    clip e = ground (arith, exact)
