-- ===== src/FileSystem/Content/Round.antt =====
-- A round of `writei`.
use csci_315_operating_sytem.Prelude.{
  ℕ, ◌+◌, ◌-◌, ◌*◌, ◌/◌, ◌%◌, ◌<◌, ◌≤◌, ◌≡◌, ◌≢◌, ◌⊎◌, arith, true, false, ◌&&◌, ◌==◌, ltb, leb,
  if◌then◌else◌, inl, inr, Bool-cases, ap, ◌∙◌, sym,
}
use csci_315_operating_sytem.FileSystem.Volume.{bsize, maxfile, Volume}
use csci_315_operating_sytem.FileSystem.Content.{Inode, Mapped}
use csci_315_operating_sytem.FileSystem.Content.Slots.{slot, byte_at, IsFile, Extends}
use csci_315_operating_sytem.FileSystem.Content.Grow.{Maps}
use csci_315_operating_sytem.FileSystem.Content.Pieces.{IsPiece}
use csci_315_operating_sytem.FileSystem.Content.Put.{with_bytes, put-slot, put-IsFile, put-byte_at}

module _ (src : ℕ → ℕ) (v : Volume) (ip : Inode) (start : ℕ) where
  -- The file `v`, `ip` with `tot` bytes of `src` from `start` on.
  pub record Replaced (tot : ℕ) (w : Volume) (jp : Inode) : Type 0 where
    pub file : IsFile w jp
    pub bytes :
        (a : ℕ)
        → a < maxfile * bsize
        → byte_at w jp a
          ≡ (if leb start a && ltb a (start + tot) then src (a - start) else byte_at v ip a)
    pub stays : (k : ℕ) → k ≤ maxfile → slot v ip k ≢ 0 → slot w jp k ≢ 0
    pub filled : (k : ℕ) → k * bsize < start + tot → slot w jp k ≢ 0
    pub size : jp.size ≡ ip.size
    pub inum : jp.inum ≡ ip.inum

  -- `bmap` changes nothing of this.
  pub Extends-Replaced :
      (tot : ℕ) (w x : Volume) (jp kp : Inode)
      → start + tot ≤ maxfile * bsize
      → Replaced tot w jp
      → Extends w jp x kp
      → Replaced tot x kp
  Extends-Replaced tot w x jp kp limit r e = record {
    file = e.file;
    bytes = λ a lt. e.bytes a lt ∙ r.bytes a lt;
    stays = λ k le ne z. r.stays k le ne (sym (e.stays k le (r.stays k le ne)) ∙ z);
    filled =
        λ k lt z. r.filled k lt (sym (e.stays k (omega (arith, limit, lt)) (r.filled k lt)) ∙ z);
    size = e.size ∙ r.size;
    inum = e.inum ∙ r.inum;
  }

  -- The block that a round leaves.
  abbrev patched : (tot off p : ℕ) → (ℕ → ℕ) → ℕ → ℕ
  patched tot off p old a =
      if leb (off % bsize) a && ltb a (off % bsize + p)
      then src (tot + (a - off % bsize))
      else old a

  -- The first block that a round reaches beyond the bytes that were filled is its own.
  next_block :
      (k tot off p n : ℕ)
      → off ≡ start + tot
      → IsPiece n tot off p
      → k * bsize < start + (tot + p)
      → (k * bsize < start + tot) ⊎ (k ≡ off / bsize)
  next_block k tot off p n eo q lt = elim (Bool-cases (ltb (k * bsize) (start + tot))) [
    | inl before ↦ inl (ground arith)
    | inr beyond ↦ inr (own k lt beyond)
  ]
    where
      own :
          (k : ℕ)
          → k * bsize < start + (tot + p)
          → ltb (k * bsize) (start + tot) ≡ false
          → k ≡ off / bsize
      own k lt b = omega (arith, eo, lt, q.one_block, past k b)
        where
          past : (k : ℕ) → ltb (k * bsize) (start + tot) ≡ false → start + tot ≤ k * bsize
          past k b = ground arith

  module _ (n tot off p : ℕ) (w : Volume) (jp : Inode) (m : Mapped) (eo : off ≡ start + tot)
      (q : IsPiece n tot off p) (limit : start + n ≤ maxfile * bsize) (r : Replaced tot w jp)
      (maps : Maps w jp (off / bsize) m) (there : slot m.vol m.ip (off / bsize) ≢ 0) where
    abbrev pub new_volume : Volume
    new_volume =
        with_bytes m.vol m.ip (off / bsize)
          (patched tot off p (m.vol.block (slot m.vol m.ip (off / bsize))))

    below : off / bsize < maxfile
    below = omega (arith, limit, q.asked, q.some_bytes, eo)

    abbrev new_bytes : ℕ → ℕ
    new_bytes = patched tot off p (m.vol.block (slot m.vol m.ip (off / bsize)))

    -- What was there before the round.
    old_byte :
        (a : ℕ)
        → a < maxfile * bsize
        → byte_at m.vol m.ip a
          ≡ (if leb start a && ltb a (start + tot) then src (a - start) else byte_at v ip a)
    old_byte a lt = maps.extends.bytes a lt ∙ r.bytes a lt

    inside_byte :
        (a : ℕ)
        → a < maxfile * bsize
        → a / bsize ≡ off / bsize
        → new_bytes (a % bsize)
          ≡ (if leb start a && ltb a (start + (tot + p)) then src (a - start) else byte_at v ip a)
    inside_byte a lt same =
        elim (Bool-cases (leb (off % bsize) (a % bsize) && ltb (a % bsize) (off % bsize + p))) [
          | inl new ↦
              (let place : tot + (a % bsize - off % bsize) ≡ a - start =
                  omega (arith, same, eo, low new) in
                let range : (leb start a && ltb a (start + (tot + p))) ≡ true =
                  ground (arith, same, eo, new) in
                rw (new, range) (ap src place))
          | inr old ↦
              (let here : m.vol.block (slot m.vol m.ip (off / bsize)) (a % bsize)
                    ≡ byte_at m.vol m.ip a =
                  (unfold byte_at in (ground (arith, same, there))) in
                rw old (here ∙ old_byte a lt ∙ ground (arith, same, eo, old)))
        ]
      where
        low :
            (leb (off % bsize) (a % bsize) && ltb (a % bsize) (off % bsize + p)) ≡ true
            → off % bsize ≤ a % bsize
        low e = ground arith

    outside_byte :
        (a : ℕ)
        → a < maxfile * bsize
        → a / bsize ≢ off / bsize
        → byte_at m.vol m.ip a
          ≡ (if leb start a && ltb a (start + (tot + p)) then src (a - start) else byte_at v ip a)
    outside_byte a lt ne = old_byte a lt ∙ elim (Bool-cases (ltb a (start + tot))) [
      | inl before ↦ ground arith
      | inr past ↦
          (let far : ltb a (start + (tot + p)) ≡ false = ground (arith, apart ne) in ground arith)
    ]
      where
        apart : a / bsize ≢ off / bsize → (a < off) ⊎ (off + p ≤ a)
        apart ne = elim (Bool-cases (ltb a off)) [
          | inl l ↦ inl (ground arith)
          | inr g ↦ inr (beyond ne (ground arith))
        ]
          where
            beyond : a / bsize ≢ off / bsize → off ≤ a → off + p ≤ a
            beyond ne le = omega (arith, q.one_block)

    slot_kept : (k : ℕ) → k ≤ maxfile → slot w jp k ≢ 0 → slot new_volume m.ip k ≢ 0
    slot_kept k le ne z = ne (
        sym (maps.extends.stays k le ne)
        ∙ sym (put-slot m.vol m.ip (off / bsize) new_bytes maps.extends.file below there k)
        ∙ z)

    pub round-Replaced : Replaced (tot + p) new_volume m.ip
    round-Replaced = record {
      file = put-IsFile m.vol m.ip (off / bsize) new_bytes maps.extends.file below there;
      bytes = λ a lt.
          put-byte_at m.vol m.ip (off / bsize) new_bytes maps.extends.file below there a lt
          ∙ elim (Bool-cases (a / bsize == off / bsize)) [
            | inl same ↦ rw same (inside_byte a lt (ground arith))
            | inr other ↦ rw other (outside_byte a lt (ground arith))
          ];
      stays = λ k le ne. slot_kept k le (r.stays k le ne);
      filled = λ k lt. elim (next_block k tot off p n eo q lt) [
        | inl before ↦ slot_kept k (omega (arith, limit, q.asked, lt)) (r.filled k before)
        | inr own ↦ (λ z. there (
            sym (
              put-slot m.vol m.ip (off / bsize) new_bytes maps.extends.file below there
                (off / bsize))
            ∙ ap (slot new_volume m.ip) (sym own)
            ∙ z))
      ];
      size = maps.extends.size ∙ r.size;
      inum = maps.extends.inum ∙ r.inum;
    }
