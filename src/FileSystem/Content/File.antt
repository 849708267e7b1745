-- ===== src/FileSystem/Content/File.antt =====
-- `writei` as a whole: the bytes, the size, and what stays.
use csci_315_operating_sytem.Prelude.{
  ℕ, ◌+◌, ◌-◌, ◌*◌, ◌^◌, ◌<◌, ◌≤◌, ◌≡◌, ◌⊎◌, refl, arith, Bool, true, false, ◌&&◌, some, none, ltb,
  leb, if◌then◌else◌, inl, inr, Bool-cases, u32,
}
use csci_315_operating_sytem.FileSystem.Volume.{bsize, maxfile, Dinode, Volume, is_used}
use csci_315_operating_sytem.FileSystem.Content.{Inode, Moved, write_size, writei, iupdate}
use csci_315_operating_sytem.FileSystem.Content.Slots.{slot, byte_at, IsFile, IsWhole}
use csci_315_operating_sytem.FileSystem.Content.Round.{Replaced}
use csci_315_operating_sytem.FileSystem.Content.Write.{Writes, write_loop-Writes}

-- The file after `wrote` bytes of `src` went to `off`.
pub record Wrote (src : ℕ → ℕ) (v : Volume) (ip : Inode) (off wrote : ℕ) (w : Volume) (jp : Inode)
    : Type 0 where
  pub file : IsFile w jp
  pub whole : IsWhole w jp
  pub size : jp.size ≡ (if ltb ip.size (off + wrote) then off + wrote else ip.size)
  pub bytes :
      (a : ℕ)
      → a < maxfile * bsize
      → byte_at w jp a
        ≡ (if leb off a && ltb a (off + wrote) then src (a - off) else byte_at v ip a)

module _ (src : ℕ → ℕ) (v : Volume) (ip : Inode) (off n : ℕ) (w : Volume) (jp : Inode)
    (d : ℕ → Dinode) (s : ℕ) where
  abbrev saved : Volume
  saved = record w { dinodes = d }

  abbrev sized : Inode
  sized = record jp { size = s }

  sized-IsFile : IsFile w jp → IsFile saved sized
  unfolding slot is_used
  sized-IsFile f = record {
    volume = record { boot = f.volume.boot; uint_blocks = f.volume.uint_blocks };
    marked = f.marked;
    apart = f.apart;
  }

  -- The inode with its new size.
  sized-Wrote :
      IsWhole v ip
      → off ≤ ip.size
      → off + n ≤ maxfile * bsize
      → Replaced src v ip off n w jp
      → s ≡ (if ltb ip.size (off + n) then off + n else ip.size)
      → Wrote src v ip off n saved sized
  unfolding slot byte_at
  sized-Wrote whole le limit r e = record {
    file = sized-IsFile r.file;
    whole = record {
      small = ground (arith, e, whole.small);
      present = λ k lt. elim (Bool-cases (ltb (k * bsize) (off + n))) [
        | inl new ↦ r.filled k (ground arith)
        | inr old ↦
            (let inside : k * bsize < ip.size = ground (arith, e) in
              r.stays k (omega (arith, inside, whole.small)) (whole.present k inside))
      ];
    };
    size = e;
    bytes = r.bytes;
  }

-- What `writei` comes to: -1 with nothing changed, or some bytes written, all of them unless a `copyin`
-- fails or the disk is full.
pub record Ends (copyin : ℕ → ℕ → Bool) (src : ℕ → ℕ) (v : Volume) (ip : Inode) (off n : ℕ)
    (m : Moved) : Type 0 where
  pub wrote : ℕ
  pub counted : m.count ≡ some wrote
  pub at_most : wrote ≤ n
  pub result : Wrote src v ip off wrote m.vol m.ip
  pub why :
      (wrote ≡ n)
      ⊎ (((k : ℕ) × (p : ℕ) × (copyin k p ≡ false))
          ⊎ ((b : ℕ) → b < m.vol.blocks → is_used m.vol b ≡ true))

module _ (copyin : ℕ → ℕ → Bool) (src : ℕ → ℕ) (v : Volume) (ip : Inode) (off n : ℕ)
    (f : IsFile v ip) (whole : IsWhole v ip) where
  start-Replaced : off ≤ ip.size → Replaced src v ip off 0 v ip
  start-Replaced le = record {
    file = f;
    bytes = λ a lt. ground arith;
    stays = λ k lk ne. ne;
    filled = λ k lt. whole.present k (omega (arith, le));
    size = refl;
    inum = refl;
  }

  write_size-Ends :
      (m : Moved)
      → off ≤ ip.size
      → off + n ≤ maxfile * bsize
      → Writes copyin src v ip off n m
      → Ends copyin src v ip off n (write_size m)
  unfolding write_size iupdate is_used
  write_size-Ends m le limit r = elim (Bool-cases (ltb m.ip.size m.off)) [
    | inl longer ↦ rw longer (record {
      wrote = r.wrote;
      counted = r.counted;
      at_most = r.at_most;
      result =
          sized-Wrote src v ip off r.wrote m.vol m.ip _ _ whole le (omega (arith, r.at_most))
            r.replaced (ground (arith, r.off, r.replaced.size));
      why = r.why;
    })
    | inr fits ↦ rw fits (record {
      wrote = r.wrote;
      counted = r.counted;
      at_most = r.at_most;
      result =
          sized-Wrote src v ip off r.wrote m.vol m.ip _ m.ip.size whole le
            (omega (arith, r.at_most)) r.replaced (ground (arith, r.off, r.replaced.size));
      why = r.why;
    })
  ]

  -- `writei` does not panic. An offset beyond the size, or bytes beyond the largest file, give -1 and
  -- change nothing. Otherwise the bytes of `src` replace those of the file from `off` on, all `n` of them
  -- unless a `copyin` fails or every block is in use; the size grows to cover them, and the other bytes
  -- stay.
  pub writei-Ends :
      off + n < 2 ^ 32
      → (m : Moved) × (writei copyin src v ip off n ≡ some m)
        × (((off ≤ ip.size) × (off + n ≤ maxfile * bsize) × Ends copyin src v ip off n m)
            ⊎ (((ip.size < off) ⊎ (maxfile * bsize < off + n))
                × (m.count ≡ none)
                × (m.vol ≡ v)
                × (m.ip ≡ ip)))
  unfolding writei
  writei-Ends no_wrap = elim (Bool-cases (ltb ip.size off)) [
    | inl past ↦ rw (past, writei) (_, refl, inr (inl (ground arith), refl, refl, refl))
    | inr inside ↦
        rw (inside, writei)
          (rw (no_wrap_test, writei)
            (elim (Bool-cases (ltb (maxfile * bsize) (u32 (off + n)))) [
              | inl large ↦
                  rw (large, writei) (_, refl, inr (inr (ground (arith, exact)), refl, refl, refl))
              | inr fits ↦
                  (let (m, em, r) =
                      write_loop-Writes copyin src v ip off n (ground (arith, exact)) n 0 off v ip
                        (omega arith) (omega arith) (omega arith) (start-Replaced (ground arith)) in
                    rw (fits, writei)
                      (rw (em, writei)
                        (
                          _,
                          refl,
                          inl (
                            ground arith,
                            ground (arith, exact),
                            write_size-Ends m (ground arith) (ground (arith, exact)) r,
                          ),
                        )))
            ]))
  ]
    where
      exact : u32 (off + n) ≡ off + n
      exact = omega arith

      no_wrap_test : ltb (u32 (off + n)) off ≡ false
      no_wrap_test = ground (arith, exact)
