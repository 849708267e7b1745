-- ===== src/FileSystem/Inodes/Put.antt =====
-- `iput` of the last reference to an inode without links.
use csci_315_operating_sytem.Prelude.{
  ℕ, ◌-◌, ◌≤◌, ◌≡◌, ◌≢◌, refl, arith, Bool, true, false, ◌&&◌, some, ◌==◌, update, update_self,
  update_ne, ap, ◌∙◌, sym,
}
use csci_315_operating_sytem.FileSystem.Volume.{maxfile, Dinode, Volume, is_used}
use csci_315_operating_sytem.FileSystem.Content.{Inode, iupdate, itrunc}
use csci_315_operating_sytem.FileSystem.Content.Slots.{slot, IsFile}
use csci_315_operating_sytem.FileSystem.Content.Trunc.{IsTruncated, itrunc-IsTruncated}
use csci_315_operating_sytem.FileSystem.Inodes.{
  InodeSlot, Fs, Result, done, sleeps, and_then, set_ref, free_inode, iput,
}

-- Inode `inum` is free on disk and in memory, and so are its blocks; the other bits of the free map, the
-- bytes of the blocks, the other inodes and the other slots are as they were.
pub record IsFreed (s : Fs) (i : ℕ) (z : Fs) : Type 0 where
  pub no_type : (z.vol.dinodes (s.itable i).ip.inum).type ≡ 0
  pub no_refs : (z.itable i).ref ≡ 0
  pub unread : (z.itable i).valid ≡ false
  pub unlocked : (z.itable i).locked ≡ (s.itable i).locked
  pub blocks :
      (n : ℕ)
      → n ≤ maxfile
      → slot s.vol (s.itable i).ip n ≢ 0
      → is_used z.vol (slot s.vol (s.itable i).ip n) ≡ false
  pub other_blocks :
      (b : ℕ)
      → ((n : ℕ)
          → n ≤ maxfile
          → slot s.vol (s.itable i).ip n ≢ 0
          → slot s.vol (s.itable i).ip n ≢ b)
      → is_used z.vol b ≡ is_used s.vol b
  pub block : z.vol.block ≡ s.vol.block
  pub disk_blocks : z.vol.blocks ≡ s.vol.blocks
  pub disk_inodes : z.vol.ninodes ≡ s.vol.ninodes
  pub other_inodes : (j : ℕ) → j ≢ (s.itable i).ip.inum → z.vol.dinodes j ≡ s.vol.dinodes j
  pub other_slots : (j : ℕ) → j ≢ i → z.itable j ≡ s.itable j

module _ (i : ℕ) (s : Fs) (last : (s.itable i).ref ≡ 1) where
  -- The state behind `free_inode` and the decrement.
  abbrev after : Volume → Inode → Fs
  after v ip =
      let gone = record ip { type = 0 } in
      let t = update s.itable i (record (s.itable i) { valid = false; ip = gone }) in
      record { vol = iupdate v gone; itable = update t i (record (t i) { ref = (t i).ref - 1 }) }

  after-IsFreed :
      (v : Volume) (ip : Inode) → IsTruncated s.vol (s.itable i).ip v ip → IsFreed s i (after v ip)
  unfolding iupdate is_used
  after-IsFreed v ip t = record {
    no_type =
        ap (λ n. (update v.dinodes ip.inum (disk ip) n).type) (sym t.inum)
        ∙ ap (λ (d : Dinode). d.type) (update_self v.dinodes ip.inum (disk ip));
    no_refs =
        ap (λ (e : InodeSlot). e.ref) (update_self mid i _)
        ∙ ap (λ (e : InodeSlot). e.ref - 1) (update_self s.itable i _)
        ∙ ap (λ n. n - 1) last;
    unread =
        ap (λ (e : InodeSlot). e.valid) (update_self mid i _)
        ∙ ap (λ (e : InodeSlot). e.valid) (update_self s.itable i _);
    unlocked =
        ap (λ (e : InodeSlot). e.locked) (update_self mid i _)
        ∙ ap (λ (e : InodeSlot). e.locked) (update_self s.itable i _);
    blocks = t.gone;
    other_blocks = t.kept;
    block = t.block;
    disk_blocks = t.blocks;
    disk_inodes = t.ninodes;
    other_inodes = λ j ne.
        update_ne v.dinodes ip.inum j (disk ip) (λ e. ne (e ∙ t.inum)) ∙ t.other_inodes j ne;
    other_slots = λ j ne. update_ne mid i j _ ne ∙ update_ne s.itable i j _ ne;
  }
    where
      mid : ℕ → InodeSlot
      mid = update s.itable i (record (s.itable i) { valid = false; ip = record ip { type = 0 } })

      disk : Inode → Dinode
      disk ip = record {
        type = 0;
        major = ip.major;
        minor = ip.minor;
        nlink = ip.nlink;
        size = ip.size;
        addrs = ip.addrs;
      }

  put_after :
      (v : Volume) (ip : Inode)
      → ((s.itable i).valid && ((s.itable i).ip.nlink == 0)) ≡ true
      → (s.itable i).locked ≡ false
      → itrunc s.vol (s.itable i).ip ≡ some (v, ip)
      → iput i s ≡ done tt (after v ip)
  unfolding iput free_inode
  put_after v ip frees idle e =
      ap
        (λ b. elim b [
          | false ↦ done tt (set_ref i ((s.itable i).ref - 1) s)
          | true ↦ free_or_sleep (s.itable i).locked
        ])
        test
      ∙ ap free_or_sleep idle
      ∙ ap (λ r. and_then r (λ u z. done tt (set_ref i ((z.itable i).ref - 1) z))) freed
    where
      free_or_sleep : Bool → Result Unit
      free_or_sleep true = sleeps
      free_or_sleep false =
          and_then (free_inode i s) (λ u z. done tt (set_ref i ((z.itable i).ref - 1) z))

      test :
          (((s.itable i).ref == 1) && ((s.itable i).valid && ((s.itable i).ip.nlink == 0))) ≡ true
      test = ground (arith, last, frees)

      freed :
          free_inode i s
          ≡ done tt (record {
            vol = iupdate v (record ip { type = 0 });
            itable =
                update s.itable i
                  (record (s.itable i) { valid = false; ip = record ip { type = 0 } });
          })
      freed = rw (e, free_inode) refl

  -- The last reference to an inode without links, on which no one works: `iput` does not panic or sleep, frees the
  -- inode, its blocks and its slot. The other bits of the free map, the bytes of all blocks, the other inodes on
  -- disk and the other slots stay as they were.
  pub iput-IsFreed :
      (s.itable i).valid ≡ true
      → (s.itable i).ip.nlink ≡ 0
      → (s.itable i).locked ≡ false
      → IsFile s.vol (s.itable i).ip
      → (z : Fs) × (iput i s ≡ done tt z) × IsFreed s i z
  unfolding iput
  iput-IsFreed valid unlinked idle f =
      let (v, ip, e, t) = itrunc-IsTruncated s.vol (s.itable i).ip f in
      (after v ip, put_after v ip (ground (arith, valid, unlinked)) idle e, after-IsFreed v ip t)
