-- ===== src/FileSystem/Directory/Links.antt =====
-- About `dirlink` of kernel/fs.c.
use csci_315_operating_sytem.Prelude.{
  ℕ, ◌+◌, ◌*◌, ◌<◌, ◌≤◌, ◌≡◌, ◌⊎◌, refl, arith, Bool, true, false, Option, none, some, ◌==◌, inl,
  inr, Bool-cases, update_self, ap, ◌∙◌, sym, subst,
}
use csci_315_operating_sytem.Prelude.Fold.{first-some}
use csci_315_operating_sytem.FileSystem.Volume.{bsize, maxfile, Volume, is_used}
use csci_315_operating_sytem.FileSystem.Content.{Inode, Moved}
use csci_315_operating_sytem.FileSystem.Content.File.{Wrote, Ends, writei-Ends}
use csci_315_operating_sytem.FileSystem.Inodes.{Fs, InodeSlot, done, panics, and_then}
use csci_315_operating_sytem.FileSystem.Directory.{
  dirent_size, t_dir, dirent_bytes, kernel_copy, new_dirent, write_dirent, link_at, put_back,
  link_absent, all_written, dirlookup, dirlink,
}
use csci_315_operating_sytem.FileSystem.Directory.Entries.{IsDirectory, entry_count, entry_inum}
use csci_315_operating_sytem.FileSystem.Directory.Lookup.{
  find_name, find_free, scanned, scan-find_free, resolved, dirlookup-resolved,
}
use csci_315_operating_sytem.FileSystem.Directory.Link.{Wrote-Linked}
use csci_315_operating_sytem.FileSystem.Directory.Added.{place, Added, Linked-Added}

-- The file is of the largest size, or every block is in use.
abbrev pub NoRoom : Inode → Volume → Type 0
NoRoom dp w =
    (maxfile * bsize < dirent_size * entry_count dp + dirent_size)
    ⊎ ((b : ℕ) → b < w.blocks → is_used w b ≡ true)

-- `true` with the entry added, or `false` for want of room.
abbrev pub LinkEnds : Volume → Inode → (name : ℕ → ℕ) → (inum : ℕ) → Bool → Volume → Inode → Type 0
LinkEnds v dp name inum b w jp =
    ((b ≡ true) × Added v dp name inum w jp) ⊎ ((b ≡ false) × NoRoom dp w)

module _ (i : ℕ) (name : ℕ → ℕ) (inum : ℕ) (s : Fs) (v : Volume) (dp : Inode)
    (some_inode : 0 < inum) (short : inum < 65536) (d : IsDirectory v dp)
    (absent : find_name v dp name ≡ none) where
  moved-LinkEnds :
      (k : ℕ) (m : Moved)
      → k ≡ place v dp
      → k ≤ entry_count dp
      → (k < entry_count dp → entry_inum v dp k ≡ 0)
      → Ends kernel_copy (dirent_bytes (new_dirent name inum)) v dp (dirent_size * k) dirent_size m
      → LinkEnds v dp name inum (all_written m.count) m.vol m.ip
  moved-LinkEnds k m e at free r = elim (Bool-cases (r.wrote == dirent_size)) [
    | inl all ↦
        (let whole : r.wrote ≡ dirent_size = ground arith in
          inl (
            ap all_written r.counted ∙ all,
            Linked-Added v dp name inum k m.vol m.ip some_inode short absent at free
                (Wrote-Linked v dp name inum k m.vol m.ip d at (
                  subst
                    (λ n.
                      Wrote (dirent_bytes (new_dirent name inum)) v dp (dirent_size * k) n m.vol
                        m.ip)
                    whole r.result))
                e,
          ))
    | inr part ↦ inr (
      ap all_written r.counted ∙ part,
      inr (elim r.why [
        | inl whole ↦ absurd (ground arith)
        | inr (inl (n, p, fails)) ↦ absurd (let bad : true ≡ false = fails in cc)
        | inr (inr full) ↦ full
      ]),
    )
  ]

  -- What the second half of `dirlink` returns and leaves.
  write_dirent-LinkEnds :
      (k : ℕ)
      → k ≡ place v dp
      → k ≤ entry_count dp
      → (k < entry_count dp → entry_inum v dp k ≡ 0)
      → (b : Bool) × (w : Volume) × (jp : Inode) × (write_dirent i s
            (dirent_size * k)
            (new_dirent name inum)
            v
            dp
          ≡ done b (put_back i s w jp))
        × LinkEnds v dp name inum b w jp
  write_dirent-LinkEnds k e at free =
      let (m, em, r) =
        writei-Ends kernel_copy (dirent_bytes (new_dirent name inum)) v dp (dirent_size * k)
          dirent_size d.file d.whole (omega (arith, at, d.whole.small)) in
      elim r [
        | inl (le, limit, ends) ↦ (
          _,
          _,
          _,
          ap
              (λ o. elim o [
                | none ↦ panics
                | some m ↦ done (all_written m.count) (put_back i s m.vol m.ip)
              ])
              em,
          moved-LinkEnds k m e at free ends,
        )
        | inr (inl past, count, same_vol, same_ip) ↦ absurd (omega (arith, at, past, d.entries))
        | inr (inr large, count, same_vol, same_ip) ↦ (
          _,
          _,
          _,
          ap
              (λ o. elim o [
                | none ↦ panics
                | some m ↦ done (all_written m.count) (put_back i s m.vol m.ip)
              ])
              em,
          inr (ap all_written count, inl (omega (arith, large, at))),
        )
      ]

-- The same on the file system: the first free entry, or the end.
link_at-LinkEnds :
    (i : ℕ) (name : ℕ → ℕ) (inum : ℕ) (s : Fs) (o : Option ℕ)
    → 0 < inum
    → inum < 65536
    → IsDirectory s.vol (s.itable i).ip
    → find_name s.vol (s.itable i).ip name ≡ none
    → find_free s.vol (s.itable i).ip ≡ o
    → (b : Bool) × (z : Fs) × (link_at i s (new_dirent name inum) (scanned s.vol (s.itable i).ip o)
        ≡ done b z)
      × LinkEnds s.vol (s.itable i).ip name inum b z.vol (z.itable i).ip
link_at-LinkEnds i name inum s none some_inode short d absent e =
    let (b, w, jp, done_it, ends) =
      write_dirent-LinkEnds i name inum s s.vol (s.itable i).ip some_inode short d absent
        (entry_count (s.itable i).ip)
        (sym (ap (λ o. elim o [ none ↦ entry_count (s.itable i).ip | some k ↦ k ]) e)) (omega arith)
        (λ lt. absurd (omega arith)) in
    (
      b,
      put_back i s w jp,
      ap (λ off. write_dirent i s off (new_dirent name inum) s.vol (s.itable i).ip)
            (omega (arith, d.entries))
          ∙ done_it,
      subst (λ (e : InodeSlot). LinkEnds s.vol (s.itable i).ip name inum b w e.ip)
          (sym (update_self s.itable i _)) ends,
    )
link_at-LinkEnds i name inum s (some k) some_inode short d absent e =
    let (free, low, high) =
      first-some (λ j. entry_inum s.vol (s.itable i).ip j == 0) (entry_count (s.itable i).ip) 0
        {j = k} e in
    let (b, w, jp, done_it, ends) =
      write_dirent-LinkEnds i name inum s s.vol (s.itable i).ip some_inode short d absent k
        (sym (ap (λ o. elim o [ none ↦ entry_count (s.itable i).ip | some k ↦ k ]) e)) (omega arith)
        (λ lt. ground (arith, free)) in
    (
      b,
      put_back i s w jp,
      done_it,
      subst (λ (e : InodeSlot). LinkEnds s.vol (s.itable i).ip name inum b w e.ip)
          (sym (update_self s.itable i _)) ends,
    )

-- With a directory in slot `i` that has no entry for `name`, `dirlink` of an inode number other than 0 does
-- not panic. Either it returns 0 with the entry added, so that `name` is found and leads to the inode,
-- while every other name is found where it was and leads where it led; or it returns -1, and then the
-- directory cannot grow any more or every block of the disk is in use.
pub dirlink-LinkEnds :
    (i : ℕ) (name : ℕ → ℕ) (inum : ℕ) (s : Fs)
    → 0 < inum
    → inum < 65536
    → (s.itable i).ip.type ≡ t_dir
    → IsDirectory s.vol (s.itable i).ip
    → find_name s.vol (s.itable i).ip name ≡ none
    → (b : Bool) × (z : Fs) × (dirlink i name inum s ≡ done b z)
      × LinkEnds s.vol (s.itable i).ip name inum b z.vol (z.itable i).ip
unfolding dirlink
dirlink-LinkEnds i name inum s some_inode short dir d absent =
    let missing : dirlookup i name s ≡ done none s =
      dirlookup-resolved i name s dir d ∙ ap (resolved i s) absent in
    let (b, z, e, ends) =
      link_at-LinkEnds i name inum s (find_free s.vol (s.itable i).ip) some_inode short d absent
        refl in
    (
      b,
      z,
      ap (λ r. and_then r (link_absent i name inum)) missing
          ∙ ap (link_at i s (new_dirent name inum)) (scan-find_free s.vol (s.itable i).ip d)
          ∙ e,
      ends,
    )
