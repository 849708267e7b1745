-- ===== src/FileSystem/Calls/Empty.antt =====
-- About `isdirempty` of kernel/sysfile.c.
use csci_315_operating_sytem.Prelude.{
  ℕ, ◌+◌, ◌-◌, ◌*◌, ◌/◌, ◌<◌, ◌≤◌, ◌≡◌, ◌⊎◌, refl, arith, Bool, true, false, not, Option, none,
  some, ◌==◌, ltb, inl, inr, Bool-cases, ap, ◌∙◌,
}
use csci_315_operating_sytem.Prelude.Fold.{first, first-some, first-none}
use csci_315_operating_sytem.FileSystem.Volume.{Volume}
use csci_315_operating_sytem.FileSystem.Content.{Inode}
use csci_315_operating_sytem.FileSystem.Inodes.{Fs, done}
use csci_315_operating_sytem.FileSystem.Directory.{dirent_size, scan_loop}
use csci_315_operating_sytem.FileSystem.Directory.Entries.{IsDirectory, entry_count, entry_inum}
use csci_315_operating_sytem.FileSystem.Directory.Lookup.{scanned, scan_loop-first, put_back_self}
use csci_315_operating_sytem.FileSystem.Calls.{emptied, isdirempty}

-- No entry is in use behind the first two.
abbrev pub OnlyDots : Volume → Inode → Type 0
OnlyDots v dp = (k : ℕ) → 2 ≤ k → k < entry_count dp → entry_inum v dp k ≡ 0

-- An entry behind the first two is in use.
abbrev pub HasMore : Volume → Inode → Type 0
HasMore v dp = (k : ℕ) × (2 ≤ k) × (k < entry_count dp) × (0 < entry_inum v dp k)

-- `isdirempty` of a directory does not panic and changes nothing. It returns 1 when no entry behind the first
-- two is in use, and 0 when one is.
pub isdirempty-OnlyDots :
    (i : ℕ) (s : Fs)
    → IsDirectory s.vol (s.itable i).ip
    → ((isdirempty i s ≡ done true s) × OnlyDots s.vol (s.itable i).ip)
      ⊎ ((isdirempty i s ≡ done false s) × HasMore s.vol (s.itable i).ip)
unfolding isdirempty scan_loop
isdirempty-OnlyDots i s d = elim (Bool-cases (ltb (entry_count (s.itable i).ip) 2)) [
  | inl short ↦ inl (no_rounds (ground arith), λ k l m. absurd (ground arith))
  | inr long ↦ by_first (ground arith) (first used (entry_count (s.itable i).ip - 2) 2) refl
]
  where
    used : ℕ → Bool
    used k = not (entry_inum s.vol (s.itable i).ip k == 0)

    no_rounds : entry_count (s.itable i).ip < 2 → isdirempty i s ≡ done true s
    no_rounds lt =
        let over : ((s.itable i).ip.size - 2 * dirent_size + (dirent_size - 1)) / dirent_size ≡ 0 =
          omega (arith, d.entries) in
        ap
          (λ r.
            emptied i s
              (scan_loop (λ d. not (d.inum == 0)) r (2 * dirent_size) s.vol (s.itable i).ip))
          over
        ∙ ap (done true) (put_back_self i s)

    scanned_all :
        2 ≤ entry_count (s.itable i).ip
        → isdirempty i s
          ≡ emptied i s
              (scanned s.vol (s.itable i).ip (first used (entry_count (s.itable i).ip - 2) 2))
    scanned_all le =
        ap
          (λ r.
            emptied i s
              (scan_loop (λ d. not (d.inum == 0)) r (2 * dirent_size) s.vol (s.itable i).ip))
          (omega (arith, d.entries))
        ∙ ap (emptied i s) (
            scan_loop-first s.vol (s.itable i).ip d (λ d. not (d.inum == 0)) used
              (λ j m lt at. ap (λ n. not (n == 0)) at.inum) (entry_count (s.itable i).ip - 2) 2
              (omega arith))

    by_first :
        2 ≤ entry_count (s.itable i).ip
        → (o : Option ℕ) → first used (entry_count (s.itable i).ip - 2) 2 ≡ o
        → ((isdirempty i s ≡ done true s) × OnlyDots s.vol (s.itable i).ip)
          ⊎ ((isdirempty i s ≡ done false s) × HasMore s.vol (s.itable i).ip)
    by_first le none e = inl (
      scanned_all le
          ∙ ap (λ o. emptied i s (scanned s.vol (s.itable i).ip o)) e
          ∙ ap (done true) (put_back_self i s),
      λ k l m.
          (let free = first-none used (entry_count (s.itable i).ip - 2) 2 k e l (omega arith) in
            ground (arith, free)),
    )
    by_first le (some k) e =
        let (hit, low, high) = first-some used (entry_count (s.itable i).ip - 2) 2 {j = k} e in
        inr (
          scanned_all le
              ∙ ap (λ o. emptied i s (scanned s.vol (s.itable i).ip o)) e
              ∙ ap (done false) (put_back_self i s),
          (k, low, omega arith, ground (arith, hit)),
        )
