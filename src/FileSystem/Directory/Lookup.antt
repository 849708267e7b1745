-- ===== src/FileSystem/Directory/Lookup.antt =====
-- The loops of dirlookup and dirlink as searches of the array of entries.
use csci_315_operating_sytem.Prelude.{
  ℕ, zero, suc, ◌+◌, ◌*◌, ◌<◌, ◌≡◌, arith, Bool, true, false, Option, none, some, ◌==◌, ltb, inl,
  inr, Bool-cases, u32, ap, ◌∙◌, sym, not, ◌&&◌, update, update_self, update_ne,
}
use csci_315_operating_sytem.Prelude.Fold.{first}
use csci_315_operating_sytem.FileSystem.Volume.{Volume}
use csci_315_operating_sytem.FileSystem.Content.{Inode, Moved}
use csci_315_operating_sytem.FileSystem.Directory.{
  dirent_size, Dirent, dirent_of, read_dirent, Scan, stops, ends, scan_loop, scan_rounds, scan,
  t_dir, namecmp, is_named, is_free, put_back, looked_up, dirlookup,
}
use csci_315_operating_sytem.FileSystem.Directory.Names.{namecmp-same}
use csci_315_operating_sytem.FileSystem.Inodes.{Fs, Result, done, and_then, iget}
use csci_315_operating_sytem.FileSystem.Directory.Entries.{
  IsDirectory, entry_count, entry_inum, entry_name, IsEntry, read_dirent-IsEntry,
}

-- What a scan comes to, by the search of the entries.
abbrev pub scanned : Volume → Inode → Option ℕ → Scan
scanned v dp none = ends dp.size v dp
scanned v dp (some i) = stops (dirent_size * i) (entry_inum v dp i) v dp

module _ (v : Volume) (dp : Inode) (d : IsDirectory v dp) (test : Dirent → Bool) (passes : ℕ → Bool)
    (agrees : (i : ℕ) (m : Moved)
      → i < entry_count dp
      → IsEntry v dp i m
      → test (dirent_of m.got) ≡ passes i) where
  scan_step :
      (r i : ℕ) (m : Moved)
      → i < entry_count dp
      → read_dirent v dp (dirent_size * i) ≡ some m
      → IsEntry v dp i m
      → scan_loop test r (dirent_size * (i + 1)) v dp ≡ scanned v dp (first passes r (i + 1))
      → scan_loop test (suc r) (dirent_size * i) v dp ≡ scanned v dp (first passes (suc r) i)
  unfolding scan_loop first
  scan_step r i m lt em at rest =
      let inside : ltb (dirent_size * i) dp.size ≡ true = ground (arith, d.entries) in
      let onward : u32 (dirent_size * i + dirent_size) ≡ dirent_size * (i + 1) =
        omega (arith, d.whole.small, d.entries) in
      rw (inside, scan_loop)
        (rw (em, scan_loop)
          (elim (Bool-cases (passes i)) [
            | inl hit ↦
                rw (agrees i m lt at ∙ hit, scan_loop)
                  (rw (hit, first)
                    (λ j. stops (dirent_size * i) (at.inum j) (at.same_vol j) (at.same_dp j)))
            | inr miss ↦
                rw (agrees i m lt at ∙ miss, scan_loop)
                  (rw (miss, first)
                    ((λ j. scan_loop test r (onward j) (at.same_vol j) (at.same_dp j)) ∙ rest))
          ]))

  pub scan_loop-first :
      (r i : ℕ)
      → i + r ≡ entry_count dp
      → scan_loop test r (dirent_size * i) v dp ≡ scanned v dp (first passes r i)
  unfolding scan_loop first
  scan_loop-first zero i e = ap (λ o. ends o v dp) (omega (arith, d.entries))
  scan_loop-first (suc r) i e =
      let (m, em, at) = read_dirent-IsEntry v dp i d (omega arith) in
      scan_step r i m (omega arith) em at (scan_loop-first r (i + 1) (omega arith))

  pub scan-first : scan test v dp ≡ scanned v dp (first passes (entry_count dp) 0)
  scan-first =
      ap (λ r. scan_loop test r 0 v dp)
        (let e : scan_rounds dp.size ≡ entry_count dp = omega (arith, d.entries) in e)
      ∙ scan_loop-first (entry_count dp) 0 (omega arith)

-- Entry `i` is in use and has this name.
abbrev pub has_name : Volume → Inode → (name : ℕ → ℕ) → ℕ → Bool
has_name v dp name i = not (entry_inum v dp i == 0) && namecmp name (entry_name v dp i)

-- The first entry of a name.
abbrev pub find_name : Volume → Inode → (name : ℕ → ℕ) → Option ℕ
find_name v dp name = first (has_name v dp name) (entry_count dp) 0

abbrev pub find_free : Volume → Inode → Option ℕ
find_free v dp = first (λ i. entry_inum v dp i == 0) (entry_count dp) 0

pub scan-find_name :
    (v : Volume) (dp : Inode) (name : ℕ → ℕ)
    → IsDirectory v dp
    → scan (is_named name) v dp ≡ scanned v dp (find_name v dp name)
scan-find_name v dp name d = scan-first v dp d (is_named name) (has_name v dp name) agrees
  where
    agrees :
        (i : ℕ) (m : Moved)
        → i < entry_count dp
        → IsEntry v dp i m
        → is_named name (dirent_of m.got) ≡ has_name v dp name i
    agrees i m lt at =
        ap (λ n. not (n == 0) && namecmp name (dirent_of m.got).name) at.inum
        ∙ ap (λ b. not (entry_inum v dp i == 0) && b)
            (namecmp-same name (dirent_of m.got).name (entry_name v dp i) at.name)

pub scan-find_free :
    (v : Volume) (dp : Inode) → IsDirectory v dp → scan is_free v dp ≡ scanned v dp (find_free v dp)
scan-find_free v dp d =
    scan-first v dp d is_free (λ i. entry_inum v dp i == 0) (λ i m lt at. ap (λ n. n == 0) at.inum)

pub put_back_self : (i : ℕ) (s : Fs) → put_back i s s.vol (s.itable i).ip ≡ s
put_back_self i s = λ j. record { vol = s.vol; itable = λ k. same k j }
  where
    same : (k : ℕ) → update s.itable i (s.itable i) k ≡ s.itable k
    same k = elim (Bool-cases (k == i)) [
      | inl here ↦
          (let e : k ≡ i = ground arith in
            ap (update s.itable i (s.itable i)) e
            ∙ update_self s.itable i (s.itable i)
            ∙ ap s.itable (sym e))
      | inr other ↦ update_ne s.itable i k (s.itable i) (ground arith)
    ]

-- The inode and the offset of a name, from the array of entries.
abbrev pub resolved : ℕ → Fs → Option ℕ → Result (Option (ℕ × ℕ))
resolved i s none = done none s
resolved i s (some k) =
    and_then (iget (s.itable i).dev (entry_inum s.vol (s.itable i).ip k) s)
      (λ j z. done (some (j, dirent_size * k)) z)

-- `dirlookup` of a directory does not panic on the way to the entry, changes nothing itself, and gets the
-- inode of the first entry in use that has the name, with that entry's offset; without one it returns the
-- null pointer.
pub dirlookup-resolved :
    (i : ℕ) (name : ℕ → ℕ) (s : Fs)
    → (s.itable i).ip.type ≡ t_dir
    → IsDirectory s.vol (s.itable i).ip
    → dirlookup i name s ≡ resolved i s (find_name s.vol (s.itable i).ip name)
unfolding dirlookup
dirlookup-resolved i name s dir d =
    let kind : not ((s.itable i).ip.type == t_dir) ≡ false = ground (arith, dir) in
    rw (kind, dirlookup)
      (ap (looked_up i s) (scan-find_name s.vol (s.itable i).ip name d)
        ∙ found (find_name s.vol (s.itable i).ip name))
  where
    found : (o : Option ℕ) → looked_up i s (scanned s.vol (s.itable i).ip o) ≡ resolved i s o
    found none = ap (done none) (put_back_self i s)
    found (some k) =
        ap
          (λ t.
            and_then (iget (s.itable i).dev (entry_inum s.vol (s.itable i).ip k) t)
              (λ j z. done (some (j, dirent_size * k)) z))
          (put_back_self i s)
