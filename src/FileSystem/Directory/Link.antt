-- ===== src/FileSystem/Directory/Link.antt =====
-- A directory with a new entry, for `dirlink` of kernel/fs.c.
use csci_315_operating_sytem.Prelude.{
  ℕ, ◌+◌, ◌-◌, ◌*◌, ◌%◌, ◌<◌, ◌≤◌, ◌≡◌, ◌≢◌, arith, ◌==◌, ltb, if◌then◌else◌, inl, inr, Bool-cases,
  ap, ◌∙◌,
}
use csci_315_operating_sytem.FileSystem.Volume.{bsize, maxfile, Volume}
use csci_315_operating_sytem.FileSystem.Content.{Inode}
use csci_315_operating_sytem.FileSystem.Content.Slots.{byte_at}
use csci_315_operating_sytem.FileSystem.Content.File.{Wrote}
use csci_315_operating_sytem.FileSystem.Directory.{
  dirent_size, dirent_bytes, namecmp, copied_name, new_dirent,
}
use csci_315_operating_sytem.FileSystem.Directory.Names.{namecmp-copied_name, namecmp-same}
use csci_315_operating_sytem.FileSystem.Directory.Entries.{
  IsDirectory, entry_count, entry_inum, entry_name,
}

-- The directory with an entry for `name` and `inum` at `k`.
pub record Linked (v : Volume) (dp : Inode) (name : ℕ → ℕ) (inum k : ℕ) (w : Volume) (jp : Inode)
    : Type 0 where
  pub directory : IsDirectory w jp
  pub count :
      entry_count jp ≡ (if ltb k (entry_count dp) then entry_count dp else entry_count dp + 1)
  pub inum_at :
      (j : ℕ)
      → j < entry_count jp
      → entry_inum w jp j ≡ (if j == k then inum % 65536 else entry_inum v dp j)
  pub own_name : (x : ℕ → ℕ) → namecmp x (entry_name w jp k) ≡ namecmp x name
  pub other_name :
      (j : ℕ)
      → j < entry_count jp
      → j ≢ k
      → (x : ℕ → ℕ) → namecmp x (entry_name w jp j) ≡ namecmp x (entry_name v dp j)

module _ (v : Volume) (dp : Inode) (name : ℕ → ℕ) (inum k : ℕ) (w : Volume) (jp : Inode)
    (d : IsDirectory v dp) (at : k ≤ entry_count dp)
    (r : Wrote (dirent_bytes (new_dirent name inum)) v dp (dirent_size * k) dirent_size w jp) where
  sized :
      jp.size
      ≡ dirent_size * (if ltb k (entry_count dp) then entry_count dp else entry_count dp + 1)
  sized = ground (arith, r.size, d.entries)

  counted : entry_count jp ≡ (if ltb k (entry_count dp) then entry_count dp else entry_count dp + 1)
  counted = omega (arith, sized)

  reach : (j a : ℕ) → j < entry_count jp → a < dirent_size → dirent_size * j + a < maxfile * bsize
  reach j a lt la = omega (arith, r.whole.small)

  inside :
      (a : ℕ)
      → k < entry_count jp
      → a < dirent_size
      → byte_at w jp (dirent_size * k + a) ≡ dirent_bytes (new_dirent name inum) a
  inside a lt la =
      let back : dirent_size * k + a - dirent_size * k ≡ a = omega arith in
      r.bytes (dirent_size * k + a) (reach k a lt la)
      ∙ ground (arith, ap (dirent_bytes (new_dirent name inum)) back)

  outside :
      (j a : ℕ)
      → j < entry_count jp
      → a < dirent_size
      → j ≢ k
      → byte_at w jp (dirent_size * j + a) ≡ byte_at v dp (dirent_size * j + a)
  outside j a lt la ne = r.bytes (dirent_size * j + a) (reach j a lt la) ∙ ground (arith, ne)

  there : k < entry_count jp
  there = ground (arith, counted, at)

  inum_bytes : entry_inum w jp k ≡ inum % 65536
  unfolding entry_inum
  inum_bytes =
      let low =
        ap (byte_at w jp) (let e : dirent_size * k ≡ dirent_size * k + 0 = omega arith in e)
        ∙ inside 0 there (omega arith) in
      let high = inside 1 there (omega arith) in omega (arith, low, high)

  old_inum : (j : ℕ) → j < entry_count jp → j ≢ k → entry_inum w jp j ≡ entry_inum v dp j
  unfolding entry_inum
  old_inum j lt ne =
      let low =
        ap (byte_at w jp) (let e : dirent_size * j ≡ dirent_size * j + 0 = omega arith in e)
        ∙ outside j 0 lt (omega arith) ne
        ∙ ap (byte_at v dp) (let e : dirent_size * j + 0 ≡ dirent_size * j = omega arith in e) in
      let high = outside j 1 lt (omega arith) ne in (λ i. low i + 256 * high i)

  new_name : (m : ℕ) → m < 14 → entry_name w jp k m ≡ copied_name name m
  unfolding entry_name
  new_name m lt =
      let back : 2 + m - 2 ≡ m = omega arith in
      inside (2 + m) there (omega arith) ∙ ground (arith, ap (copied_name name) back)

  old_name :
      (j : ℕ)
      → j < entry_count jp
      → j ≢ k
      → (m : ℕ) → m < 14
      → entry_name w jp j m ≡ entry_name v dp j m
  unfolding entry_name
  old_name j lt ne m l = outside j (2 + m) lt (omega arith) ne

  pub Wrote-Linked : Linked v dp name inum k w jp
  Wrote-Linked = record {
    directory = record { file = r.file; whole = r.whole; entries = omega (arith, sized) };
    count = counted;
    inum_at = λ j lt. elim (Bool-cases (j == k)) [
      | inl here ↦
          ground (arith, ap (entry_inum w jp) (let e : j ≡ k = ground arith in e), inum_bytes)
      | inr other ↦ ground (arith, old_inum j lt (ground arith))
    ];
    own_name = λ x.
        namecmp-same x (entry_name w jp k) (copied_name name) new_name ∙ namecmp-copied_name x name;
    other_name =
        λ j lt ne x. namecmp-same x (entry_name w jp j) (entry_name v dp j) (old_name j lt ne);
  }
