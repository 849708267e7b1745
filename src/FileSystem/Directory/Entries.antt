-- ===== src/FileSystem/Directory/Entries.antt =====
-- A directory as an array of entries.
use csci_315_operating_sytem.Prelude.{
  ℕ, ◌+◌, ◌*◌, ◌/◌, ◌%◌, ◌<◌, ◌≡◌, refl, arith, true, false, some, inl, inr, ap, ◌∙◌, subst,
}
use csci_315_operating_sytem.FileSystem.Volume.{Volume}
use csci_315_operating_sytem.FileSystem.Content.{Inode, Moved, readi}
use csci_315_operating_sytem.FileSystem.Content.Slots.{byte_at, IsFile, IsWhole}
use csci_315_operating_sytem.FileSystem.Content.Read.{Reads, available, readi-Reads}
use csci_315_operating_sytem.FileSystem.Directory.{
  dirent_size, dirent_of, kernel_copy, check_count, read_dirent,
}

-- A file of whole entries.
pub record IsDirectory (v : Volume) (dp : Inode) : Type 0 where
  pub file : IsFile v dp
  pub whole : IsWhole v dp
  pub entries : dp.size % dirent_size ≡ 0

abbrev pub entry_count : Inode → ℕ
entry_count dp = dp.size / dirent_size

-- The inode number and the name of entry `i`.
unfoldable pub entry_inum : Volume → Inode → ℕ → ℕ
entry_inum v dp i = byte_at v dp (dirent_size * i) + 256 * byte_at v dp (dirent_size * i + 1)

unfoldable pub entry_name : Volume → Inode → ℕ → ℕ → ℕ
entry_name v dp i k = byte_at v dp (dirent_size * i + (2 + k))

-- An entry that was read is that of the directory.
pub record IsEntry (v : Volume) (dp : Inode) (i : ℕ) (m : Moved) : Type 0 where
  pub same_vol : m.vol ≡ v
  pub same_dp : m.ip ≡ dp
  pub inum : (dirent_of m.got).inum ≡ entry_inum v dp i
  pub name : (k : ℕ) → k < 14 → (dirent_of m.got).name k ≡ entry_name v dp i k

Reads-IsEntry :
    (v : Volume) (dp : Inode) (i off : ℕ) (m : Moved)
    → off ≡ dirent_size * i
    → readi kernel_copy v dp off dirent_size ≡ some m
    → Reads kernel_copy v dp off dirent_size m
    → (read_dirent v dp off ≡ some m) × IsEntry v dp i m
unfolding read_dirent entry_inum entry_name
Reads-IsEntry v dp i off m eo em r = elim r.outcome [
  | inr (count, (k, p, fails)) ↦ absurd (let bad : true ≡ false = fails in cc)
  | inl (count, bytes) ↦ (
    rw (em, read_dirent) (ap (check_count m) count),
    record {
      same_vol = r.same_vol;
      same_dp = r.same_ip;
      inum = (λ j. first_byte bytes j + 256 * second_byte bytes j);
      name = λ k lt. bytes (2 + k) (omega arith) ∙ ap (λ o. byte_at v dp (o + (2 + k))) eo;
    },
  )
]
  where
    first_byte :
        ((k : ℕ) → k < dirent_size → m.got k ≡ byte_at v dp (off + k))
        → m.got 0 ≡ byte_at v dp (dirent_size * i)
    first_byte bytes = bytes 0 (omega arith) ∙ ap (byte_at v dp) (omega arith)

    second_byte :
        ((k : ℕ) → k < dirent_size → m.got k ≡ byte_at v dp (off + k))
        → m.got 1 ≡ byte_at v dp (dirent_size * i + 1)
    second_byte bytes = bytes 1 (omega arith) ∙ ap (byte_at v dp) (omega arith)

pub read_dirent-IsEntry :
    (v : Volume) (dp : Inode) (i : ℕ)
    → IsDirectory v dp
    → i < entry_count dp
    → (m : Moved) × (read_dirent v dp (dirent_size * i) ≡ some m) × IsEntry v dp i m
read_dirent-IsEntry v dp i d lt =
    let (m, em, r) =
      readi-Reads kernel_copy v dp (dirent_size * i) dirent_size d.whole
        (omega (arith, d.whole.small, d.entries)) in
    let all : available dp.size (dirent_size * i) dirent_size ≡ dirent_size =
      ground (arith, d.entries) in
    let (done, entry) =
      Reads-IsEntry v dp i (dirent_size * i) m refl em
        (subst (λ c. Reads kernel_copy v dp (dirent_size * i) c m) all r) in
    (m, done, entry)
