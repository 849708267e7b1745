-- ===== src/FileSystem/Directory.antt =====
-- kernel/fs.c: directories (namecmp, dirlookup, dirlink).
pub mod Names
pub mod Entries
pub mod Lookup
pub mod Link
pub mod Added
pub mod Links
use csci_315_operating_sytem.Prelude.{
  ℕ, zero, suc, ◌+◌, ◌-◌, ◌*◌, ◌/◌, ◌%◌, ◌≡◌, Bool, true, false, ◌&&◌, not, Option, none, some,
  ◌==◌, ltb, if◌then◌else◌, u32,
}
use csci_315_operating_sytem.Strings.Defs.{strncmp, strncpy}
use csci_315_operating_sytem.FileSystem.Volume.{Volume}
use csci_315_operating_sytem.FileSystem.Content.{Inode, Moved, readi, writei}
use csci_315_operating_sytem.FileSystem.Inodes.{
  Fs, InodeSlot, Result, done, panics, sleeps, and_then, set_slot, iget, iput,
}

-- DIRSIZ, `sizeof(struct dirent)`, T_DIR.
abbrev pub dirsiz : ℕ
dirsiz = 14

abbrev pub dirent_size : ℕ
dirent_size = 16

abbrev pub t_dir : ℕ
t_dir = 1

-- `struct dirent`.
pub record Dirent : Type 0 where
  pub inum : ℕ
  pub name : ℕ → ℕ

-- Two names of DIRSIZ bytes in a memory.
abbrev pub side_by_side : (s t : ℕ → ℕ) → ℕ → ℕ
side_by_side s t a = if ltb a dirsiz then s a else t (a - dirsiz)

-- Whether `namecmp` gives 0.
unfoldable pub namecmp : (s t : ℕ → ℕ) → Bool
namecmp s t = let (a, b) = strncmp (side_by_side s t) 0 dirsiz dirsiz in a == b

-- `strncpy(de.name, name, DIRSIZ)`
unfoldable pub copied_name : (name : ℕ → ℕ) → ℕ → ℕ
copied_name name = strncpy 0 dirsiz dirsiz (side_by_side (λ _. 0) name)

-- The bytes of a `struct dirent`, as stored and as loaded.
abbrev pub dirent_bytes : Dirent → ℕ → ℕ
dirent_bytes d a =
    if a == 0 then d.inum % 256 else (if a == 1 then d.inum / 256 % 256 else d.name (a - 2))

abbrev pub dirent_of : (ℕ → ℕ) → Dirent
dirent_of b = record { inum = b 0 + 256 * b 1; name = λ k. b (2 + k) }

-- Kernel memory is always there.
abbrev pub kernel_copy : ℕ → ℕ → Bool
kernel_copy k m = true

-- `readi(dp, 0, (uint64)&de, off, sizeof(de)) != sizeof(de)`; `none` is a panic.
abbrev pub check_count : Moved → Option ℕ → Option Moved
check_count m none = none
check_count m (some c) = if c == dirent_size then some m else none

unfoldable pub read_dirent : Volume → Inode → (off : ℕ) → Option Moved
read_dirent v dp off = elim (readi kernel_copy v dp off dirent_size) [
  | none ↦ none
  | some m ↦ check_count m m.count
]

-- A scan of a directory panics, or stops at an entry, or comes to the end.
pub data Scan : Type 0 where
  scan_panics : Scan
  stops : (off inum : ℕ) (v : Volume) (dp : Inode) → Scan
  ends : (off : ℕ) (v : Volume) (dp : Inode) → Scan

-- `for(off = 0; off < dp->size; off += sizeof(de))`, which stops at an entry that passes the test.
unfoldable pub scan_loop : (Dirent → Bool) → (rounds off : ℕ) → Volume → Inode → Scan
scan_loop test zero off v dp = ends off v dp
scan_loop test (suc r) off v dp = elim (ltb off dp.size) [
  | false ↦ ends off v dp
  | true ↦ elim (read_dirent v dp off) [
    | none ↦ scan_panics
    | some m ↦ elim (test (dirent_of m.got)) [
      | true ↦ stops off (dirent_of m.got).inum m.vol m.ip
      | false ↦ scan_loop test r (u32 (off + dirent_size)) m.vol m.ip
    ]
  ]
]

-- Enough rounds for the size.
abbrev pub scan_rounds : ℕ → ℕ
scan_rounds size = (size + (dirent_size - 1)) / dirent_size

abbrev pub scan : (Dirent → Bool) → Volume → Inode → Scan
scan test v dp = scan_loop test (scan_rounds dp.size) 0 v dp

abbrev pub is_named : (name : ℕ → ℕ) → Dirent → Bool
is_named name d = not (d.inum == 0) && namecmp name d.name

abbrev pub is_free : Dirent → Bool
is_free d = d.inum == 0

-- The directory's inode and the disk, as a loop leaves them.
abbrev pub put_back : ℕ → Fs → Volume → Inode → Fs
put_back i s v ip = set_slot i (record (s.itable i) { ip = ip }) (record s { vol = v })

-- The inode's slot and `*poff`; `none` is the null pointer.
abbrev pub looked_up : ℕ → Fs → Scan → Result (Option (ℕ × ℕ))
looked_up i s scan_panics = panics
looked_up i s (ends off v dp) = done none (put_back i s v dp)
looked_up i s (stops off inum v dp) =
    and_then (iget (s.itable i).dev inum (put_back i s v dp)) (λ k z. done (some (k, off)) z)

unfoldable pub dirlookup : (i : ℕ) → (name : ℕ → ℕ) → Fs → Result (Option (ℕ × ℕ))
unfolding scan_loop and_then iget
dirlookup i name s =
    if not ((s.itable i).ip.type == t_dir)
    then panics
    else looked_up i s (scan (is_named name) s.vol (s.itable i).ip)

-- `writei(dp, 0, (uint64)&de, off, sizeof(de)) != sizeof(de)`: whether 0 is returned.
abbrev pub all_written : Option ℕ → Bool
all_written none = false
all_written (some c) = c == dirent_size

abbrev pub write_dirent : ℕ → Fs → (off : ℕ) → Dirent → Volume → Inode → Result Bool
write_dirent i s off d v dp = elim (writei kernel_copy (dirent_bytes d) v dp off dirent_size) [
  | none ↦ panics
  | some m ↦ done (all_written m.count) (put_back i s m.vol m.ip)
]

abbrev pub new_dirent : (name : ℕ → ℕ) → (inum : ℕ) → Dirent
new_dirent name inum = record { inum = inum % 65536; name = copied_name name }

-- From the second loop on.
abbrev pub link_at : ℕ → Fs → Dirent → Scan → Result Bool
link_at i s d scan_panics = panics
link_at i s d (ends off v dp) = write_dirent i s off d v dp
link_at i s d (stops off inum v dp) = write_dirent i s off d v dp

abbrev pub link_absent : (i : ℕ) → (name : ℕ → ℕ) → (inum : ℕ) → Option (ℕ × ℕ) → Fs → Result Bool
link_absent i name inum (some (k, off)) s = and_then (iput k s) (λ u z. done false z)
link_absent i name inum none s =
    link_at i s (new_dirent name inum) (scan is_free s.vol (s.itable i).ip)

-- `true` for 0, `false` for -1.
unfoldable pub dirlink : (i : ℕ) → (name : ℕ → ℕ) → (inum : ℕ) → Fs → Result Bool
unfolding dirlookup scan_loop and_then iput
dirlink i name inum s = and_then (dirlookup i name s) (λ found z. link_absent i name inum found z)
