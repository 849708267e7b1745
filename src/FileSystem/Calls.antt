-- ===== src/FileSystem/Calls.antt =====
-- kernel/sysfile.c: the calls that change names (sys_link, sys_unlink, create, sys_mkdir, sys_mknod, sys_chdir).
pub mod Empty
pub mod Create
use csci_315_operating_sytem.Prelude.{
  ℕ, ◌+◌, ◌-◌, ◌*◌, ◌/◌, ◌%◌, ◌≡◌, Bool, true, false, ◌&&◌, ◌||◌, not, Option, none, some, ◌==◌,
  leb, if◌then◌else◌,
}
use csci_315_operating_sytem.FileSystem.Content.{Inode, iupdate, writei}
use csci_315_operating_sytem.FileSystem.Inodes.{
  Fs, InodeSlot, Result, done, panics, and_then, set_slot, ilock, iunlock, iunlockput, iput, ialloc,
}
use csci_315_operating_sytem.FileSystem.Directory.{
  dirent_size, t_dir, Dirent, dirent_of, Scan, scan_panics, stops, ends, scan_loop, put_back,
  write_dirent, namecmp, dirlookup, dirlink,
}
use csci_315_operating_sytem.FileSystem.Paths.{namei, nameiparent}

-- T_FILE, T_DEVICE.
abbrev pub t_file : ℕ
t_file = 2

abbrev pub t_device : ℕ
t_device = 3

-- A path that `argstr` has fetched, with its length.
pub record PathArg : Type 0 where
  pub bytes : ℕ → ℕ
  pub len : ℕ

-- `nlink` is a `short`, which is kept as its 16 bits.
abbrev pub one_more : ℕ → ℕ
one_more n = (n + 1) % 65536

abbrev pub one_fewer : ℕ → ℕ
one_fewer n = (n + 65535) % 65536

abbrev pub is_below_one : ℕ → Bool
is_below_one n = (n == 0) || leb 32768 n

-- The inode of a slot changed in memory, and then on disk by `iupdate`.
unfoldable pub change : ℕ → (Inode → Inode) → Fs → Fs
unfolding iupdate
change i f s = record {
  vol = iupdate s.vol (f (s.itable i).ip);
  itable = (set_slot i (record (s.itable i) { ip = f (s.itable i).ip }) s).itable;
}

abbrev pub more_links : Inode → Inode
more_links ip = record ip { nlink = one_more ip.nlink }

abbrev pub fewer_links : Inode → Inode
fewer_links ip = record ip { nlink = one_fewer ip.nlink }

-- The calls return `true` for 0 and `false` for -1.
abbrev pub put_and : {A : Type 0} → ℕ → A → Fs → Result A
put_and i a s = and_then (iunlockput i s) (λ u z. done a z)

-- `bad:` of `sys_link`.
unfoldable pub undo_link : ℕ → Fs → Result Bool
unfolding change and_then ilock iunlockput
undo_link i s = and_then (ilock i s) (λ u a. put_and i false (change i fewer_links a))

-- `sys_link` from the lock of `dp` on.
unfoldable pub link_into : (i j : ℕ) (name : ℕ → ℕ) → Fs → Result Bool
unfolding undo_link and_then ilock iunlockput dirlink iput
link_into i j name s = and_then (ilock j s) (λ u a. elim ((a.itable j).dev == (a.itable i).dev) [
  | false ↦ and_then (iunlockput j a) (λ u' b. undo_link i b)
  | true ↦ and_then (dirlink j name (a.itable i).ip.inum a) (λ linked b. elim linked [
    | false ↦ and_then (iunlockput j b) (λ u' c. undo_link i c)
    | true ↦ and_then (iunlockput j b) (λ u' c. and_then (iput i c) (λ u'' d. done true d))
  ])
])

unfoldable pub link_inode : (cwd : ℕ) → PathArg → (i : ℕ) → Fs → Result Bool
unfolding link_into undo_link change and_then ilock iunlock nameiparent
link_inode cwd new i s = and_then (ilock i s) (λ u a. elim ((a.itable i).ip.type == t_dir) [
  | true ↦ put_and i false a
  | false ↦ and_then (iunlock i (change i more_links a)) (λ u' b.
      and_then (nameiparent cwd new.bytes new.len (λ _. 0) b)
        (λ r c. elim r.0 [ none ↦ undo_link i c | some j ↦ link_into i j r.1 c ]))
])

-- `none` is an argument that cannot be fetched.
unfoldable pub sys_link : (cwd : ℕ) → (old new : Option PathArg) → Fs → Result Bool
unfolding link_inode and_then namei
sys_link cwd none new s = done false s
sys_link cwd (some old) none s = done false s
sys_link cwd (some old) (some new) s =
    and_then (namei cwd old.bytes old.len s)
      (λ found a. elim found [ none ↦ done false a | some i ↦ link_inode cwd new i a ])

-- The loop of `isdirempty` starts behind "." and "..".
abbrev pub emptied : ℕ → Fs → Scan → Result Bool
emptied i s scan_panics = panics
emptied i s (stops off inum v dp) = done false (put_back i s v dp)
emptied i s (ends off v dp) = done true (put_back i s v dp)

unfoldable pub isdirempty : ℕ → Fs → Result Bool
unfolding scan_loop
isdirempty i s =
    let dp = (s.itable i).ip in
    emptied i s (
      scan_loop (λ d. not (d.inum == 0))
        ((dp.size - 2 * dirent_size + (dirent_size - 1)) / dirent_size) (2 * dirent_size) s.vol dp)

-- "." and "..".
abbrev pub dot : ℕ → ℕ
dot k = if k == 0 then 46 else 0

abbrev pub dot_dot : ℕ → ℕ
dot_dot k = if leb k 1 then 46 else 0

-- `sys_unlink` from the write of an empty entry on, with `dp` in slot `j`.
unfoldable pub unlink_entry : (j i off : ℕ) → Fs → Result Bool
unfolding change and_then iunlockput
unlink_entry j i off s =
    and_then (write_dirent j s off (record { inum = 0; name = λ _. 0 }) s.vol (s.itable j).ip)
      (λ wrote a. elim wrote [
        | false ↦ panics
        | true ↦
            (let b = (if (a.itable i).ip.type == t_dir then change j fewer_links a else a) in
              and_then (iunlockput j b) (λ u c. put_and i true (change i fewer_links c)))
      ])

-- From the lock of `ip` on.
unfoldable pub unlink_inode : (j i off : ℕ) → Fs → Result Bool
unfolding unlink_entry isdirempty and_then ilock iunlockput
unlink_inode j i off s = and_then (ilock i s) (λ u a. elim (is_below_one (a.itable i).ip.nlink) [
  | true ↦ panics
  | false ↦
      and_then (if (a.itable i).ip.type == t_dir then isdirempty i a else done true a) (λ empty b.
        elim empty [
          | false ↦ and_then (iunlockput i b) (λ u' c. put_and j false c)
          | true ↦ unlink_entry j i off b
        ])
])

unfoldable pub unlink_name : (j : ℕ) (name : ℕ → ℕ) → Fs → Result Bool
unfolding unlink_inode namecmp dirlookup and_then ilock
unlink_name j name s = and_then (ilock j s) (λ u a.
    elim (namecmp name dot || namecmp name dot_dot) [
      | true ↦ put_and j false a
      | false ↦ and_then (dirlookup j name a) (λ found b. elim found [
        | none ↦ put_and j false b
        | some (i, off) ↦ unlink_inode j i off b
      ])
    ])

unfoldable pub sys_unlink : (cwd : ℕ) → Option PathArg → Fs → Result Bool
unfolding unlink_name nameiparent and_then
sys_unlink cwd none s = done false s
sys_unlink cwd (some path) s =
    and_then (nameiparent cwd path.bytes path.len (λ _. 0) s)
      (λ r a. elim r.0 [ none ↦ done false a | some j ↦ unlink_name j r.1 a ])
