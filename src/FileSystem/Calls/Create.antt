-- ===== src/FileSystem/Calls/Create.antt =====
-- kernel/sysfile.c: create, and the calls that make an inode or change the directory.
use csci_315_operating_sytem.Prelude.{
  ℕ, Bool, true, false, ◌&&◌, ◌||◌, Option, none, some, ◌==◌, if◌then◌else◌,
}
use csci_315_operating_sytem.FileSystem.Inodes.{
  Fs, Result, done, and_then, ilock, iunlock, iunlockput, iput, ialloc,
}
use csci_315_operating_sytem.FileSystem.Directory.{t_dir, dirlookup, dirlink}
use csci_315_operating_sytem.FileSystem.Paths.{namei, nameiparent}
use csci_315_operating_sytem.FileSystem.Calls.{
  t_file, t_device, PathArg, change, more_links, put_and, dot, dot_dot,
}

-- `fail:` of `create`.
unfoldable pub undo_create : (j i : ℕ) → Fs → Result (Option ℕ)
unfolding change and_then iunlockput
undo_create j i s =
    and_then (iunlockput i (change i (λ ip. record ip { nlink = 0 }) s)) (λ u a. put_and j none a)

-- The entries "." and ".." of a new directory.
unfoldable pub link_dots : (j i type : ℕ) → Fs → Result Bool
unfolding and_then dirlink
link_dots j i type s =
    if type == t_dir
    then and_then (dirlink i dot (s.itable i).ip.inum s) (λ linked a. elim linked [
      | false ↦ done false a
      | true ↦ dirlink i dot_dot (a.itable j).ip.inum a
    ])
    else done true s

-- `create` from the last entry on.
unfoldable pub link_new : (j i type : ℕ) (name : ℕ → ℕ) → Fs → Result (Option ℕ)
unfolding undo_create change and_then iunlockput dirlink
link_new j i type name s = and_then (dirlink j name (s.itable i).ip.inum s) (λ linked a.
    elim linked [
      | false ↦ undo_create j i a
      | true ↦ put_and j (some i) (if type == t_dir then change j more_links a else a)
    ])

-- `create` once `ialloc` has given slot `i`.
unfoldable pub fill_new : (j i type major minor : ℕ) (name : ℕ → ℕ) → Fs → Result (Option ℕ)
unfolding link_new link_dots undo_create change and_then ilock
fill_new j i type major minor name s = and_then (ilock i s) (λ u a.
    and_then
      (link_dots j i type
        (change i (λ ip. record ip { major = major; minor = minor; nlink = 1 }) a))
      (λ linked b. elim linked [ false ↦ undo_create j i b | true ↦ link_new j i type name b ]))

-- The name exists: only a file or a device is opened again.
unfoldable pub open_old : (j i type : ℕ) → Fs → Result (Option ℕ)
unfolding and_then ilock iunlockput
open_old j i type s = and_then (iunlockput j s) (λ u a. and_then (ilock i a) (λ u' b.
    if (type == t_file) && (((b.itable i).ip.type == t_file) || ((b.itable i).ip.type == t_device))
    then done (some i) b
    else put_and i none b))

unfoldable pub create_in : (j type major minor : ℕ) (name : ℕ → ℕ) → Fs → Result (Option ℕ)
unfolding open_old fill_new and_then ilock iunlockput ialloc dirlookup
create_in j type major minor name s = and_then (ilock j s) (λ u a.
    and_then (dirlookup j name a) (λ found b. elim found [
      | some (i, off) ↦ open_old j i type b
      | none ↦ and_then (ialloc (b.itable j).dev type b) (λ new c. elim new [
        | none ↦ put_and j none c
        | some i ↦ fill_new j i type major minor name c
      ])
    ]))

unfoldable pub create : (cwd : ℕ) → PathArg → (type major minor : ℕ) → Fs → Result (Option ℕ)
unfolding create_in and_then nameiparent
create cwd path type major minor s =
    and_then (nameiparent cwd path.bytes path.len (λ _. 0) s)
      (λ r a. elim r.0 [ none ↦ done none a | some j ↦ create_in j type major minor r.1 a ])

-- `true` for 0, `false` for -1; `none` is an argument that cannot be fetched.
abbrev pub created : Option ℕ → Fs → Result Bool
created none s = done false s
created (some i) s = put_and i true s

unfoldable pub sys_mkdir : (cwd : ℕ) → Option PathArg → Fs → Result Bool
unfolding create and_then iunlockput
sys_mkdir cwd none s = done false s
sys_mkdir cwd (some path) s = and_then (create cwd path t_dir 0 0 s) (λ new a. created new a)

unfoldable pub sys_mknod : (cwd : ℕ) → Option PathArg → (major minor : ℕ) → Fs → Result Bool
unfolding create and_then iunlockput
sys_mknod cwd none major minor s = done false s
sys_mknod cwd (some path) major minor s =
    and_then (create cwd path t_device major minor s) (λ new a. created new a)

-- The new `p->cwd` with the result.
unfoldable pub sys_chdir : (cwd : ℕ) → Option PathArg → Fs → Result (Bool × ℕ)
unfolding and_then namei ilock iunlock iunlockput iput
sys_chdir cwd none s = done (false, cwd) s
sys_chdir cwd (some path) s = and_then (namei cwd path.bytes path.len s) (λ found a. elim found [
  | none ↦ done (false, cwd) a
  | some i ↦ and_then (ilock i a) (λ u b. elim ((b.itable i).ip.type == t_dir) [
    | false ↦ put_and i (false, cwd) b
    | true ↦ and_then (iunlock i b) (λ u' c. and_then (iput cwd c) (λ u'' d. done (true, i) d))
  ])
])
