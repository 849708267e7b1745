-- ===== src/FileSystem/Paths.antt =====
-- kernel/fs.c: path names (skipelem, namex, namei, nameiparent).
pub mod Elements
use csci_315_operating_sytem.Prelude.{
  ℕ, zero, suc, ◌+◌, ◌-◌, ◌≡◌, Bool, true, false, ◌&&◌, ◌||◌, not, Option, none, some, ◌==◌, ltb,
  leb, if◌then◌else◌,
}
use csci_315_operating_sytem.FileSystem.Inodes.{
  Fs, InodeSlot, Result, done, panics, sleeps, and_then, rootdev, iget, idup, ilock, iunlock,
  iunlockput, iput,
}
use csci_315_operating_sytem.FileSystem.Directory.{dirsiz, t_dir, dirlookup}

-- '/', ROOTINO.
abbrev pub slash : ℕ
slash = 47

abbrev pub rootino : ℕ
rootino = 1

-- `while(test) path++`; the fuel is at most the length of the path.
unfoldable pub skip_while : (test : ℕ → Bool) (fuel p : ℕ) → ℕ
skip_while test zero p = p
skip_while test (suc f) p = let rest = skip_while test f (p + 1) in if test p then rest else p

-- `*path == '/'`, and `*path != '/' && *path != 0`.
abbrev pub is_slash : (path : ℕ → ℕ) → ℕ → Bool
is_slash path p = path p == slash

abbrev pub is_in_name : (path : ℕ → ℕ) → ℕ → Bool
is_in_name path p = not (path p == slash) && not (path p == 0)

-- The two ways that `name` is filled with the `len` bytes from `s` on.
abbrev pub fill_name : (path : ℕ → ℕ) (s len : ℕ) → (ℕ → ℕ) → ℕ → ℕ
fill_name path s len name k =
    if leb dirsiz len
    then (if ltb k dirsiz then path (s + k) else name k)
    else (if ltb k len then path (s + k) else (if k == len then 0 else name k))

-- The rest of the path and the name; `none` is the null pointer.
unfoldable pub skipelem : (path : ℕ → ℕ) (fuel p : ℕ) → (ℕ → ℕ) → Option (ℕ × (ℕ → ℕ))
unfolding skip_while
skipelem path fuel p name =
    let s = skip_while (is_slash path) fuel p in
    let e = skip_while (is_in_name path) fuel s in
    if path s == 0
    then none
    else some (skip_while (is_slash path) fuel e, fill_name path s (e - s) name)

-- What `namex` returns: the inode, or the null pointer, and the last name.
abbrev pub Named : Type 0
Named = Option ℕ × (ℕ → ℕ)

abbrev pub give_up : ℕ → (ℕ → ℕ) → Fs → Result Named
give_up i name s = and_then (iunlockput i s) (λ u z. done (none, name) z)

-- `next` of the loop, once the directory is locked.
abbrev pub next_inode : ℕ → Option (ℕ × ℕ) → Fs → Result (Option ℕ)
next_inode i none s = and_then (iunlockput i s) (λ u z. done none z)
next_inode i (some (next, off)) s = and_then (iunlockput i s) (λ u z. done (some next) z)

-- The end of the loop.
abbrev pub last_inode : (parent : Bool) → ℕ → (ℕ → ℕ) → Fs → Result Named
last_inode parent i name s =
    if parent then and_then (iput i s) (λ u z. done (none, name) z) else done (some i, name) s

-- A round of the loop, with `elem` taken and the rest of the path at `q`; `go` is the rest of the loop.
unfoldable pub namex_round :
    (path : ℕ → ℕ) (parent : Bool) (i q : ℕ) (elem : ℕ → ℕ)
    → (ℕ → Fs → Result Named)
    → Fs
    → Result Named
unfolding and_then ilock iunlock iunlockput dirlookup
namex_round path parent i q elem go s = and_then (ilock i s) (λ u a.
    elim ((a.itable i).ip.type == t_dir) [
      | false ↦ give_up i elem a
      | true ↦ elim (parent && (path q == 0)) [
        | true ↦ and_then (iunlock i a) (λ u' b. done (some i, elem) b)
        | false ↦ and_then (dirlookup i elem a) (λ found b.
            and_then (next_inode i found b)
              (λ next c. elim next [ none ↦ done (none, elem) c | some j ↦ go j c ]))
      ]
    ])

-- Each round takes an element, so the rounds are at most the length of the path and one more.
unfoldable pub namex_loop :
    (path : ℕ → ℕ) (parent : Bool) (len rounds i p : ℕ) → (ℕ → ℕ) → Fs → Result Named
unfolding skipelem and_then namex_round iput
namex_loop path parent len zero i p name s = last_inode parent i name s
namex_loop path parent len (suc r) i p name s = elim (skipelem path len p name) [
  | none ↦ last_inode parent i name s
  | some (q, elem) ↦
      namex_round path parent i q elem (λ j c. namex_loop path parent len r j q elem c) s
]

-- `cwd` is the slot of the process's current directory.
unfoldable pub namex :
    (cwd : ℕ) (path : ℕ → ℕ) (len : ℕ) (parent : Bool) → (ℕ → ℕ) → Fs → Result Named
unfolding namex_loop and_then iget idup
namex cwd path len parent name s =
    and_then (if path 0 == slash then iget rootdev rootino s else idup cwd s)
      (λ i z. namex_loop path parent len (len + 1) i 0 name z)

unfoldable pub namei : (cwd : ℕ) (path : ℕ → ℕ) (len : ℕ) → Fs → Result (Option ℕ)
unfolding namex and_then
namei cwd path len s = and_then (namex cwd path len false (λ _. 0) s) (λ r z. done r.0 z)

unfoldable pub nameiparent : (cwd : ℕ) (path : ℕ → ℕ) (len : ℕ) → (ℕ → ℕ) → Fs → Result Named
unfolding namex
nameiparent cwd path len name s = namex cwd path len true name s
