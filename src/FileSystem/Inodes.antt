-- ===== src/FileSystem/Inodes.antt =====
-- kernel/fs.c: the table of inodes in memory, with the disk (iget, idup, ilock, iunlock, iput, ialloc).
pub mod Table
pub mod Put
use csci_315_operating_sytem.Prelude.{
  ℕ, zero, suc, ◌+◌, ◌-◌, ◌*◌, ◌≡◌, Bool, true, false, ◌&&◌, ◌||◌, not, Option, none, some, ◌==◌,
  ltb, if◌then◌else◌, update,
}
use csci_315_operating_sytem.FileSystem.Volume.{Dinode, Volume}
use csci_315_operating_sytem.FileSystem.Content.{Inode, iupdate, itrunc}

-- NINODE, ROOTDEV.
abbrev pub ninode : ℕ
ninode = 50

abbrev pub rootdev : ℕ
rootdev = 1

-- `struct inode`. `locked` says that the process holds `lock`; `ip` is the number and the copy of the
-- disk's inode.
pub record InodeSlot : Type 0 where
  pub dev : ℕ
  pub ref : ℕ
  pub locked : Bool
  pub valid : Bool
  pub ip : Inode

-- The disk, and `itable`.
pub record Fs : Type 0 where
  pub vol : Volume
  pub itable : ℕ → InodeSlot

-- A call returns, panics, or sleeps on an inode's lock.
pub data Result (A : Type 0) : Type 0 where
  done : A → Fs → Result A
  panics : Result A
  sleeps : Result A

unfoldable pub and_then : {A B : Type 0} → Result A → (A → Fs → Result B) → Result B
and_then (done a s) f = f a s
and_then panics f = panics
and_then sleeps f = sleeps

abbrev pub set_slot : ℕ → InodeSlot → Fs → Fs
set_slot i e s = record s { itable = update s.itable i e }

abbrev pub set_ref : ℕ → ℕ → Fs → Fs
set_ref i n s = set_slot i (record (s.itable i) { ref = n }) s

-- The slot that is already for the inode, and the first empty one.
pub record Search : Type 0 where
  pub hit : Option ℕ
  pub empty : Option ℕ

abbrev pub is_for : InodeSlot → (dev inum : ℕ) → Bool
is_for e dev inum = ltb 0 e.ref && ((e.dev == dev) && (e.ip.inum == inum))

abbrev pub or_this : Option ℕ → Bool → ℕ → Option ℕ
or_this none free i = if free then some i else none
or_this (some k) free i = some k

-- `for(ip = &itable.inode[0]; ip < &itable.inode[NINODE]; ip++)`
unfoldable pub iget_loop : (ℕ → InodeSlot) → (dev inum rounds i : ℕ) → Option ℕ → Search
iget_loop t dev inum zero i empty = record { hit = none; empty = empty }
iget_loop t dev inum (suc r) i empty = elim (is_for (t i) dev inum) [
  | true ↦ record { hit = some i; empty = empty }
  | false ↦ iget_loop t dev inum r (i + 1) (or_this empty ((t i).ref == 0) i)
]

abbrev pub recycled : InodeSlot → (dev inum : ℕ) → InodeSlot
recycled e dev inum = record e {
  dev = dev;
  ref = 1;
  valid = false;
  ip = record e.ip { inum = inum };
}

abbrev pub take_slot : (dev inum : ℕ) → Fs → Option ℕ → Result ℕ
take_slot dev inum s none = panics
take_slot dev inum s (some i) = done i (set_slot i (recycled (s.itable i) dev inum) s)

unfoldable pub iget : (dev inum : ℕ) → Fs → Result ℕ
iget dev inum s =
    let f = iget_loop s.itable dev inum ninode 0 none in
    elim f.hit [
      | some i ↦ done i (set_ref i ((s.itable i).ref + 1) s)
      | none ↦ take_slot dev inum s f.empty
    ]

unfoldable pub iget_by_inum : (inum : ℕ) → Fs → Result ℕ
unfolding iget
iget_by_inum inum s = iget rootdev inum s

unfoldable pub idup : (i : ℕ) → Fs → Result ℕ
idup i s = done i (set_ref i ((s.itable i).ref + 1) s)

-- The copy of `dip` that `ilock` makes.
abbrev pub copy_of : (inum : ℕ) → Dinode → Inode
copy_of inum d = record {
  inum = inum;
  type = d.type;
  major = d.major;
  minor = d.minor;
  nlink = d.nlink;
  size = d.size;
  addrs = d.addrs;
}

abbrev pub read_slot : InodeSlot → Volume → InodeSlot
read_slot e v = record e {
  locked = true;
  valid = true;
  ip = copy_of e.ip.inum (v.dinodes e.ip.inum);
}

unfoldable pub ilock : (i : ℕ) → Fs → Result Unit
ilock i s = elim (ltb (s.itable i).ref 1) [
  | true ↦ panics
  | false ↦ elim (s.itable i).locked [
    | true ↦ sleeps
    | false ↦ elim (s.itable i).valid [
      | true ↦ done tt (set_slot i (record (s.itable i) { locked = true }) s)
      | false ↦ elim ((s.vol.dinodes (s.itable i).ip.inum).type == 0) [
        | true ↦ panics
        | false ↦ done tt (set_slot i (read_slot (s.itable i) s.vol) s)
      ]
    ]
  ]
]

unfoldable pub iunlock : (i : ℕ) → Fs → Result Unit
iunlock i s =
    if not (s.itable i).locked || ltb (s.itable i).ref 1
    then panics
    else done tt (set_slot i (record (s.itable i) { locked = false }) s)

-- From `itrunc` on: no type on disk, and no copy in memory.
unfoldable pub free_inode : (i : ℕ) → Fs → Result Unit
unfolding itrunc iupdate
free_inode i s = elim (itrunc s.vol (s.itable i).ip) [
  | none ↦ panics
  | some (v, ip) ↦
      (let gone = record ip { type = 0 } in
        done tt (record {
          vol = iupdate v gone;
          itable = update s.itable i (record (s.itable i) { valid = false; ip = gone });
        }))
]

-- The caller holds a reference, so that `ref` is 1 at least.
unfoldable pub iput : (i : ℕ) → Fs → Result Unit
unfolding free_inode and_then
iput i s =
    let e = s.itable i in
    elim ((e.ref == 1) && (e.valid && (e.ip.nlink == 0))) [
      | false ↦ done tt (set_ref i (e.ref - 1) s)
      | true ↦ elim e.locked [
        | true ↦ sleeps
        | false ↦ and_then (free_inode i s) (λ u z. done tt (set_ref i ((z.itable i).ref - 1) z))
      ]
    ]

unfoldable pub iunlockput : (i : ℕ) → Fs → Result Unit
unfolding iunlock iput and_then
iunlockput i s = and_then (iunlock i s) (λ u z. iput i z)

-- `memset(dip, 0, sizeof(*dip)); dip->type = type`
abbrev pub new_dinode : (type : ℕ) → Dinode
new_dinode type = record { type = type; major = 0; minor = 0; nlink = 0; size = 0; addrs = λ _. 0 }

-- The inodes that are left; `none` is the null pointer.
unfoldable pub ialloc_loop : (dev type rounds inum : ℕ) → Fs → Result (Option ℕ)
unfolding iget and_then
ialloc_loop dev type zero inum s = done none s
ialloc_loop dev type (suc r) inum s = elim ((s.vol.dinodes inum).type == 0) [
  | false ↦ ialloc_loop dev type r (inum + 1) s
  | true ↦
      and_then
        (iget dev inum (record s {
          vol = record s.vol { dinodes = update s.vol.dinodes inum (new_dinode type) };
        }))
        (λ i z. done (some i) z)
]

unfoldable pub ialloc : (dev type : ℕ) → Fs → Result (Option ℕ)
unfolding ialloc_loop
ialloc dev type s = ialloc_loop dev type (s.vol.ninodes - 1) 1 s

-- An inode with no links is locked and put, which frees it.
unfoldable pub reclaim_one : (dev inum : ℕ) → Fs → Result Unit
unfolding iget ilock iunlock iput and_then
reclaim_one dev inum s =
    if not ((s.vol.dinodes inum).type == 0) && ((s.vol.dinodes inum).nlink == 0)
    then and_then (iget dev inum s)
        (λ i a. and_then (ilock i a) (λ u b. and_then (iunlock i b) (λ u' c. iput i c)))
    else done tt s

unfoldable pub ireclaim_loop : (dev rounds inum : ℕ) → Fs → Result Unit
unfolding reclaim_one and_then
ireclaim_loop dev zero inum s = done tt s
ireclaim_loop dev (suc r) inum s =
    and_then (reclaim_one dev inum s) (λ u z. ireclaim_loop dev r (inum + 1) z)

unfoldable pub ireclaim : (dev : ℕ) → Fs → Result Unit
unfolding ireclaim_loop
ireclaim dev s = ireclaim_loop dev (s.vol.ninodes - 1) 1 s
