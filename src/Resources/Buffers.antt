-- ===== src/Resources/Buffers.antt =====
-- kernel/bio.c: the buffers and their list in order of use, under the cache's lock. Each call is
-- what it does once the sleep lock of its buffer is free.
pub mod Unique
use csci_315_operating_sytem.Prelude.{
  ℕ, zero, suc, ◌+◌, ◌-◌, ◌^◌, Bool, true, false, ◌&&◌, not, Option, none, some, List, [], ◌∷◌,
  ◌==◌, if◌then◌else◌, u32, update,
}

-- `struct buf`.
pub record Buf : Type 0 where
  pub valid : Bool
  pub dev : ℕ
  pub blockno : ℕ
  pub refcnt : ℕ
  pub bytes : ℕ → ℕ

-- `bcache`: the buffers, and their indices from the most to the least recently used.
pub record Cache : Type 0 where
  pub buf : ℕ → Buf
  pub order : List ℕ

abbrev pub nbuf : ℕ
nbuf = 30

-- `binit`: the list has the last buffer first.
unfoldable pub init_order : ℕ → List ℕ
init_order zero = []
init_order (suc n) = n ∷ init_order n

abbrev pub is_for : (dev blockno : ℕ) → Buf → Bool
is_for dev blockno b = (b.dev == dev) && (b.blockno == blockno)

unfoldable pub find_cached : (ℕ → Buf) → (dev blockno : ℕ) → List ℕ → Option ℕ
find_cached buf dev blockno [] = none
find_cached buf dev blockno (i ∷ is) =
    let later = find_cached buf dev blockno is in
    if is_for dev blockno (buf i) then some i else later

-- From the end of the list on, the first buffer that is not in use.
unfoldable pub find_unused : (ℕ → Buf) → List ℕ → Option ℕ
find_unused buf [] = none
find_unused buf (i ∷ is) = elim (find_unused buf is) [
  | some j ↦ some j
  | none ↦ if (buf i).refcnt == 0 then some i else none
]

abbrev pub recycled : (dev blockno : ℕ) → Buf → Buf
recycled dev blockno b = record b { valid = false; dev = dev; blockno = blockno; refcnt = 1 }

-- `none` is the panic.
unfoldable pub bget : (dev blockno : ℕ) → Cache → Option (ℕ × Cache)
bget dev blockno c = elim (find_cached c.buf dev blockno c.order) [
  | some i ↦ some (
    i,
    record c { buf = update c.buf i (record (c.buf i) { refcnt = u32 ((c.buf i).refcnt + 1) }) },
  )
  | none ↦ elim (find_unused c.buf c.order) [
    | some i ↦ some (i, record c { buf = update c.buf i (recycled dev blockno (c.buf i)) })
    | none ↦ none
  ]
]

-- `virtio_disk_rw(b, 0)` reads block `blockno` of the disk.
unfoldable pub fill : (ℕ → ℕ → ℕ) → ℕ → Cache → Cache
fill disk i c = if (c.buf i).valid then c else record c {
  buf = update c.buf i (record (c.buf i) { valid = true; bytes = disk (c.buf i).blockno });
}

unfoldable pub bread : (disk : ℕ → ℕ → ℕ) → (dev blockno : ℕ) → Cache → Option (ℕ × Cache)
bread disk dev blockno c = elim (bget dev blockno c) [
  | none ↦ none
  | some (i, d) ↦ some (i, fill disk i d)
]

unfoldable pub remove : ℕ → List ℕ → List ℕ
remove i [] = []
remove i (j ∷ js) = let rest = remove i js in if j == i then rest else j ∷ rest

-- `brelse` of a buffer that the caller has locked.
unfoldable pub brelse : ℕ → Cache → Cache
brelse i c =
    let n = u32 ((c.buf i).refcnt + 2 ^ 32 - 1) in
    record {
      buf = update c.buf i (record (c.buf i) { refcnt = n });
      order = if n == 0 then i ∷ remove i c.order else c.order;
    }
