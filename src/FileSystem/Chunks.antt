-- ===== src/FileSystem/Chunks.antt =====
-- kernel/file.c: `filewrite` of a file of type FD_INODE, a few blocks at a time.
pub mod Written
use csci_315_operating_sytem.Prelude.{
  ℕ, zero, suc, ◌+◌, ◌-◌, ◌*◌, ◌/◌, ◌^◌, ◌<◌, ◌≤◌, ◌≡◌, ◌⊎◌, refl, arith, Bool, true, false, not,
  ◌&&◌, Option, some, none, ◌==◌, ltb, leb, if◌then◌else◌, inl, inr, Bool-cases, u32, ap, ◌∙◌, sym,
  subst,
}
use csci_315_operating_sytem.FileSystem.Volume.{bsize, maxfile, Volume, is_used}
use csci_315_operating_sytem.FileSystem.Content.{Inode, Moved, writei}
use csci_315_operating_sytem.FileSystem.Content.Slots.{byte_at, IsFile, IsWhole}
use csci_315_operating_sytem.FileSystem.Content.File.{Wrote, Ends, writei-Ends}

-- `((MAXOPBLOCKS-1-1-2) / 2) * BSIZE`
abbrev pub max_chunk : ℕ
max_chunk = (10 - 1 - 1 - 2) / 2 * bsize

abbrev pub chunk : (n i : ℕ) → ℕ
chunk n i = if ltb max_chunk (n - i) then max_chunk else n - i

-- The loop's `i`, `f->off`, and the file.
pub record Writing : Type 0 where
  pub i : ℕ
  pub off : ℕ
  pub vol : Volume
  pub ip : Inode

-- `if ((r = writei(...)) > 0) f->off += r`
abbrev pub advanced : (off : ℕ) → Option ℕ → ℕ
advanced off none = off
advanced off (some r) = u32 (off + r)

abbrev pub is_count : Option ℕ → ℕ → Bool
is_count none n = false
is_count (some r) n = r == n

-- `while(i < n)`, between begin_op and end_op with the inode's lock; a round writes a byte at least, so `fuel`
-- is at most `n - i`. `none` is a panic.
unfoldable pub chunks_loop :
    (copyin : ℕ → ℕ → Bool) → (src : ℕ → ℕ) → (n fuel i off : ℕ) → Volume → Inode → Option Writing
chunks_loop copyin src n zero i off v ip = some (record { i = i; off = off; vol = v; ip = ip })
chunks_loop copyin src n (suc f) i off v ip = elim (ltb i n) [
  | false ↦ some (record { i = i; off = off; vol = v; ip = ip })
  | true ↦ elim (writei (λ k m. copyin (i + k) m) (λ k. src (i + k)) v ip off (chunk n i)) [
    | none ↦ none
    | some m ↦ elim (is_count m.count (chunk n i)) [
      | false ↦ some (record { i = i; off = advanced off m.count; vol = m.vol; ip = m.ip })
      | true ↦ chunks_loop copyin src n f (i + chunk n i) (advanced off m.count) m.vol m.ip
    ]
  ]
]

-- `i == n ? n : -1`
abbrev pub write_result : ℕ → Writing → Option ℕ
write_result n w = if w.i == n then some n else none

-- The branch of FD_INODE.
unfoldable pub filewrite_inode :
    (copyin : ℕ → ℕ → Bool)
    → (src : ℕ → ℕ) → (n off : ℕ) → Volume
    → Inode
    → Option (Option ℕ × Writing)
unfolding chunks_loop
filewrite_inode copyin src n off v ip = elim (chunks_loop copyin src n n 0 off v ip) [
  | none ↦ none
  | some w ↦ some (write_result n w, w)
]

-- The file before any write.
abbrev pub untouched : (off : ℕ) → Volume → Inode → Writing
untouched off v ip = record { i = 0; off = off; vol = v; ip = ip }

-- `filewrite` of a file of this type: -1 unless it is writable.
unfoldable pub filewrite :
    (writable : Bool)
    → (copyin : ℕ → ℕ → Bool) → (src : ℕ → ℕ) → (n off : ℕ) → Volume
    → Inode
    → Option (Option ℕ × Writing)
unfolding filewrite_inode
filewrite writable copyin src n off v ip =
    if not writable then some (none, untouched off v ip) else filewrite_inode copyin src n off v ip
