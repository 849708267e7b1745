-- ===== src/FileSystem/Volume.antt =====
-- The disk as fs.c sees it through the buffer cache, and the allocation of blocks.
use csci_315_operating_sytem.Prelude.{
  ℕ, zero, suc, ◌+◌, ◌-◌, ◌*◌, ◌/◌, ◌%◌, Bool, true, false, ◌&&◌, not, Option, none, some, ◌==◌,
  ltb, if◌then◌else◌, update,
}

-- BSIZE, BPB, NDIRECT, NINDIRECT, MAXFILE.
abbrev pub bsize : ℕ
bsize = 1024

abbrev pub bits_per_block : ℕ
bits_per_block = bsize * 8

abbrev pub ndirect : ℕ
ndirect = 12

abbrev pub nindirect : ℕ
nindirect = bsize / 4

abbrev pub maxfile : ℕ
maxfile = ndirect + nindirect

-- `struct dinode`; `addrs` has NDIRECT + 1 entries.
pub record Dinode : Type 0 where
  pub type : ℕ
  pub major : ℕ
  pub minor : ℕ
  pub nlink : ℕ
  pub size : ℕ
  pub addrs : ℕ → ℕ

-- The blocks as bytes; the blocks of the free map as bits, from `sb.bmapstart` on; the inode blocks as
-- an array of `struct dinode`; `blocks` is `sb.size`.
pub record Volume : Type 0 where
  pub blocks : ℕ
  pub ninodes : ℕ
  pub free_map : (map_block bit : ℕ) → Bool
  pub block : ℕ → ℕ → ℕ
  pub dinodes : ℕ → Dinode

-- `*(bit bi of map block mb) = x`
abbrev pub set_bit : (mb bi : ℕ) → Bool → (ℕ → ℕ → Bool) → ℕ → ℕ → Bool
set_bit mb bi x f m k = if (m == mb) && (k == bi) then x else f m k

-- BBLOCK(b) and b % BPB.
unfoldable pub is_used : Volume → ℕ → Bool
is_used v b = v.free_map (b / bits_per_block) (b % bits_per_block)

unfoldable pub bzero : ℕ → Volume → Volume
bzero bno v = record v { block = update v.block bno (λ _. 0) }

-- The inner loop of `balloc`.
unfoldable pub scan_bits : Volume → (b rounds bi : ℕ) → Option ℕ
scan_bits v b zero bi = none
scan_bits v b (suc r) bi =
    let later = scan_bits v b r (bi + 1) in
    if ltb (b + bi) v.blocks
    then (if not (v.free_map (b / bits_per_block) bi) then some bi else later)
    else none

-- The outer loop, on the map blocks that are left.
unfoldable pub alloc_loop : Volume → (rounds b : ℕ) → ℕ × Volume
unfolding bzero
alloc_loop v zero b = (0, v)
alloc_loop v (suc r) b = elim (scan_bits v b bits_per_block 0) [
  | some bi ↦ (
    b + bi,
    bzero (b + bi) (record v { free_map = set_bit (b / bits_per_block) bi true v.free_map }),
  )
  | none ↦ alloc_loop v r (b + bits_per_block)
]

-- `balloc`: a block, 0 if there is none.
unfoldable pub balloc : Volume → ℕ × Volume
balloc v = alloc_loop v ((v.blocks + (bits_per_block - 1)) / bits_per_block) 0

-- `none` is the panic.
unfoldable pub bfree : ℕ → Volume → Option Volume
bfree b v =
    if not (v.free_map (b / bits_per_block) (b % bits_per_block))
    then none
    else some
        (record v { free_map = set_bit (b / bits_per_block) (b % bits_per_block) false v.free_map })
