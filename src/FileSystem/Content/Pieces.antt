-- ===== src/FileSystem/Content/Pieces.antt =====
-- The bytes that a round of `readi` or `writei` moves.
use csci_315_operating_sytem.Prelude.{
  ℕ, ◌+◌, ◌-◌, ◌/◌, ◌%◌, ◌<◌, ◌≤◌, ◌≡◌, ◌≢◌, arith, ltb, inl, inr, Bool-cases,
}
use csci_315_operating_sytem.FileSystem.Volume.{bsize, Volume}
use csci_315_operating_sytem.FileSystem.Content.{Inode, piece}
use csci_315_operating_sytem.FileSystem.Content.Slots.{slot, byte_at}

-- A round moves at least a byte, no more than asked, and stays within a block.
pub record IsPiece (n tot off p : ℕ) : Type 0 where
  pub some_bytes : 0 < p
  pub asked : tot + p ≤ n
  pub one_block : off % bsize + p ≤ bsize

pub piece-IsPiece : (n tot off : ℕ) → tot < n → IsPiece n tot off (piece n tot off)
unfolding piece
piece-IsPiece n tot off lt = elim (Bool-cases (ltb (n - tot) (bsize - off % bsize))) [
  | inl rest ↦
      rw (rest, piece)
        (record { some_bytes = omega arith; asked = omega arith; one_block = ground arith })
  | inr fill ↦
      rw (fill, piece)
        (record { some_bytes = omega arith; asked = ground arith; one_block = omega arith })
]

-- Byte `j` of the piece at `off` is in the block of `off`.
pub piece-block : (off j : ℕ) → off % bsize + j < bsize → (off + j) / bsize ≡ off / bsize
piece-block off j lt = omega arith

pub piece-place : (off j : ℕ) → off % bsize + j < bsize → (off + j) % bsize ≡ off % bsize + j
piece-place off j lt = omega arith

pub byte_at-piece :
    (v : Volume) (ip : Inode) (off j : ℕ)
    → off % bsize + j < bsize
    → slot v ip (off / bsize) ≢ 0
    → byte_at v ip (off + j) ≡ v.block (slot v ip (off / bsize)) (off % bsize + j)
unfolding byte_at
byte_at-piece v ip off j lt ne = rw (piece-block off j lt, piece-place off j lt) (ground arith)
