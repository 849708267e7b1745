-- ===== src/Log/Head.antt =====
-- The log header on disk: what `write_head` lays down `read_head` reads back.
use csci_315_operating_sytem.Prelude.{
  ℕ, zero, suc, ◌+◌, ◌<◌, ◌≤◌, ◌≡◌, refl, arith, inl, inr, ◌==◌, Bool-cases, update, update_ne,
  update_self, ◌∙◌,
}
use csci_315_operating_sytem.Log.Defs.{Block, read_blocks, head_words}

-- Words outside 1 .. n keep their value.
pub head_words_low :
    (block : ℕ → ℕ) (k i j : ℕ) (w : Block) → j ≤ i → head_words block k i w j ≡ w j
unfolding head_words
head_words_low block zero i j w h = refl
head_words_low block (suc k) i j w h =
    head_words_low block k (i + 1) j (update w (i + 1) (block i)) (omega arith)
    ∙ update_ne w (i + 1) j (block i) (omega arith)

pub head_words_at :
    (block : ℕ → ℕ) (k i t : ℕ) (w : Block)
    → i ≤ t
    → t < i + k
    → head_words block k i w (t + 1) ≡ block t
unfolding head_words
head_words_at block zero i t w le lt = absurd (omega arith)
head_words_at block (suc k) i t w le lt = elim (Bool-cases (i == t)) [
  | inl here ↦
      (let e : t ≡ i = ground arith in
        rw e (
          head_words_low block k (i + 1) (i + 1) (update w (i + 1) (block i)) (omega arith)
          ∙ update_self w (i + 1) (block i)))
  | inr later ↦
      head_words_at block k (i + 1) t (update w (i + 1) (block i)) (ground arith) (omega arith)
]

pub read_blocks_low :
    (w : Block) (k i j : ℕ) (block : ℕ → ℕ) → j < i → read_blocks w k i block j ≡ block j
unfolding read_blocks
read_blocks_low w zero i j block h = refl
read_blocks_low w (suc k) i j block h =
    read_blocks_low w k (i + 1) j (update block i (w (i + 1))) (omega arith)
    ∙ update_ne block i j (w (i + 1)) (omega arith)

pub read_blocks_at :
    (w : Block) (k i t : ℕ) (block : ℕ → ℕ)
    → i ≤ t
    → t < i + k
    → read_blocks w k i block t ≡ w (t + 1)
unfolding read_blocks
read_blocks_at w zero i t block le lt = absurd (omega arith)
read_blocks_at w (suc k) i t block le lt = elim (Bool-cases (i == t)) [
  | inl here ↦
      (let e : t ≡ i = ground arith in
        rw e (
          read_blocks_low w k (i + 1) i (update block i (w (i + 1))) (omega arith)
          ∙ update_self block i (w (i + 1))))
  | inr later ↦
      read_blocks_at w k (i + 1) t (update block i (w (i + 1))) (ground arith) (omega arith)
]
