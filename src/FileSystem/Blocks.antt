-- ===== src/FileSystem/Blocks.antt =====
-- About `balloc` and `bfree` of kernel/fs.c.
use csci_315_operating_sytem.Prelude.{
  ℕ, zero, suc, ◌+◌, ◌-◌, ◌*◌, ◌/◌, ◌%◌, ◌<◌, ◌≤◌, ◌≡◌, ◌⊎◌, refl, arith, Bool, true, false, none,
  some, ◌==◌, ltb, if◌then◌else◌, update, inl, inr, Bool-cases, Option-cases, ap, ◌∙◌, subst,
}
use csci_315_operating_sytem.FileSystem.Volume.{
  bits_per_block, Volume, set_bit, is_used, bzero, scan_bits, alloc_loop, balloc, bfree,
}

-- Block `b` was free, and is now in use and zeroed; nothing else has changed.
pub record Allocated (v : Volume) (b : ℕ) (w : Volume) : Type 0 where
  pub was_free : is_used v b ≡ false
  pub within : b < v.blocks
  pub used : (n : ℕ) → is_used w n ≡ (if n == b then true else is_used v n)
  pub block : w.block ≡ update v.block b (λ _. 0)
  pub blocks : w.blocks ≡ v.blocks
  pub ninodes : w.ninodes ≡ v.ninodes
  pub dinodes : w.dinodes ≡ v.dinodes

scan_bits-some :
    (v : Volume) (b r bi : ℕ) {k : ℕ}
    → scan_bits v b r bi ≡ some k
    → (v.free_map (b / bits_per_block) k ≡ false) × (b + k < v.blocks) × (k < bi + r)
unfolding scan_bits
scan_bits-some v b zero bi e = absurd (cc)
scan_bits-some v b (suc r) bi {k} e = elim (Bool-cases (ltb (b + bi) v.blocks)) [
  | inr past ↦ absurd (ground arith)
  | inl in_range ↦ elim (Bool-cases (v.free_map (b / bits_per_block) bi)) [
    | inl taken ↦ ground (arith, scan_bits-some v b r (bi + 1) {k = k})
    | inr free ↦ ground arith
  ]
]

scan_bits-none :
    (v : Volume) (b r bi k : ℕ)
    → scan_bits v b r bi ≡ none
    → bi ≤ k
    → k < bi + r
    → b + k < v.blocks
    → v.free_map (b / bits_per_block) k ≡ true
unfolding scan_bits
scan_bits-none v b zero bi k e le lt within = absurd (omega arith)
scan_bits-none v b (suc r) bi k e le lt within =
    elim (Bool-cases (v.free_map (b / bits_per_block) bi)) [
      | inr free ↦ absurd (ground arith)
      | inl taken ↦ elim (Bool-cases (k == bi)) [
        | inl here ↦ (let same : k ≡ bi = ground arith in rw same taken)
        | inr later ↦
            scan_bits-none v b r (bi + 1) k (ground arith) (ground arith) (omega arith) within
      ]
    ]

-- Setting the bit of block `b` marks block `b` alone.
pub is_used-set_bit :
    (v : Volume) (b n : ℕ) (x : Bool)
    → is_used
        (record v { free_map = set_bit (b / bits_per_block) (b % bits_per_block) x v.free_map })
        n
      ≡ (if n == b then x else is_used v n)
unfolding is_used
is_used-set_bit v b n x = elim (Bool-cases (n == b)) [
  | inl same ↦ (let e : n ≡ b = ground arith in rw e (ground arith))
  | inr other ↦ ground (arith, different)
]
  where
    different :
        n / bits_per_block ≡ b / bits_per_block → n % bits_per_block ≡ b % bits_per_block → n ≡ b
    different e f = omega arith

is_used-at :
    (v : Volume) (n mb k : ℕ)
    → n / bits_per_block ≡ mb
    → n % bits_per_block ≡ k
    → is_used v n ≡ v.free_map mb k
unfolding is_used
is_used-at v n mb k row column =
    ap (λ x. v.free_map x (n % bits_per_block)) row ∙ ap (v.free_map mb) column

-- What the outer loop does from the map block of `b` on.
abbrev Outcome : Volume → ℕ → ℕ × Volume → Type 0
Outcome v b r =
    ((r ≡ (0, v)) × ((n : ℕ) → b ≤ n → n < v.blocks → is_used v n ≡ true)) ⊎ Allocated v r.0 r.1

found-Allocated :
    (v : Volume) (b bi : ℕ)
    → b % bits_per_block ≡ 0
    → bi < bits_per_block
    → v.free_map (b / bits_per_block) bi ≡ false
    → b + bi < v.blocks
    → Allocated v
        (b + bi)
        (bzero (b + bi) (record v { free_map = set_bit (b / bits_per_block) bi true v.free_map }))
unfolding bzero is_used
found-Allocated v b bi aligned lt free within = record {
  was_free = is_used-at v (b + bi) _ bi row column ∙ free;
  within = within;
  used = λ n.
      subst
        (λ m.
          is_used (record v { free_map = set_bit m bi true v.free_map }) n
          ≡ (if n == b + bi then true else is_used v n))
        row
        (subst
          (λ k.
            is_used (record v { free_map = set_bit ((b + bi) / bits_per_block) k true v.free_map })
              n
            ≡ (if n == b + bi then true else is_used v n))
          column (is_used-set_bit v (b + bi) n true));
  block = refl;
  blocks = refl;
  ninodes = refl;
  dinodes = refl;
}
  where
    row : (b + bi) / bits_per_block ≡ b / bits_per_block
    row = omega arith

    column : (b + bi) % bits_per_block ≡ bi
    column = omega arith

alloc_loop-Outcome :
    (v : Volume) (r b : ℕ)
    → b % bits_per_block ≡ 0
    → v.blocks ≤ b + r * bits_per_block
    → Outcome v b (alloc_loop v r b)
unfolding alloc_loop
alloc_loop-Outcome v zero b aligned enough = inl (refl, λ n le lt. absurd (omega arith))
alloc_loop-Outcome v (suc r) b aligned enough =
    elim (Option-cases (scan_bits v b bits_per_block 0)) [
      | inr (bi, found) ↦
          (let (free, within, lt) = scan_bits-some v b bits_per_block 0 {k = bi} found in
            rw (found, alloc_loop) (inr (found-Allocated v b bi aligned (omega arith) free within)))
      | inl full ↦
          rw (full, alloc_loop)
            (elim (alloc_loop-Outcome v r (b + bits_per_block) (omega arith) (omega arith)) [
              | inr a ↦ inr a
              | inl (e, rest) ↦ inl (
                e,
                λ n le lt. elim (Bool-cases (ltb n (b + bits_per_block))) [
                  | inr beyond ↦ rest n (ground arith) lt
                  | inl here ↦
                      (let row : n / bits_per_block ≡ b / bits_per_block = near n here le in
                        is_used-at v n _ (n % bits_per_block) row refl
                        ∙ scan_bits-none v b bits_per_block 0 (n % bits_per_block) full
                            (omega arith) (omega arith) (omega (arith, row)))
                ],
              )
            ])
    ]
  where
    near :
        (n : ℕ)
        → ltb n (b + bits_per_block) ≡ true
        → b ≤ n
        → n / bits_per_block ≡ b / bits_per_block
    near n here le = omega (arith, lt n here)
      where
        lt : (n : ℕ) → ltb n (b + bits_per_block) ≡ true → n < b + bits_per_block
        lt n e = ground arith

-- `balloc` returns a block that was free, marks and zeroes it, and changes nothing else; or it returns 0,
-- when every block is in use, and changes nothing.
pub balloc-Allocated :
    (v : Volume)
    → ((balloc v ≡ (0, v)) × ((n : ℕ) → n < v.blocks → is_used v n ≡ true))
      ⊎ Allocated v (balloc v).0 (balloc v).1
unfolding balloc
balloc-Allocated v =
    elim (alloc_loop-Outcome v ((v.blocks + (bits_per_block - 1)) / bits_per_block) 0 (omega arith)
      (omega arith)) [ inl (e, all) ↦ inl (e, λ n lt. all n (omega arith) lt) | inr a ↦ inr a ]

-- A block in use can be freed: `bfree` does not panic, and marks this block alone as free; nothing else of the
-- disk changes.
pub bfree-used :
    (v : Volume) (b : ℕ)
    → is_used v b ≡ true
    → (w : Volume) × (bfree b v ≡ some w)
      × ((n : ℕ) → is_used w n ≡ (if n == b then false else is_used v n))
      × (w ≡ record v { free_map = w.free_map })
unfolding bfree
bfree-used v b used = (
  record v { free_map = set_bit (b / bits_per_block) (b % bits_per_block) false v.free_map },
  unfold is_used in (rw used refl),
  λ n. is_used-set_bit v b n false,
  refl,
)
