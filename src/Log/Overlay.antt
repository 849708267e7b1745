-- ===== src/Log/Overlay.antt =====
-- What a disk stands for: its home blocks, overlaid by the transaction that its log header commits.
use csci_315_operating_sytem.Prelude.{
  ℕ, zero, suc, ◌+◌, ◌≤◌, ◌<◌, ◌≡◌, refl, ◌⊎◌, inl, inr, Bool, true, false, arith, ◌==◌,
  if◌then◌else◌, Bool-cases, ◌∙◌,
}
use csci_315_operating_sytem.Log.Defs.{Block, Disk, log_blocks}

-- A block outside the header and the log area.
abbrev pub IsHome : ℕ → ℕ → Type 0
IsHome start b = (b < start) ⊎ (start + log_blocks < b)

-- Block `b` of `base`, or the copy of it that the first `n` log entries hold last.
unfoldable pub overlay : (base logs : Disk) → (start : ℕ) → (ℕ → ℕ) → (n b : ℕ) → Block
overlay base logs start block zero b = base b
overlay base logs start block (suc t) b =
    if block t == b then logs (start + t + 1) else overlay base logs start block t b

-- What recovery would make of block `b`.
abbrev pub meaning : ℕ → Disk → ℕ → Block
meaning start d b = overlay d d start (λ i. d start (i + 1)) (d start 0) b

-- Block `b` is not among the first `n` entries.
unfoldable pub logged : (ℕ → ℕ) → ℕ → ℕ → Bool
logged block zero b = false
logged block (suc t) b = if block t == b then true else logged block t b

pub logged_below :
    (block : ℕ → ℕ) (k n b : ℕ) → k ≤ n → logged block n b ≡ false → logged block k b ≡ false
unfolding logged
logged_below block k zero b le out = (let e : k ≡ 0 = omega arith in rw e)
logged_below block k (suc n) b le out = elim (Bool-cases (k == suc n)) [
  | inl full ↦ (let e : k ≡ suc n = ground arith in rw e out)
  | inr part ↦ logged_below block k n b (ground arith) (ground arith)
]

module _ (base logs : Disk) (start : ℕ) (block : ℕ → ℕ) where
  pub overlay_unlogged :
      (n b : ℕ) → logged block n b ≡ false → overlay base logs start block n b ≡ base b
  unfolding overlay logged
  overlay_unlogged zero b h = refl
  overlay_unlogged (suc n) b h = ground (arith, overlay_unlogged n b)

  -- The overlay reads the base at unlogged blocks, and the log area only below its count.
  pub overlay_congr :
      (base' logs' : Disk) (block' : ℕ → ℕ) (n b : ℕ)
      → (logged block n b ≡ false → base' b ≡ base b)
      → ((t : ℕ) → t < n → logs' (start + t + 1) ≡ logs (start + t + 1))
      → ((t : ℕ) → t < n → block' t ≡ block t)
      → overlay base' logs' start block' n b ≡ overlay base logs start block n b
  unfolding overlay logged
  overlay_congr base' logs' block' zero b same area entry = same refl
  overlay_congr base' logs' block' (suc n) b same area entry = elim (Bool-cases (block n == b)) [
    | inl hit ↦ ground (arith, area n, entry n)
    | inr miss ↦
        let ih =
          overlay_congr base' logs' block' n b (λ e. same (rw miss e)) (λ t h. area t (omega arith))
            (λ t h. entry t (omega arith)) in
        ground (arith, ih, entry n)
  ]

  -- Another pass over a partly installed transaction ends as the first would have.
  pub overlay_again :
      (k n b : ℕ) (d : Disk)
      → k ≤ n
      → d b ≡ overlay base logs start block k b
      → logged block n b ≡ false
      → d b ≡ base b
  overlay_again k n b d le e out = e ∙ overlay_unlogged k b (logged_below block k n b le out)

-- If the log area copies `v` and so does the base at unlogged blocks, the overlay is `v`.
pub overlay-eq :
    (base logs v : Disk) (start : ℕ) (block : ℕ → ℕ) (n b : ℕ)
    → (logged block n b ≡ false → base b ≡ v b)
    → ((t : ℕ) → t < n → logs (start + t + 1) ≡ v (block t))
    → overlay base logs start block n b ≡ v b
unfolding overlay logged
overlay-eq base logs v start block zero b same copies = same refl
overlay-eq base logs v start block (suc n) b same copies = elim (Bool-cases (block n == b)) [
  | inl hit ↦ ground (arith, copies n)
  | inr miss ↦
      (let ih =
          overlay-eq base logs v start block n b (λ e. same (rw miss e))
            (λ t h. copies t (omega arith)) in
        ground (arith, ih))
]
