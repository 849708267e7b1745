-- ===== src/Log/Slots.antt =====
-- The search of `log_write` among the blocks that are logged already.
use csci_315_operating_sytem.Prelude.{
  ℕ, zero, suc, ◌+◌, ◌<◌, ◌≤◌, ◌≡◌, ◌≢◌, refl, arith, true, false, inl, inr, ◌==◌, Bool-cases,
  if◌then◌else◌, update,
}
use csci_315_operating_sytem.Log.Defs.{find_slot}
use csci_315_operating_sytem.Log.Overlay.{logged}

pub find_slot_bounds :
    (block : ℕ → ℕ) (b k i : ℕ) → (i ≤ find_slot block b k i) × (find_slot block b k i ≤ i + k)
unfolding find_slot
find_slot_bounds block b zero i = omega arith
find_slot_bounds block b (suc k) i = ground (arith, find_slot_bounds block b k (i + 1))

-- A slot before the end holds the block.
pub find_slot_hit :
    (block : ℕ → ℕ) (b k i : ℕ) → find_slot block b k i < i + k → block (find_slot block b k i) ≡ b
unfolding find_slot
find_slot_hit block b zero i h = absurd (omega arith)
find_slot_hit block b (suc k) i h = elim (Bool-cases (block i == b)) [
  | inl hit ↦ rw hit (ground arith)
  | inr miss ↦ rw miss (find_slot_hit block b k (i + 1) (ground arith))
]

pub find_slot_miss :
    (block : ℕ → ℕ) (b k i t : ℕ) → find_slot block b k i ≡ i + k → i ≤ t → t < i + k → block t ≢ b
unfolding find_slot
find_slot_miss block b zero i t e le lt = absurd (omega arith)
find_slot_miss block b (suc k) i t e le lt = elim (Bool-cases (block i == b)) [
  | inl hit ↦ absurd (ground arith)
  | inr miss ↦ elim (Bool-cases (i == t)) [
    | inl here ↦ ground arith
    | inr later ↦ find_slot_miss block b k (i + 1) t (ground arith) (ground arith) (omega arith)
  ]
]

-- `logged` as membership.
pub logged_at : (block : ℕ → ℕ) (n b t : ℕ) → t < n → block t ≡ b → logged block n b ≡ true
unfolding logged
logged_at block zero b t lt e = absurd (omega arith)
logged_at block (suc n) b t lt e = elim (Bool-cases (t == n)) [
  | inl last ↦ ground arith
  | inr before ↦ ground (arith, logged_at block n b t)
]

pub not-logged :
    (block : ℕ → ℕ) (n b : ℕ) → ((t : ℕ) → t < n → block t ≢ b) → logged block n b ≡ false
unfolding logged
not-logged block zero b h = refl
not-logged block (suc n) b h = ground (arith, h n, not-logged block n b (λ t lt. h t (omega arith)))

-- Writing `b` over itself, or behind the end, logs exactly one more block.
pub logged-update :
    (block : ℕ → ℕ) (n b c i : ℕ) → n ≤ i → logged (update block i b) n c ≡ logged block n c
unfolding logged update
logged-update block zero b c i h = refl
logged-update block (suc n) b c i h = ground (arith, logged-update block n b c i)

pub logged-absorb :
    (block : ℕ → ℕ) (n b c i : ℕ) → block i ≡ b → logged (update block i b) n c ≡ logged block n c
unfolding logged update
logged-absorb block zero b c i e = refl
logged-absorb block (suc n) b c i e = ground (arith, logged-absorb block n b c i e)

pub logged-extend :
    (block : ℕ → ℕ) (n b c : ℕ)
    → logged (update block n b) (n + 1) c ≡ (if b == c then true else logged block n c)
unfolding logged update
logged-extend block n b c =
    (let e : n + 1 ≡ suc n = omega arith in
      rw e (ground (arith, logged-update block n b c n (omega arith))))

-- An entry that `logged` finds.
pub logged_of_miss :
    (block : ℕ → ℕ) (b n : ℕ) → find_slot block b n 0 ≡ n → logged block n b ≡ false
logged_of_miss block b n e =
    not-logged block n b
      (λ t lt. find_slot_miss block b n 0 t (omega arith) (omega arith) (omega arith))

pub logged_of_hit :
    (block : ℕ → ℕ) (b n : ℕ)
    → find_slot block b n 0 ≢ n
    → (block (find_slot block b n 0) ≡ b) × (logged block n b ≡ true)
logged_of_hit block b n ne = (found, logged_at block n b (find_slot block b n 0) below found)
  where
    below : find_slot block b n 0 < n
    below = omega (arith, find_slot_bounds block b n 0)

    found : block (find_slot block b n 0) ≡ b
    found = find_slot_hit block b n 0 (omega (arith, below))
