-- ===== src/Prelude/Fold.antt =====
-- Counted loops over a table that is a function of the index.
use Prim.Native.Nat.{ℕ, zero, suc, ◌+◌, ◌≤◌, ◌<◌}
use mathlib.Core.Path.{◌≡◌, refl, ap, ◌∙◌}
use mathlib.Core.Bool.{Bool, true, false}
use mathlib.Core.Logic.{inl, inr}
use mathlib.Core.Option.{Option, none, some}
use native.Mathlib.Omega.{arith}
use csci_315_operating_sytem.Prelude.Tests.{◌==◌, if◌then◌else◌, Bool-cases}

-- The first index from `i` on, among `n`, that passes the test.
unfoldable pub first : (ℕ → Bool) → ℕ → ℕ → Option ℕ
first p zero i = none
first p (suc n) i = let rest = first p n (i + 1) in if p i then some i else rest

pub first-some :
    (p : ℕ → Bool) (n i : ℕ) {j : ℕ} → first p n i ≡ some j → (p j ≡ true) × (i ≤ j) × (j < i + n)
unfolding first
first-some p zero i e = absurd (cc)
first-some p (suc n) i {j} e = elim (Bool-cases (p i)) [
  | inl hit ↦ ground arith
  | inr miss ↦ ground (arith, first-some p n (i + 1) {j = j})
]

pub first_minimal :
    (p : ℕ → Bool) (n i k : ℕ) {j : ℕ} → first p n i ≡ some j → i ≤ k → k < j → p k ≡ false
unfolding first
first_minimal p zero i k e h l = absurd (cc)
first_minimal p (suc n) i k {j} e h l = elim (Bool-cases (k == i)) [
  | inl here ↦ ground arith
  | inr later ↦ ground (arith, first_minimal p n (i + 1) k {j = j})
]

pub first-none : (p : ℕ → Bool) (n i k : ℕ) → first p n i ≡ none → i ≤ k → k < i + n → p k ≡ false
unfolding first
first-none p zero i k e h l = absurd (omega arith)
first-none p (suc n) i k e h l = elim (Bool-cases (k == i)) [
  | inl here ↦ ground arith
  | inr later ↦ ground (arith, first-none p n (i + 1) k)
]

pub first-at :
    (p : ℕ → Bool) (n i k : ℕ)
    → i ≤ k
    → k < i + n
    → p k ≡ true
    → ((j : ℕ) → i ≤ j → j < k → p j ≡ false)
    → first p n i ≡ some k
unfolding first
first-at p zero i k le lt hit miss = absurd (omega arith)
first-at p (suc n) i k le lt hit miss = elim (Bool-cases (k == i)) [
  | inl here ↦ ground arith
  | inr later ↦
      (let no : p i ≡ false = miss i (omega arith) (ground arith) in
        ground (
          arith,
          no,
          first-at p n (i + 1) k (ground arith) (omega arith) hit (λ j l m. miss j (omega arith) m),
        ))
]

pub first-agree :
    (p q : ℕ → Bool) (n i : ℕ)
    → ((j : ℕ) → i ≤ j → j < i + n → p j ≡ q j)
    → first p n i ≡ first q n i
unfolding first
first-agree p q zero i h = refl
first-agree p q (suc n) i h =
    let here : p i ≡ q i = h i (omega arith) (omega arith) in
    ground (arith, here, first-agree p q n (i + 1) (λ j l m. h j (omega arith) (omega arith)))

pub first-longer : (p : ℕ → Bool) (n i : ℕ) → p (i + n) ≡ false → first p (suc n) i ≡ first p n i
unfolding first
first-longer p zero i e =
    (let here : p i ≡ false = ap p (let z : i ≡ i + 0 = omega arith in z) ∙ e in
      ground (arith, here))
first-longer p (suc n) i e =
    ap (λ rest. if p i then some i else rest)
      (first-longer p n (i + 1) (ap p (let z : i + 1 + n ≡ i + suc n = omega arith in z) ∙ e))
