-- ===== src/Checkpoint/Counts.antt =====
-- Counting the descriptors that pass a test.
use csci_315_operating_sytem.Prelude.{
  ℕ, zero, suc, ◌+◌, ◌<◌, ◌≡◌, refl, arith, Bool, true, false, ◌&&◌, not, Option, none, some, ◌==◌,
  if◌then◌else◌, inl, inr, Bool-cases, subst,
}
use csci_315_operating_sytem.Checkpoint.Defs.{OpenFile, is_pipe}

unfoldable pub count : (ℕ → Bool) → ℕ → ℕ
count p zero = 0
count p (suc n) = (if p n then 1 else 0) + count p n

pub count-congr : (p q : ℕ → Bool) (n : ℕ) → ((i : ℕ) → i < n → p i ≡ q i) → count p n ≡ count q n
unfolding count
count-congr p q zero h = refl
count-congr p q (suc n) h = ground (arith, h n, count-congr p q n (λ i lt. h i (omega arith)))

-- A positive count has a witness.
pub count_witness : (p : ℕ → Bool) (n : ℕ) → 0 < count p n → (i : ℕ) × (i < n) × (p i ≡ true)
unfolding count
count_witness p zero h = absurd (omega arith)
count_witness p (suc n) h = elim (Bool-cases (p n)) [
  | inl hit ↦ (n, omega arith, hit)
  | inr miss ↦ (let (i, lt, e) = count_witness p n (ground arith) in (i, omega arith, e))
]

pub count_pos : (p : ℕ → Bool) (n i : ℕ) → i < n → p i ≡ true → 0 < count p n
unfolding count
count_pos p zero i lt e = absurd (omega arith)
count_pos p (suc n) i lt e = elim (Bool-cases (i == n)) [
  | inl last ↦ ground arith
  | inr before ↦ ground (arith, count_pos p n i)
]

-- A count of one has only one witness.
pub count_unique :
    (p : ℕ → Bool) (n i j : ℕ) → count p n ≡ 1 → i < n → j < n → p i ≡ true → p j ≡ true → i ≡ j
unfolding count
count_unique p zero i j one li lj ei ej = absurd (omega arith)
count_unique p (suc n) i j one li lj ei ej = elim (Bool-cases (i == n)) [
  | inl here ↦ elim (Bool-cases (j == n)) [
    | inl there ↦ ground arith
    | inr below ↦ absurd (ground (arith, count_pos p n j))
  ]
  | inr here ↦ elim (Bool-cases (j == n)) [
    | inl there ↦ absurd (ground (arith, count_pos p n i))
    | inr below ↦ ground (arith, count_unique p n i j, count_pos p n i)
  ]
]

-- Descriptor `i` is an end of pipe `p` that passes `side`.
abbrev pub end_of : (OpenFile → Bool) → (ℕ → Option OpenFile) → ℕ → ℕ → Bool
end_of side ofile p i = elim (ofile i) [
  | none ↦ false
  | some f ↦ is_pipe f.type && ((f.pipe == p) && side f)
]

abbrev pub reads : OpenFile → Bool
reads f = f.readable && not f.writable

abbrev pub writes : OpenFile → Bool
writes f = not f.readable && f.writable

-- If a fallible step returns, its result satisfies `P`.
abbrev pub Holds : {A : Type 0} → (A → Type 0) → Option A → Type 0
Holds P none = Unit
Holds P (some a) = P a

pub Holds-some : {A : Type 0} (P : A → Type 0) (o : Option A) {a : A} → Holds P o → o ≡ some a → P a
Holds-some P none h e = absurd (cc)
Holds-some P (some b) {a} h e = let same : b ≡ a = cc in subst P same h

pub end_of-some :
    (side : OpenFile → Bool) (ofile : ℕ → Option OpenFile) (p m : ℕ) {f : OpenFile}
    → ofile m ≡ some f
    → is_pipe f.type ≡ true
    → end_of side ofile p m ≡ ((f.pipe == p) && side f)
end_of-some side ofile p m at typed = rw (at, end_of) (rw typed)

pub end_of-other :
    (side : OpenFile → Bool) (ofile : ℕ → Option OpenFile) (p m : ℕ) {f : OpenFile}
    → ofile m ≡ some f
    → is_pipe f.type ≡ false
    → end_of side ofile p m ≡ false
end_of-other side ofile p m at typed = rw (at, end_of) (rw typed)

pub end_of-none :
    (side : OpenFile → Bool) (ofile : ℕ → Option OpenFile) (p m : ℕ)
    → ofile m ≡ none
    → end_of side ofile p m ≡ false
end_of-none side ofile p m at = rw (at, end_of)
