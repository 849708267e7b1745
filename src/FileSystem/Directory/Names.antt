-- ===== src/FileSystem/Directory/Names.antt =====
-- Names in directory entries.
use csci_315_operating_sytem.Prelude.{
  ℕ, zero, suc, ◌+◌, ◌-◌, ◌<◌, ◌≤◌, ◌≡◌, ◌≢◌, refl, arith, true, false, ◌&&◌, not, ◌==◌, inl, inr,
  Bool-cases, update, update_self, update_ne, ap, ◌∙◌, sym,
}
use csci_315_operating_sytem.Strings.Defs.{Memory, strncmp, strncpy, pad}
use csci_315_operating_sytem.FileSystem.Directory.{dirsiz, side_by_side, namecmp, copied_name}

-- The bytes at `q` and `q'` are the same up to the first NUL.
abbrev SameString : (m m' : Memory) (q q' n : ℕ) → Type 0
SameString m m' q q' n =
    (k : ℕ) → k < n → ((j : ℕ) → j < k → m (q + j) ≢ 0) → m (q + k) ≡ m' (q' + k)

strncmp-SameString :
    (m m' : Memory) (p q p' q' n : ℕ)
    → ((k : ℕ) → k < n → m (p + k) ≡ m' (p' + k))
    → SameString m m' q q' n
    → strncmp m p q n ≡ strncmp m' p' q' n
unfolding strncmp
strncmp-SameString m m' p q p' q' zero f s = refl
strncmp-SameString m m' p q p' q' (suc n) f s = elim (Bool-cases (not (m p == 0) && (m p == m q))) [
  | inl on ↦
      (let on' : (not (m' p' == 0) && (m' p' == m' q')) ≡ true = ground (arith, here, there) in
        rw (on, strncmp)
          (rw (on', strncmp)
            (strncmp-SameString m m' (p + 1) (q + 1) (p' + 1) (q' + 1) n (λ k lt. next_f k lt)
              (λ k lt ne. next_s (ground arith) k lt ne))))
  | inr off ↦
      (let off' : (not (m' p' == 0) && (m' p' == m' q')) ≡ false = ground (arith, here, there) in
        rw (off, strncmp) (rw (off', strncmp) (λ i. (here i, there i))))
]
  where
    here : m p ≡ m' p'
    here = ap m (omega arith) ∙ f 0 (omega arith) ∙ ap m' (omega arith)

    there : m q ≡ m' q'
    there =
        ap m (omega arith) ∙ s 0 (omega arith) (λ j lt. absurd (omega arith)) ∙ ap m' (omega arith)

    next_f : (k : ℕ) → k < n → m (p + 1 + k) ≡ m' (p' + 1 + k)
    next_f k lt =
        ap m (let e : p + 1 + k ≡ p + suc k = omega arith in e)
        ∙ f (suc k) (omega arith)
        ∙ ap m' (omega arith)

    nonzero :
        m q ≢ 0
        → (k : ℕ) → ((j : ℕ) → j < k → m (q + 1 + j) ≢ 0)
        → (j : ℕ) → j < suc k
        → m (q + j) ≢ 0
    nonzero first k ne j lt = elim (Bool-cases (j == 0)) [
      | inl start ↦ (λ z. first (ap m (let e : q ≡ q + j = ground arith in e) ∙ z))
      | inr later ↦ (λ z.
          ne (j - 1) (ground arith)
            (ap m (let e : q + 1 + (j - 1) ≡ q + j = ground arith in e) ∙ z))
    ]

    next_s : m q ≢ 0 → SameString m m' (q + 1) (q' + 1) n
    next_s first k lt ne =
        ap m (let e : q + 1 + k ≡ q + suc k = omega arith in e)
        ∙ s (suc k) (omega arith) (nonzero first k ne)
        ∙ ap m' (omega arith)

-- What `strncpy` does not reach, and what it copies.
pad-below : (s r a : ℕ) (m : Memory) → a < s → pad s r m a ≡ m a
unfolding pad
pad-below s zero a m lt = refl
pad-below s (suc r) a m lt =
    pad-below (s + 1) r a (update m s 0) (omega arith) ∙ update_ne m s a _ (ground arith)

strncpy-below : (s t n a : ℕ) (m : Memory) → a < s → strncpy s t n m a ≡ m a
unfolding strncpy
strncpy-below s t zero a m lt = refl
strncpy-below s t (suc n) a m lt = elim (Bool-cases (m t == 0)) [
  | inl nul ↦
      rw (nul, strncpy) (pad-below (s + 1) n a _ (omega arith) ∙ update_ne m s a _ (ground arith))
  | inr more ↦
      rw (more, strncpy)
        (strncpy-below (s + 1) (t + 1) n a _ (omega arith) ∙ update_ne m s a _ (ground arith))
]

strncpy-copies :
    (s t n k : ℕ) (m : Memory)
    → s + n ≤ t
    → k < n
    → ((j : ℕ) → j < k → m (t + j) ≢ 0)
    → strncpy s t n m (s + k) ≡ m (t + k)
unfolding strncpy
strncpy-copies s t zero k m le lt ne = absurd (omega arith)
strncpy-copies s t (suc n) k m le lt ne = elim (Bool-cases (m t == 0)) [
  | inl nul ↦ elim (Bool-cases (k == 0)) [
    | inl first ↦
        rw (nul, strncpy)
          (ap (pad (s + 1) n (update m s (m t))) (let e : s + k ≡ s = ground arith in e)
            ∙ pad-below (s + 1) n s (update m s (m t)) (omega arith)
            ∙ update_self m s (m t)
            ∙ ap m (ground arith))
    | inr later ↦
        absurd (ne 0 (ground arith) (ap m (let e : t + 0 ≡ t = omega arith in e) ∙ ground arith))
  ]
  | inr more ↦ elim (Bool-cases (k == 0)) [
    | inl first ↦
        rw (more, strncpy)
          (ap (strncpy (s + 1) (t + 1) n (update m s (m t))) (let e : s + k ≡ s = ground arith in e)
            ∙ strncpy-below (s + 1) (t + 1) n s (update m s (m t)) (omega arith)
            ∙ update_self m s (m t)
            ∙ ap m (ground arith))
    | inr later ↦
        rw (more, strncpy)
          (ap (strncpy (s + 1) (t + 1) n (update m s (m t)))
              (let e : s + k ≡ s + 1 + (k - 1) = ground arith in e)
            ∙ strncpy-copies (s + 1) (t + 1) n (k - 1) (update m s (m t)) (omega arith)
                (ground arith)
                (λ j l z. ne (suc j) (ground arith) (
                  ap m (let e : t + suc j ≡ t + 1 + j = omega arith in e)
                  ∙ sym (update_ne m s (t + 1 + j) (m t) (omega arith))
                  ∙ z))
            ∙ update_ne m s (t + 1 + (k - 1)) (m t) (omega arith)
            ∙ ap m (ground arith))
  ]
]

right : (x t : ℕ → ℕ) (k : ℕ) → side_by_side x t (dirsiz + k) ≡ t k
right x t k = ground (arith, ap t (let e : dirsiz + k - dirsiz ≡ k = omega arith in e))

-- A copied name is the same name to `namecmp`.
pub namecmp-copied_name : (x y : ℕ → ℕ) → namecmp x (copied_name y) ≡ namecmp x y
unfolding namecmp copied_name
namecmp-copied_name x y =
    ap (λ (r : ℕ × ℕ). r.0 == r.1)
      (sym (
        strncmp-SameString (side_by_side x y) (side_by_side x (copied_name y)) 0 dirsiz 0 dirsiz
          dirsiz (λ k lt. ground arith) same))
  where
    source : (k : ℕ) → side_by_side (λ _. 0) y (dirsiz + k) ≡ y k
    source k = ground (arith, ap y (let e : dirsiz + k - dirsiz ≡ k = omega arith in e))

    same : SameString (side_by_side x y) (side_by_side x (copied_name y)) dirsiz dirsiz dirsiz
    same k lt ne =
        right x y k
        ∙ sym (source k)
        ∙ sym (
            strncpy-copies 0 dirsiz dirsiz k (side_by_side (λ _. 0) y) (omega arith) lt
              (λ j l z. ne j l (right x y j ∙ sym (source j) ∙ z)))
        ∙ ap (copied_name y) (let e : 0 + k ≡ k = omega arith in e)
        ∙ sym (right x (copied_name y) k)

-- Only the bytes of a name count.
pub namecmp-same : (x t u : ℕ → ℕ) → ((k : ℕ) → k < dirsiz → t k ≡ u k) → namecmp x t ≡ namecmp x u
unfolding namecmp
namecmp-same x t u h =
    ap (λ (r : ℕ × ℕ). r.0 == r.1)
      (strncmp-SameString (side_by_side x t) (side_by_side x u) 0 dirsiz 0 dirsiz dirsiz
        (λ k lt. ground arith) (λ k lt ne. right x t k ∙ h k lt ∙ sym (right x u k)))

strncmp-equal :
    (m : Memory) (p q n : ℕ)
    → ((k : ℕ) → k < n → m (p + k) ≡ m (q + k))
    → (strncmp m p q n).0 ≡ (strncmp m p q n).1
unfolding strncmp
strncmp-equal m p q zero h = refl
strncmp-equal m p q (suc n) h = elim (Bool-cases (not (m p == 0) && (m p == m q))) [
  | inl on ↦
      rw (on, strncmp)
        (strncmp-equal m (p + 1) (q + 1) n (λ k lt.
          (ap m (let e : p + 1 + k ≡ p + suc k = omega arith in e)
            ∙ h (suc k) (omega arith)
            ∙ ap m (omega arith))))
  | inr off ↦
      rw (off, strncmp)
        (ap m (let e : p ≡ p + 0 = omega arith in e) ∙ h 0 (omega arith) ∙ ap m (omega arith))
]

pub namecmp_self : (x : ℕ → ℕ) → namecmp x x ≡ true
unfolding namecmp
namecmp_self x =
    let e =
      strncmp-equal (side_by_side x x) 0 dirsiz dirsiz (λ k lt. ground (arith, right x x k)) in
    ground (arith, e)
