-- ===== src/Strings/Text.antt =====
-- `safestrcpy`, `strlen` and `strncmp`.
use csci_315_operating_sytem.Prelude.{
  ℕ, zero, suc, ◌+◌, ◌<◌, ◌≤◌, ◌≡◌, ◌≢◌, arith, true, false, some, ◌==◌, update, update_ne,
  update_self, inl, inr, ◌⊎◌, Bool-cases, ap, ◌∙◌, sym,
}
use csci_315_operating_sytem.Strings.Defs.{Memory, safe_loop, safestrcpy, strlen_loop, strlen}

-- The first NUL of the string at `s` is at index `j`.
pub record HasLength (m : Memory) (s j : ℕ) : Type 0 where
  pub ends : m (s + j) ≡ 0
  pub goes_on : (k : ℕ) → k < j → m (s + k) ≢ 0

strlen_loop-first :
    (m : Memory) (s f n j : ℕ) → HasLength m s j → n ≤ j → j < n + f → strlen_loop m s f n ≡ some j
unfolding strlen_loop
strlen_loop-first m s zero n j h le lt = absurd (omega arith)
strlen_loop-first m s (suc f) n j h le lt = elim (Bool-cases (n == j)) [
  | inl here ↦ (let e : n ≡ j = ground arith in rw e (ground (arith, h.ends)))
  | inr before ↦
      ground (arith, h.goes_on n, strlen_loop-first m s f (n + 1) j h (ground arith) (omega arith))
]

-- With fuel for its bytes and the NUL, `strlen` returns the length of a string.
pub strlen-HasLength :
    (m : Memory) (s fuel j : ℕ) → HasLength m s j → j < fuel → strlen m s fuel ≡ some j
unfolding strlen
strlen-HasLength m s fuel j h lt = strlen_loop-first m s fuel 0 j h (omega arith) (omega arith)

-- Where the first NUL among `r` bytes at `t` is, or `r`.
pub record StopsAt (m : Memory) (t r j : ℕ) : Type 0 where
  pub within : j ≤ r
  pub goes_on : (k : ℕ) → k < j → m (t + k) ≢ 0
  pub why : (j ≡ r) ⊎ (m (t + j) ≡ 0)

-- The string of length `j` at `t` is copied to `s`, and nothing outside `s` to `s + r` is written.
pub record Copied (m : Memory) (s t r j : ℕ) (out : Memory) : Type 0 where
  pub bytes : (k : ℕ) → k < j → out (s + k) ≡ m (t + k)
  pub ended : out (s + j) ≡ 0
  pub outside : (a : ℕ) → (a < s) ⊎ (s + r < a) → out a ≡ m a

-- A string whose first byte is copied, and whose rest is.
Copied-next :
    (m out : Memory) (s t r j : ℕ)
    → ((k : ℕ) → k < j → update m s (m t) (t + 1 + k) ≡ m (t + 1 + k))
    → Copied (update m s (m t)) (s + 1) (t + 1) r j out
    → Copied m s t (suc r) (suc j) out
Copied-next m out s t r j same rest = record {
  bytes = bytes;
  ended = ap out (let e : s + suc j ≡ s + 1 + j = omega arith in e) ∙ rest.ended;
  outside = λ a o. rest.outside a (further a o) ∙ update_ne m s a (m t) (apart a o);
}
  where
    bytes : (k : ℕ) → k < suc j → out (s + k) ≡ m (t + k)
    bytes zero l =
        ap out (let e : s + 0 ≡ s = omega arith in e)
        ∙ rest.outside s (inl (omega arith))
        ∙ update_self m s (m t)
        ∙ ap m (let e : t ≡ t + 0 = omega arith in e)
    bytes (suc k) l =
        ap out (let e : s + suc k ≡ s + 1 + k = omega arith in e)
        ∙ rest.bytes k (omega arith)
        ∙ same k (omega arith)
        ∙ ap m (let e : t + 1 + k ≡ t + suc k = omega arith in e)

    further : (a : ℕ) → (a < s) ⊎ (s + suc r < a) → (a < s + 1) ⊎ (s + 1 + r < a)
    further a (inl l) = inl (omega arith)
    further a (inr l) = inr (omega arith)

    apart : (a : ℕ) → (a < s) ⊎ (s + suc r < a) → a ≢ s
    apart a (inl l) = omega arith
    apart a (inr l) = omega arith

-- A NUL is copied, and followed by another.
Copied-nul :
    (m : Memory) (s t r : ℕ)
    → m t ≡ 0
    → Copied m s t (suc r) 0 (update (update m s (m t)) (s + 1) 0)
Copied-nul m s t r nul = record {
  bytes = λ k l. absurd (omega arith);
  ended =
      ap (update (update m s (m t)) (s + 1) 0) (let e : s + 0 ≡ s = omega arith in e)
      ∙ update_ne (update m s (m t)) (s + 1) s 0 (omega arith)
      ∙ update_self m s (m t)
      ∙ nul;
  outside = λ a o.
      update_ne (update m s (m t)) (s + 1) a 0 (past a o) ∙ update_ne m s a (m t) (apart a o);
}
  where
    past : (a : ℕ) → (a < s) ⊎ (s + suc r < a) → a ≢ s + 1
    past a (inl l) = omega arith
    past a (inr l) = omega arith

    apart : (a : ℕ) → (a < s) ⊎ (s + suc r < a) → a ≢ s
    apart a (inl l) = omega arith
    apart a (inr l) = omega arith

safe_loop-Copied :
    (m : Memory) (s t r j : ℕ)
    → (s + r < t) ⊎ (t + r ≤ s)
    → StopsAt m t r j
    → Copied m s t r j (safe_loop s t r m)
unfolding safe_loop
safe_loop-Copied m s t zero zero apart h = record {
  bytes = λ k l. absurd (omega arith);
  ended = ap (update m s 0) (let e : s + 0 ≡ s = omega arith in e) ∙ update_self m s 0;
  outside = λ a o. update_ne m s a 0 (elsewhere a o);
}
  where
    elsewhere : (a : ℕ) → (a < s) ⊎ (s + 0 < a) → a ≢ s
    elsewhere a (inl l) = omega arith
    elsewhere a (inr l) = omega arith
safe_loop-Copied m s t zero (suc j) apart h = absurd (omega (arith, h.within))
safe_loop-Copied m s t (suc r) zero apart h = rw (nul h.why) (Copied-nul m s t r (at_start h.why))
  where
    at_start : ((0 ≡ suc r) ⊎ (m (t + 0) ≡ 0)) → m t ≡ 0
    at_start (inl e) = absurd (omega arith)
    at_start (inr e) = ap m (let z : t ≡ t + 0 = omega arith in z) ∙ e

    nul : ((0 ≡ suc r) ⊎ (m (t + 0) ≡ 0)) → (m t == 0) ≡ true
    nul w = ground (arith, at_start w)
safe_loop-Copied m s t (suc r) (suc j) apart h = rw more (
    Copied-next m _ s t r j same
      (safe_loop-Copied (update m s (m t)) (s + 1) (t + 1) r j (onward apart) shifted))
  where
    more : (m t == 0) ≡ false
    more = ground (arith, h.goes_on 0 (omega arith), ap m (let z : t + 0 ≡ t = omega arith in z))

    onward : (s + suc r < t) ⊎ (t + suc r ≤ s) → (s + 1 + r < t + 1) ⊎ (t + 1 + r ≤ s + 1)
    onward (inl l) = inl (omega arith)
    onward (inr l) = inr (omega arith)

    clear : (k : ℕ) → k < r → (s + suc r < t) ⊎ (t + suc r ≤ s) → t + 1 + k ≢ s
    clear k l (inl a) = omega arith
    clear k l (inr a) = omega arith

    kept : (k : ℕ) → k < r → update m s (m t) (t + 1 + k) ≡ m (t + 1 + k)
    kept k l = update_ne m s (t + 1 + k) (m t) (clear k l apart)

    same : (k : ℕ) → k < j → update m s (m t) (t + 1 + k) ≡ m (t + 1 + k)
    same k l = kept k (omega (arith, l, h.within))

    tail_why :
        ((suc j ≡ suc r) ⊎ (m (t + suc j) ≡ 0)) → (j ≡ r) ⊎ (update m s (m t) (t + 1 + j) ≡ 0)
    tail_why (inl e) = inl (omega arith)
    tail_why (inr e) = elim (Bool-cases (j == r)) [
      | inl full ↦ inl (ground arith)
      | inr short ↦ inr (
          kept j (ground (arith, h.within))
          ∙ ap m (let z : t + 1 + j ≡ t + suc j = omega arith in z)
          ∙ e)
    ]

    shifted : StopsAt (update m s (m t)) (t + 1) r j
    shifted = record {
      within = omega (arith, h.within);
      goes_on = λ k l e.
          h.goes_on (suc k) (omega arith)
            (ap m (let z : t + suc k ≡ t + 1 + k = omega arith in z) ∙ sym (same k l) ∙ e);
      why = tail_why h.why;
    }

-- `safestrcpy(s, t, n)` with a positive `n`, on ranges that do not overlap, copies the string at `t`, or
-- its first `n` - 1 bytes, ends it with a NUL, and writes nothing outside the `n` bytes at `s`.
pub safestrcpy-Copied :
    (m : Memory) (s t r j : ℕ)
    → (s + r < t) ⊎ (t + r ≤ s)
    → StopsAt m t r j
    → Copied m s t r j (safestrcpy s t (suc r) m)
unfolding safestrcpy
safestrcpy-Copied m s t r j apart h = safe_loop-Copied m s t r j apart h
