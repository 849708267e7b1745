-- ===== src/Strings/Blocks.antt =====
-- `memset` and `memmove`, byte by byte.
use csci_315_operating_sytem.Prelude.{
  ℕ, zero, suc, ◌+◌, ◌%◌, ◌<◌, ◌≤◌, ◌≡◌, ◌≢◌, refl, arith, false, ◌&&◌, ◌==◌, ltb, update,
  update_ne, update_self, inl, inr, Bool-cases, ap, ◌∙◌, sym, subst, ◌⊎◌,
}
use csci_315_operating_sytem.Strings.Defs.{Memory, memset, memset_loop, move_down, move_up, memmove}

-- `out` is `m` with the `n` bytes from `dst` on replaced by `f 0`, `f 1`, ...
pub record Spliced (dst n : ℕ) (f : ℕ → ℕ) (m out : Memory) : Type 0 where
  pub inside : (k : ℕ) → k < n → out (dst + k) ≡ f k
  pub outside : (a : ℕ) → (a < dst) ⊎ (dst + n ≤ a) → out a ≡ m a

-- The last byte is written, and then the ones before it.
Spliced-last :
    (dst r x : ℕ) (f g : ℕ → ℕ) (m out : Memory)
    → f r ≡ x
    → ((k : ℕ) → k < r → g k ≡ f k)
    → Spliced dst r g (update m (dst + r) x) out
    → Spliced dst (suc r) f m out
Spliced-last dst r x f g m out final before rest = record {
  inside = λ k l. elim (Bool-cases (k == r)) [
    | inl last ↦
        (let e : k ≡ r = ground arith in
          rw e (rest.outside (dst + r) (inr (omega arith)) ∙ update_self m (dst + r) x ∙ sym final))
    | inr earlier ↦ rest.inside k (ground arith) ∙ before k (ground arith)
  ];
  outside = λ a o. rest.outside a (further a o) ∙ update_ne m (dst + r) a x (apart a o);
}
  where
    further : (a : ℕ) → (a < dst) ⊎ (dst + suc r ≤ a) → (a < dst) ⊎ (dst + r ≤ a)
    further a (inl l) = inl l
    further a (inr l) = inr (omega arith)

    apart : (a : ℕ) → (a < dst) ⊎ (dst + suc r ≤ a) → a ≢ dst + r
    apart a (inl l) = omega arith
    apart a (inr l) = omega arith

move_down-Spliced :
    (dst src n : ℕ) (m : Memory)
    → src < dst
    → Spliced dst n (λ k. m (src + k)) m (move_down dst src n m)
unfolding move_down
move_down-Spliced dst src zero m lt = record {
  inside = λ k l. absurd (omega arith);
  outside = λ a out. refl;
}
move_down-Spliced dst src (suc r) m lt =
    Spliced-last dst r (m (src + r)) (λ k. m (src + k))
      (λ k. update m (dst + r) (m (src + r)) (src + k)) m _ refl
      (λ k l. update_ne m (dst + r) (src + k) (m (src + r)) (omega (arith, lt, l)))
      (move_down-Spliced dst src r (update m (dst + r) (m (src + r))) lt)

-- The first byte is written, and the rest from the next address on.
Spliced-next :
    (dst n x : ℕ) (f g : ℕ → ℕ) (m out : Memory)
    → f 0 ≡ x
    → ((k : ℕ) → k < n → g k ≡ f (suc k))
    → Spliced (dst + 1) n g (update m dst x) out
    → Spliced dst (suc n) f m out
Spliced-next dst n x f g m out first later rest = record {
  inside = λ k l. inside k l;
  outside = λ a o. rest.outside a (further a o) ∙ update_ne m dst a x (apart a o);
}
  where
    inside : (k : ℕ) → k < suc n → out (dst + k) ≡ f k
    inside zero l =
        ap out (let e : dst + 0 ≡ dst = omega arith in e)
        ∙ rest.outside dst (inl (omega arith))
        ∙ update_self m dst x
        ∙ sym first
    inside (suc k) l =
        ap out (let e : dst + suc k ≡ dst + 1 + k = omega arith in e)
        ∙ rest.inside k (omega arith)
        ∙ later k (omega arith)

    further : (a : ℕ) → (a < dst) ⊎ (dst + suc n ≤ a) → (a < dst + 1) ⊎ (dst + 1 + n ≤ a)
    further a (inl l) = inl (omega arith)
    further a (inr l) = inr (omega arith)

    apart : (a : ℕ) → (a < dst) ⊎ (dst + suc n ≤ a) → a ≢ dst
    apart a (inl l) = omega arith
    apart a (inr l) = omega arith

move_up-Spliced :
    (dst src n : ℕ) (m : Memory)
    → (dst ≤ src) ⊎ (src + n ≤ dst)
    → Spliced dst n (λ k. m (src + k)) m (move_up dst src n m)
unfolding move_up
move_up-Spliced dst src zero m way = record {
  inside = λ k l. absurd (omega arith);
  outside = λ a out. refl;
}
move_up-Spliced dst src (suc r) m way =
    Spliced-next dst r (m src) (λ k. m (src + k)) (λ k. update m dst (m src) (src + 1 + k)) m _
      (ap m (let e : src + 0 ≡ src = omega arith in e))
      (λ k l.
        update_ne m dst (src + 1 + k) (m src) (apart k l way)
        ∙ ap m (let e : src + 1 + k ≡ src + suc k = omega arith in e))
      (move_up-Spliced (dst + 1) (src + 1) r (update m dst (m src)) (onward way))
  where
    apart : (k : ℕ) → k < r → (dst ≤ src) ⊎ (src + suc r ≤ dst) → src + 1 + k ≢ dst
    apart k l (inl le) = omega arith
    apart k l (inr le) = omega arith

    onward : (dst ≤ src) ⊎ (src + suc r ≤ dst) → (dst + 1 ≤ src + 1) ⊎ (src + 1 + r ≤ dst + 1)
    onward (inl le) = inl (omega arith)
    onward (inr le) = inr (omega arith)

-- `memmove` makes the target what the source was before the call, however the two overlap, and writes
-- nowhere else.
pub memmove-Spliced :
    (dst src n : ℕ) (m : Memory) → Spliced dst n (λ k. m (src + k)) m (memmove dst src n m)
unfolding memmove
memmove-Spliced dst src n m = elim (Bool-cases (n == 0)) [
  | inl none_asked ↦
      rw none_asked (record { inside = λ k l. absurd (ground arith); outside = λ a out. refl })
  | inr some_asked ↦ rw some_asked (elim (Bool-cases (ltb src dst && ltb dst (src + n))) [
    | inl overlaps ↦ rw overlaps (move_down-Spliced dst src n m (ground arith))
    | inr safe ↦ rw safe (move_up-Spliced dst src n m (way safe))
  ])
]
  where
    way : (ltb src dst && ltb dst (src + n)) ≡ false → (dst ≤ src) ⊎ (src + n ≤ dst)
    way e = ground arith

memset_loop-Spliced :
    (dst c r i : ℕ) (m : Memory) → Spliced (dst + i) r (λ _. c % 256) m (memset_loop dst c r i m)
unfolding memset_loop
memset_loop-Spliced dst c zero i m = record {
  inside = λ k l. absurd (omega arith);
  outside = λ a out. refl;
}
memset_loop-Spliced dst c (suc r) i m =
    Spliced-next (dst + i) r (c % 256) (λ _. c % 256) (λ _. c % 256) m _ refl (λ k l. refl)
      (subst
        (λ d.
          Spliced d r (λ _. c % 256) (update m (dst + i) (c % 256))
            (memset_loop dst c r (i + 1) (update m (dst + i) (c % 256))))
        (let e : dst + (i + 1) ≡ dst + i + 1 = omega arith in e)
        (memset_loop-Spliced dst c r (i + 1) (update m (dst + i) (c % 256))))

-- `memset` fills its range with the byte, and writes nowhere else.
memset-Spliced : (dst c n : ℕ) (m : Memory) → Spliced dst n (λ _. c % 256) m (memset dst c n m)
unfolding memset
memset-Spliced dst c n m =
    subst (λ d. Spliced d n (λ _. c % 256) m (memset_loop dst c n 0 m))
      (let e : dst + 0 ≡ dst = omega arith in e) (memset_loop-Spliced dst c n 0 m)
