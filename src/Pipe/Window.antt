-- ===== src/Pipe/Window.antt =====
-- The bytes in a pipe, oldest first.
use csci_315_operating_sytem.Prelude.{
  ℕ, zero, suc, ◌+◌, ◌-◌, ◌%◌, ◌^◌, ◌<◌, ◌≤◌, ◌≡◌, refl, arith, List, [], ◌∷◌, ◌++◌, ap, ◌∙◌,
  update, update_ne, length,
}
use csci_315_operating_sytem.Pipe.Defs.{pipesize, Pipe}

-- `n` bytes from position `r` on, going round at PIPESIZE.
unfoldable pub window : (ℕ → ℕ) → (r n : ℕ) → List ℕ
window f r zero = []
window f r (suc n) = f (r % pipesize) ∷ window f (r + 1) n

-- Bytes written and not yet read; the counters wrap.
unfoldable pub count : Pipe → ℕ
count pi = (pi.nwrite + 2 ^ 32 - pi.nread) % 2 ^ 32

unfoldable pub contents : Pipe → List ℕ
unfolding window count
contents pi = window pi.bytes pi.nread (count pi)

pub record IsPipe (pi : Pipe) : Type 0 where
  pub nread_uint : pi.nread < 2 ^ 32
  pub nwrite_uint : pi.nwrite < 2 ^ 32
  pub fits : count pi ≤ pipesize

pub length-window : (f : ℕ → ℕ) (r n : ℕ) → length (window f r n) ≡ n
unfolding window
length-window f r zero = refl
length-window f r (suc n) = ap suc (length-window f (r + 1) n)

pub length-contents : (pi : Pipe) → length (contents pi) ≡ count pi
unfolding contents
length-contents pi = length-window pi.bytes pi.nread (count pi)

-- Only the position modulo PIPESIZE matters, so the counters may wrap.
pub window-mod : (f : ℕ → ℕ) (r s n : ℕ) → r % pipesize ≡ s % pipesize → window f r n ≡ window f s n
unfolding window
window-mod f r s zero e = refl
window-mod f r s (suc n) e = ground (arith, window-mod f (r + 1) (s + 1) n (omega arith))

-- A write behind the window leaves it alone.
pub window-update :
    (f : ℕ → ℕ) (r n m x : ℕ)
    → n ≤ m
    → m < pipesize
    → window (update f ((r + m) % pipesize) x) r n ≡ window f r n
unfolding window
window-update f r zero m x le lt = refl
window-update f r (suc n) m x le lt = ground (
  arith,
  update_ne f ((r + m) % pipesize) (r % pipesize) x (omega arith),
  window-update f (r + 1) n (m - 1) x (omega arith) (omega arith),
  same,
)
  where
    same : (r + 1) + (m - 1) ≡ r + m
    same = omega arith

pub window-snoc :
    (f : ℕ → ℕ) (r n : ℕ) → window f r (suc n) ≡ window f r n ++ (f ((r + n) % pipesize) ∷ [])
unfolding window
window-snoc f r zero = ap (λ k. f (k % pipesize) ∷ []) (omega arith)
window-snoc f r (suc n) =
    ap (λ l. f (r % pipesize) ∷ l)
      (window-snoc f (r + 1) n
        ∙ ap (λ k. window f (r + 1) n ++ (f (k % pipesize) ∷ [])) (omega arith))
