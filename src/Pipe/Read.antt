-- ===== src/Pipe/Read.antt =====
-- `piperead` takes from the front of what the pipe holds.
use csci_315_operating_sytem.Prelude.{
  ℕ, zero, suc, ◌+◌, ◌%◌, ◌<◌, ◌≤◌, ◌≡◌, refl, ◌≢◌, ◌⊎◌, arith, Bool, true, false, ◌&&◌, inl, inr,
  ◌==◌, Bool-cases, if◌then◌else◌, List, [], ◌∷◌, ◌++◌, ap, ◌∙◌, u32, length,
}
use csci_315_operating_sytem.Pipe.Defs.{
  pipesize, Pipe, returned, failed, asleep, read_loop, piperead,
}
use csci_315_operating_sytem.Pipe.Window.{window, count, contents, IsPipe, window-mod}

-- The pipe after one byte is taken.
abbrev pub taken : Pipe → Pipe
taken pi = record pi { nread = u32 (pi.nread + 1) }

pub contents-taken :
    (pi : Pipe)
    → IsPipe pi
    → (pi.nread == pi.nwrite) ≡ false
    → IsPipe (taken pi) × (contents pi ≡ pi.bytes (pi.nread % pipesize) ∷ contents (taken pi))
unfolding contents count window
contents-taken pi v some_bytes = (
  record {
    nread_uint = omega arith;
    nwrite_uint = v.nwrite_uint;
    fits = omega (arith, fewer, v.fits);
  },
  ap (window pi.bytes pi.nread) fewer
      ∙ ap (λ l. pi.bytes (pi.nread % pipesize) ∷ l)
          (window-mod pi.bytes (pi.nread + 1) (u32 (pi.nread + 1)) (count (taken pi))
            (omega arith)),
)
  where
    ne : pi.nread ≢ pi.nwrite
    ne = ground arith

    fewer : count pi ≡ suc (count (taken pi))
    fewer = omega (arith, ne, v.nread_uint, v.nwrite_uint)

-- What a copying loop does: `out` reaches the user, and unless a `copyout` fails nothing is lost.
pub record Took (ok : ℕ → Bool) (addr i n : ℕ) (pi : Pipe) (c : ℕ) (out : List ℕ) (p : Pipe)
    : Type 0 where
  pub valid : IsPipe p
  pub counted : c ≡ i + length out
  pub within : c ≤ n
  pub front :
      (contents pi ≡ out ++ contents p)
      ⊎ ((ok (addr + c) ≡ false) × (c < n) × ((b : ℕ) × (contents pi ≡ out ++ (b ∷ contents p))))
  pub drained : (c ≡ n) ⊎ ((contents p ≡ []) ⊎ (ok (addr + c) ≡ false))
  pub readopen : p.readopen ≡ pi.readopen
  pub writeopen : p.writeopen ≡ pi.writeopen

contents-empty : (pi : Pipe) → IsPipe pi → (pi.nread == pi.nwrite) ≡ true → contents pi ≡ []
unfolding contents count window
contents-empty pi v e = ap (window pi.bytes pi.nread) none_left
  where
    same : pi.nread ≡ pi.nwrite
    same = ground arith

    none_left : count pi ≡ 0
    none_left = omega (arith, same, v.nread_uint)

module _ (ok : ℕ → Bool) (addr : ℕ) where
  nothing-Took :
      (i n : ℕ) (pi : Pipe)
      → i ≤ n
      → IsPipe pi
      → (i ≡ n) ⊎ ((contents pi ≡ []) ⊎ (ok (addr + i) ≡ false))
      → Took ok addr i n pi i [] pi
  nothing-Took i n pi le v d = record {
    valid = v;
    counted = omega arith;
    within = le;
    front = inl refl;
    drained = d;
    readopen = refl;
    writeopen = refl;
  }

  take_one :
      (i n : ℕ) (pi : Pipe)
      → IsPipe pi
      → (pi.nread == pi.nwrite) ≡ false
      → (c : ℕ) (out : List ℕ) (p : Pipe) → Took ok addr (i + 1) n (taken pi) c out p
      → Took ok addr i n pi c (pi.bytes (pi.nread % pipesize) ∷ out) p
  take_one i n pi v more c out p t = record {
    valid = t.valid;
    counted = omega (arith, t.counted);
    within = t.within;
    front = front (t.front);
    drained = t.drained;
    readopen = t.readopen;
    writeopen = t.writeopen;
  }
    where
      head : contents pi ≡ pi.bytes (pi.nread % pipesize) ∷ contents (taken pi)
      head = (contents-taken pi v more).1

      front :
          ((contents (taken pi) ≡ out ++ contents p)
            ⊎ ((ok (addr + c) ≡ false)
                × (c < n)
                × ((b : ℕ) × (contents (taken pi) ≡ out ++ (b ∷ contents p)))))
          → (contents pi ≡ (pi.bytes (pi.nread % pipesize) ∷ out) ++ contents p)
            ⊎ ((ok (addr + c) ≡ false)
                × (c < n)
                × ((b : ℕ) × (contents pi
                      ≡ (pi.bytes (pi.nread % pipesize) ∷ out) ++ (b ∷ contents p))))
      front (inl e) = inl (rw (head, e))
      front (inr (bad, lt, (b, e))) = inr (bad, lt, (b, rw (head, e)))

  abbrev ReadOutcome : (r i n : ℕ) → Pipe → Pipe → Type 0
  ReadOutcome r i n from pi =
      Took ok addr i n pi (read_loop ok addr r i from).0 (read_loop ok addr r i from).1
        (read_loop ok addr r i from).2

  read_loop-Took : (r i n : ℕ) (pi : Pipe) → i + r ≡ n → IsPipe pi → ReadOutcome r i n pi pi
  unfolding read_loop
  read_loop-Took zero i n pi e v = nothing-Took i n pi (omega arith) v (inl (omega arith))
  read_loop-Took (suc r) i n pi e v = elim (Bool-cases (pi.nread == pi.nwrite)) [
    | inl empty ↦
        rw empty (nothing-Took i n pi (omega arith) v (inr (inl (contents-empty pi v empty))))
    | inr more ↦ rw more (elim (Bool-cases (ok (addr + i))) [
      | inl good ↦ rw good (
          take_one i n pi v more _ _ _
            (read_loop-Took r (i + 1) n (taken pi) (omega arith) (contents-taken pi v more).0))
      | inr bad ↦ rw bad (record {
        valid = (contents-taken pi v more).0;
        counted = omega arith;
        within = omega arith;
        front =
            inr (bad, omega arith, (pi.bytes (pi.nread % pipesize), (contents-taken pi v more).1));
        drained = inr (inr bad);
        readopen = refl;
        writeopen = refl;
      })
    ])
  ]

  -- A call of `piperead` that does not sleep and is not killed delivers the oldest bytes of the pipe
  -- in order, up to `n`, and stops before only if the pipe is empty or `copyout` fails; the failing
  -- byte is then gone from the pipe. One that sleeps or fails leaves the pipe as it is.
  pub piperead-Took :
      (killed : Bool) (n : ℕ) (pi : Pipe)
      → IsPipe pi
      → (((c : ℕ) × ((piperead ok addr killed n pi).0 ≡ returned c)
            × Took ok addr 0 n pi c
                (piperead ok addr killed n pi).1
                (piperead ok addr killed n pi).2)
          ⊎ ((contents pi ≡ [])
              × (pi.writeopen ≡ true)
              × ((piperead ok addr killed n pi).0 ≡ (if killed then failed else asleep 0))
              × ((piperead ok addr killed n pi).1 ≡ [])
              × ((piperead ok addr killed n pi).2 ≡ pi)))
  unfolding piperead
  piperead-Took killed n pi v = elim (Bool-cases ((pi.nread == pi.nwrite) && pi.writeopen)) [
    | inr copies ↦ rw copies (inl (_, refl, read_loop-Took n 0 n pi (omega arith) v))
    | inl waits ↦ rw waits (
        inr (
          contents-empty pi v (ground arith),
          ground arith,
          ground arith,
          ground arith,
          ground arith,
        ))
  ]
