-- ===== src/Pipe/Write.antt =====
-- About `pipewrite` of kernel/pipe.c.
use csci_315_operating_sytem.Prelude.{
  ℕ, zero, suc, ◌+◌, ◌-◌, ◌%◌, ◌<◌, ◌≤◌, ◌≡◌, refl, arith, Bool, true, false, ◌||◌, not, Option,
  some, none, ◌⊎◌, inl, inr, ◌==◌, Bool-cases, Option-cases, List, [], ◌∷◌, ◌++◌, ap, ◌∙◌, sym,
  subst, u32, update, update_self, length,
}
use mathlib.Core.List.{append_assoc, append-nil}
use csci_315_operating_sytem.Pipe.Defs.{
  pipesize, Pipe, Outcome, returned, failed, asleep, store, write_loop, pipewrite,
}
use csci_315_operating_sytem.Pipe.Window.{
  window, count, contents, IsPipe, window-update, window-snoc,
}

-- The pipe is not full: the test of `pipewrite` fails.
count-store : (pi : Pipe) → IsPipe pi → count pi < pipesize → count (store pi 0) ≡ count pi + 1
unfolding count store
count-store pi v lt = omega arith

-- Storing a byte puts it behind the others.
pub contents-store :
    (pi : Pipe) (ch : ℕ)
    → IsPipe pi
    → (pi.nwrite == u32 (pi.nread + pipesize)) ≡ false
    → IsPipe (store pi ch) × (contents (store pi ch) ≡ contents pi ++ (ch ∷ []))
unfolding contents store count
contents-store pi ch v room = (
  record {
    nread_uint = v.nread_uint;
    nwrite_uint = omega arith;
    fits = omega (arith, grown, small);
  },
  ap (λ n. window (update pi.bytes (pi.nwrite % pipesize) ch) pi.nread n) grown
      ∙ window-snoc (update pi.bytes (pi.nwrite % pipesize) ch) pi.nread (count pi)
      ∙ ground (arith, at_end, old),
)
  where
    small : count pi < pipesize
    small = ground (arith, v.fits)

    grown : count (store pi ch) ≡ suc (count pi)
    grown = omega (arith, small, v.nread_uint, v.nwrite_uint)

    place : (pi.nread + count pi) % pipesize ≡ pi.nwrite % pipesize
    place = omega (arith, v.nread_uint, v.nwrite_uint)

    at_end : update pi.bytes (pi.nwrite % pipesize) ch ((pi.nread + count pi) % pipesize) ≡ ch
    at_end =
        ap (λ k. update pi.bytes (pi.nwrite % pipesize) ch k) place
        ∙ update_self pi.bytes (pi.nwrite % pipesize) ch

    old :
        window (update pi.bytes (pi.nwrite % pipesize) ch) pi.nread (count pi)
        ≡ window pi.bytes pi.nread (count pi)
    old =
        ap (λ k. window (update pi.bytes k ch) pi.nread (count pi)) (sym place)
        ∙ window-update pi.bytes pi.nread (count pi) (count pi) ch (omega arith) small

-- `bs` are the bytes at user addresses `addr + i` onwards.
abbrev pub Source : (ℕ → Option ℕ) → (addr i : ℕ) → List ℕ → Type 0
Source copyin addr i [] = Unit {0}
Source copyin addr i (b ∷ bs) = (copyin (addr + i) ≡ some b) × Source copyin addr (i + 1) bs

-- The count that an outcome reports, where it reports one.
abbrev pub Reports : Outcome → ℕ → Type 0
Reports (returned i) j = i ≡ j
Reports failed j = Unit {0}
Reports (asleep i) j = i ≡ j

-- Why a call stops at byte `j` of `n`: for a count, all bytes are stored or `copyin` fails; for -1, no reader is
-- left or the process is killed; asleep, the pipe is full.
abbrev pub Cause :
    (copyin : ℕ → Option ℕ) (killed : ℕ → Bool) (addr n : ℕ) → Outcome → (j : ℕ) → Pipe → Type 0
Cause copyin killed addr n (returned c) j p =
    (j ≡ n)
    ⊎ ((j < n)
        × (p.readopen ≡ true)
        × (killed j ≡ false)
        × (copyin (addr + j) ≡ none)
        × (count p < pipesize))
Cause copyin killed addr n failed j p = (j < n) × ((p.readopen ≡ false) ⊎ (killed j ≡ true))
Cause copyin killed addr n (asleep c) j p =
    (j < n) × (p.readopen ≡ true) × (killed j ≡ false) × (count p ≡ pipesize)

-- What a call of `pipewrite` does with the bytes `bs` that it stores.
pub record Wrote (copyin : ℕ → Option ℕ) (killed : ℕ → Bool) (addr i n : ℕ) (pi : Pipe)
    (o : Outcome) (p : Pipe) (bs : List ℕ) : Type 0 where
  pub valid : IsPipe p
  pub appended : contents p ≡ contents pi ++ bs
  pub source : Source copyin addr i bs
  pub reported : Reports o (i + length bs)
  pub cause : Cause copyin killed addr n o (i + length bs) p
  pub allowed : (k : ℕ) → i ≤ k → k < i + length bs → (pi.readopen ≡ true) × (killed k ≡ false)
  pub within : i + length bs ≤ n
  pub readopen : p.readopen ≡ pi.readopen
  pub writeopen : p.writeopen ≡ pi.writeopen

module _ (copyin : ℕ → Option ℕ) (killed : ℕ → Bool) (addr : ℕ) where
  nothing-Wrote :
      (i n : ℕ) (o : Outcome) (pi : Pipe)
      → i ≤ n
      → IsPipe pi
      → Reports o i
      → Cause copyin killed addr n o i pi
      → Wrote copyin killed addr i n pi o pi []
  nothing-Wrote i n o pi le v r c = record {
    valid = v;
    appended = sym (append-nil (contents pi));
    source = tt;
    reported = subst (λ j. Reports o j) (omega arith) r;
    cause = subst (λ j. Cause copyin killed addr n o j pi) (omega arith) c;
    allowed = λ k l m. absurd (omega arith);
    within = omega arith;
    readopen = refl;
    writeopen = refl;
  }

  -- The rest of the loop, after one byte is stored.
  grow :
      (r i n : ℕ) (pi : Pipe) (ch : ℕ)
      → IsPipe pi
      → (pi.nwrite == u32 (pi.nread + pipesize)) ≡ false
      → copyin (addr + i) ≡ some ch
      → (pi.readopen ≡ true) × (killed i ≡ false)
      → i + suc r ≡ n
      → ((bs : List ℕ) × Wrote copyin killed addr
            (i + 1)
            n
            (store pi ch)
            (write_loop copyin killed addr r (i + 1) (store pi ch)).0
            (write_loop copyin killed addr r (i + 1) (store pi ch)).1
            bs)
      → (bs : List ℕ) × Wrote copyin killed addr i n pi
          (write_loop copyin killed addr r (i + 1) (store pi ch)).0
          (write_loop copyin killed addr r (i + 1) (store pi ch)).1
          bs
  unfolding store
  grow r i n pi ch v room got go e (bs, w) = (
    ch ∷ bs,
    record {
      valid = w.valid;
      appended =
          w.appended
          ∙ ap (λ l. l ++ bs) (contents-store pi ch v room).1
          ∙ append_assoc (contents pi) (ch ∷ []) bs;
      source = (got, w.source);
      reported =
          (let one_more : (i + 1) + length bs ≡ i + length (ch ∷ bs) = omega arith in
            subst (λ j. Reports (write_loop copyin killed addr r (i + 1) (store pi ch)).0 j)
              one_more w.reported);
      cause =
          (let one_more : (i + 1) + length bs ≡ i + length (ch ∷ bs) = omega arith in
            subst
              (λ j.
                Cause copyin killed addr n (write_loop copyin killed addr r (i + 1) (store pi ch)).0
                  j (write_loop copyin killed addr r (i + 1) (store pi ch)).1)
              one_more w.cause);
      allowed = λ k l m. elim (Bool-cases (k == i)) [
        | inl here ↦ (let e : k ≡ i = ground arith in (go.0, ap killed e ∙ go.1))
        | inr later ↦ w.allowed k (ground arith) (omega arith)
      ];
      within = omega (arith, w.within);
      readopen = w.readopen;
      writeopen = w.writeopen;
    },
  )

  stopped :
      (pi : Pipe) (i : ℕ)
      → (not pi.readopen || killed i) ≡ true
      → (pi.readopen ≡ false) ⊎ (killed i ≡ true)
  stopped pi i e = ground arith

  is_full :
      (pi : Pipe)
      → IsPipe pi
      → (pi.nwrite == u32 (pi.nread + pipesize)) ≡ true
      → count pi ≡ pipesize
  unfolding count
  is_full pi v e = ground (arith, v.nread_uint)

  has_room :
      (pi : Pipe)
      → IsPipe pi
      → (pi.nwrite == u32 (pi.nread + pipesize)) ≡ false
      → count pi < pipesize
  unfolding count
  has_room pi v e = ground (arith, v.fits)

  write_loop-Wrote :
      (r i n : ℕ) (pi : Pipe)
      → i + r ≡ n
      → IsPipe pi
      → (bs : List ℕ) × Wrote copyin killed addr i n pi
          (write_loop copyin killed addr r i pi).0
          (write_loop copyin killed addr r i pi).1
          bs
  unfolding write_loop
  write_loop-Wrote zero i n pi e v =
      ([], nothing-Wrote i n (returned i) pi (omega arith) v refl (inl (omega arith)))
  write_loop-Wrote (suc r) i n pi e v = elim (Bool-cases (not pi.readopen || killed i)) [
    | inl stop ↦
        rw stop
          ([], nothing-Wrote i n failed pi (omega arith) v tt (omega arith, stopped pi i stop))
    | inr go ↦ rw go (elim (Bool-cases (pi.nwrite == u32 (pi.nread + pipesize))) [
      | inl full ↦ rw full (
        [],
        nothing-Wrote i n (asleep i) pi (omega arith) v refl
            (omega arith, ground arith, ground arith, is_full pi v full),
      )
      | inr room ↦ rw room (elim (Option-cases (copyin (addr + i))) [
        | inl fault ↦ rw fault (
          [],
          nothing-Wrote i n (returned i) pi (omega arith) v refl
              (inr (omega arith, ground arith, ground arith, fault, has_room pi v room)),
        )
        | inr (ch, got) ↦ rw got (
            grow r i n pi ch v room got (ground arith) e (
              write_loop-Wrote r (i + 1) n (store pi ch) (omega arith)
                (contents-store pi ch v room).0))
      ])
    ])
  ]

  -- `pipewrite` puts the bytes from byte `i` of the user's buffer on behind those in the pipe, in order, each of
  -- them while the pipe has a reader and the process is not killed. It stops with a count only when all `n` bytes
  -- are stored or `copyin` fails, with -1 only when bytes are left and no reader is, or the process is killed,
  -- and asleep only when bytes are left, neither of these holds, and the pipe is full; the count that it returns
  -- or sleeps with says how far it got.
  pub pipewrite-Wrote :
      (n i : ℕ) (pi : Pipe)
      → i ≤ n
      → IsPipe pi
      → (bs : List ℕ) × Wrote copyin killed addr i n pi
          (pipewrite copyin killed addr n i pi).0
          (pipewrite copyin killed addr n i pi).1
          bs
  unfolding pipewrite
  pipewrite-Wrote n i pi le v = write_loop-Wrote (n - i) i n pi (omega arith) v
