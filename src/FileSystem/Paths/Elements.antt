-- ===== src/FileSystem/Paths/Elements.antt =====
-- The elements of a path.
use csci_315_operating_sytem.Prelude.{
  ℕ, zero, suc, ◌+◌, ◌-◌, ◌<◌, ◌≤◌, ◌≡◌, ◌≢◌, ◌⊎◌, refl, arith, Bool, true, false, none, some, ◌==◌,
  inl, inr, Bool-cases, subst, ap, ◌∙◌,
}
use csci_315_operating_sytem.FileSystem.Inodes.{Fs}
use csci_315_operating_sytem.FileSystem.Directory.{dirsiz}
use csci_315_operating_sytem.FileSystem.Paths.{
  skip_while, is_slash, is_in_name, fill_name, skipelem, namex_round, namex_loop,
}

-- A path of `len` bytes, before its NUL.
pub record IsPath (path : ℕ → ℕ) (len : ℕ) : Type 0 where
  pub ends : path len ≡ 0
  pub no_nul : (k : ℕ) → k < len → path k ≢ 0

-- The run of bytes that pass a test.
pub record IsRun (test : ℕ → Bool) (p q : ℕ) : Type 0 where
  pub forward : p ≤ q
  pub all : (k : ℕ) → p ≤ k → k < q → test k ≡ true
  pub stops : test q ≡ false

skip_while-IsRun :
    (test : ℕ → Bool) (len f p : ℕ)
    → test len ≡ false
    → p ≤ len
    → len ≤ p + f
    → IsRun test p (skip_while test f p) × (skip_while test f p ≤ len)
unfolding skip_while
skip_while-IsRun test len zero p end le enough = (
  record {
    forward = omega arith;
    all = λ k l m. absurd (omega arith);
    stops = ap test (omega arith) ∙ end;
  },
  le,
)
skip_while-IsRun test len (suc f) p end le enough = elim (Bool-cases (test p)) [
  | inr stop ↦
      rw (stop, skip_while)
        (record { forward = omega arith; all = λ k l m. absurd (omega arith); stops = stop }, le)
  | inl on ↦
      (let (run, within) = skip_while-IsRun test len f (p + 1) end (inside on) (omega arith) in
        rw (on, skip_while)
          (
            record {
              forward = omega (arith, run.forward);
              all = λ k l m. elim (Bool-cases (k == p)) [
                | inl here ↦ ap test (ground arith) ∙ on
                | inr later ↦ run.all k (ground arith) m
              ];
              stops = run.stops;
            },
            within,
          ))
]
  where
    inside : test p ≡ true → p + 1 ≤ len
    inside on = ground (arith, (λ (e : p ≡ len). ap test e))

-- The element that `skipelem` takes: slashes, `len` bytes of a name, slashes, and the rest at `q`.
pub record IsElement (path : ℕ → ℕ) (len p : ℕ) (name : ℕ → ℕ) (q : ℕ) (elem : ℕ → ℕ) : Type 0 where
  pub start : ℕ
  pub finish : ℕ
  pub before : IsRun (is_slash path) p start
  pub named : IsRun (is_in_name path) start finish
  pub behind : IsRun (is_slash path) finish q
  pub some_bytes : start < finish
  pub within : q ≤ len
  pub bytes : (k : ℕ) → k < dirsiz → k < finish - start → elem k ≡ path (start + k)
  pub nul : finish - start < dirsiz → elem (finish - start) ≡ 0
  pub kept : (k : ℕ) → dirsiz ≤ k → elem k ≡ name k

-- `skipelem` at `p` in a path returns the null pointer when nothing but slashes is left, and otherwise
-- takes the next element, of a byte at least: `name` gets its first DIRSIZ bytes, with a NUL if it is
-- shorter, and the path goes on behind the slashes that follow.
pub skipelem-IsElement :
    (path : ℕ → ℕ) (len p : ℕ) (name : ℕ → ℕ)
    → IsPath path len
    → p ≤ len
    → ((skipelem path len p name ≡ none) × IsRun (is_slash path) p len)
      ⊎ ((q : ℕ) × (elem : ℕ → ℕ) × (skipelem path len p name ≡ some (q, elem))
          × IsElement path len p name q elem)
unfolding skipelem
skipelem-IsElement path len p name is_path le =
    let (before, in1) =
      skip_while-IsRun (is_slash path) len len p (ground (arith, is_path.ends)) le (omega arith) in
    let s = skip_while (is_slash path) len p in
    let (named, in2) =
      skip_while-IsRun (is_in_name path) len len s (ground (arith, is_path.ends)) in1
        (omega arith) in
    let e = skip_while (is_in_name path) len s in
    let (behind, in3) =
      skip_while-IsRun (is_slash path) len len e (ground (arith, is_path.ends)) in2 (omega arith) in
    elim (Bool-cases (path s == 0)) [
      | inl over ↦
          inl (rw (over, skipelem) refl, subst (IsRun (is_slash path) p) (at_end s in1 over) before)
      | inr more ↦ inr (
        skip_while (is_slash path) len e,
        fill_name path s (e - s) name,
        rw (more, skipelem) refl,
        record {
          start = s;
          finish = e;
          before = before;
          named = named;
          behind = behind;
          some_bytes = not_empty s e before.stops more named;
          within = in3;
          bytes = λ k l m. ground arith;
          nul = λ l. ground arith;
          kept = λ k l. ground arith;
        },
      )
    ]
  where
    at_end : (s : ℕ) → s ≤ len → (path s == 0) ≡ true → s ≡ len
    at_end s within nul = ground (arith, is_path.no_nul s)

    not_empty :
        (s e : ℕ)
        → is_slash path s ≡ false
        → (path s == 0) ≡ false
        → IsRun (is_in_name path) s e
        → s < e
    not_empty s e other more r =
        ground (arith, r.forward, r.stops, (λ (h : s ≡ e). ap (is_in_name path) h))

-- Any number of rounds above the bytes that are left is enough for `namex`: more make no difference.
namex_loop-rounds :
    (path : ℕ → ℕ) (len : ℕ) (parent : Bool) (r t i p : ℕ) (name : ℕ → ℕ) (s : Fs)
    → IsPath path len
    → p ≤ len
    → len < p + r
    → len < p + t
    → namex_loop path parent len r i p name s ≡ namex_loop path parent len t i p name s
unfolding namex_loop
namex_loop-rounds path len parent zero t i p name s is_path le lr lt = absurd (omega arith)
namex_loop-rounds path len parent (suc r) zero i p name s is_path le lr lt = absurd (omega arith)
namex_loop-rounds path len parent (suc r) (suc t) i p name s is_path le lr lt =
    elim (skipelem-IsElement path len p name is_path le) [
      | inl (over, run) ↦ rw (over, namex_loop) refl
      | inr (q, elem, more, el) ↦
          rw (more, namex_loop)
            (λ l.
              namex_round path parent i q elem
                (λ j c.
                  namex_loop-rounds path len parent r t j q elem c is_path el.within
                    (omega (arith, ahead q elem el)) (omega (arith, ahead q elem el)) l)
                s)
    ]
  where
    ahead : (q : ℕ) (elem : ℕ → ℕ) → IsElement path len p name q elem → p < q
    ahead q elem el = omega (arith, el.before.forward, el.some_bytes, el.behind.forward)
