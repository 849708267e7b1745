-- ===== src/FileSystem/Content/Freed.antt =====
-- The loops of `itrunc`: blocks that are freed one by one.
use csci_315_operating_sytem.Prelude.{
  ℕ, zero, suc, ◌+◌, ◌<◌, ◌≤◌, ◌≡◌, ◌≢◌, refl, arith, true, false, some, ◌==◌, if◌then◌else◌, inl,
  inr, Bool-cases, update, update_self, update_ne, ap, ◌∙◌, sym,
}
use csci_315_operating_sytem.FileSystem.Words.{get_word}
use csci_315_operating_sytem.FileSystem.Volume.{Volume, is_used, bfree}
use csci_315_operating_sytem.FileSystem.Blocks.{bfree-used}
use csci_315_operating_sytem.FileSystem.Content.{Inode, trunc_direct, trunc_entries}

-- The addresses from `lo` up to `hi` that are not 0 are in use and differ.
pub record IsOwned (v : Volume) (addr : ℕ → ℕ) (lo hi : ℕ) : Type 0 where
  pub used : (k : ℕ) → lo ≤ k → k < hi → addr k ≢ 0 → is_used v (addr k) ≡ true
  pub apart : (k m : ℕ) → lo ≤ k → k < m → m < hi → addr k ≢ 0 → addr k ≢ addr m

-- They have been freed, and nothing else.
pub record HasFreed (v : Volume) (addr : ℕ → ℕ) (lo hi : ℕ) (w : Volume) : Type 0 where
  pub gone : (k : ℕ) → lo ≤ k → k < hi → addr k ≢ 0 → is_used w (addr k) ≡ false
  pub kept :
      (b : ℕ) → ((k : ℕ) → lo ≤ k → k < hi → addr k ≢ 0 → addr k ≢ b) → is_used w b ≡ is_used v b
  pub rest : w ≡ record v { free_map = w.free_map }

module _ (v : Volume) (addr : ℕ → ℕ) (lo hi : ℕ) where
  nothing-HasFreed : hi ≤ lo → HasFreed v addr lo hi v
  nothing-HasFreed le = record {
    gone = λ k l m. absurd (omega arith);
    kept = λ b h. refl;
    rest = refl;
  }

  hole-HasFreed :
      (w : Volume) → addr lo ≡ 0 → HasFreed v addr (lo + 1) hi w → HasFreed v addr lo hi w
  hole-HasFreed w z h = record {
    gone = λ k l m ne. h.gone k (ground (arith, ne, z, ap addr {x = k} {y = lo})) m ne;
    kept = λ b apart. h.kept b (λ k l m ne. apart k (omega arith) m ne);
    rest = h.rest;
  }

  -- One block freed, and then the others.
  step-HasFreed :
      (x w : Volume)
      → lo < hi
      → IsOwned v addr lo hi
      → addr lo ≢ 0
      → ((n : ℕ) → is_used x n ≡ (if n == addr lo then false else is_used v n))
      → x ≡ record v { free_map = x.free_map }
      → HasFreed x addr (lo + 1) hi w
      → HasFreed v addr lo hi w
  step-HasFreed x w lt o ne one same h = record {
    gone = λ k l m nz. elim (Bool-cases (k == lo)) [
      | inr later ↦ h.gone k (ground arith) m nz
      | inl first ↦
          (let e : k ≡ lo = ground arith in
            ap (λ k. is_used w (addr k)) e
            ∙ h.kept (addr lo)
                (λ j lj mj nj e. o.apart lo j (omega arith) (omega arith) mj ne (sym e))
            ∙ ground (arith, one (addr lo)))
    ];
    kept = λ b apart.
        h.kept b (λ k l m nz. apart k (omega arith) m nz)
        ∙ ground (arith, one b, apart lo (omega arith) lt ne);
    rest = h.rest ∙ ap (λ (y : Volume). record y { free_map = w.free_map }) same;
  }

  step-IsOwned :
      (x : Volume)
      → IsOwned v addr lo hi
      → addr lo ≢ 0
      → ((n : ℕ) → is_used x n ≡ (if n == addr lo then false else is_used v n))
      → IsOwned x addr (lo + 1) hi
  step-IsOwned x o ne one = record {
    used = λ k l m nz. ground (
      arith,
      one (addr k),
      o.used k (omega arith) m nz,
      o.apart lo k (omega arith) (omega arith) m ne,
    );
    apart = λ k m l lt n nz. o.apart k m (omega arith) lt n nz;
  }

  rest-IsOwned : IsOwned v addr lo hi → IsOwned v addr (lo + 1) hi
  rest-IsOwned o = record {
    used = λ k l m nz. o.used k (omega arith) m nz;
    apart = λ k m l lt n nz. o.apart k m (omega arith) lt n nz;
  }

pub trunc_entries-HasFreed :
    (a : ℕ → ℕ) (r j hi : ℕ) (v : Volume)
    → j + r ≡ hi
    → IsOwned v (get_word a) j hi
    → (w : Volume) × (trunc_entries a r j v ≡ some w) × HasFreed v (get_word a) j hi w
unfolding trunc_entries
trunc_entries-HasFreed a zero j hi v e o =
    (v, refl, nothing-HasFreed v (get_word a) j hi (omega arith))
trunc_entries-HasFreed a (suc r) j hi v e o = elim (Bool-cases (get_word a j == 0)) [
  | inl hole ↦
      (let (w, ew, h) =
          trunc_entries-HasFreed a r (j + 1) hi v (omega arith)
            (rest-IsOwned v (get_word a) j hi o) in
        (w, rw (hole, trunc_entries) ew, hole-HasFreed v (get_word a) j hi w (ground arith) h))
  | inr there ↦
      (let ne : get_word a j ≢ 0 = ground arith in
        let (x, ex, one, same) =
          bfree-used v (get_word a j) (o.used j (omega arith) (omega arith) ne) in
        let (w, ew, h) =
          trunc_entries-HasFreed a r (j + 1) hi x (omega arith)
            (step-IsOwned v (get_word a) j hi x o ne one) in
        (
          w,
          rw (there, trunc_entries) (rw (ex, trunc_entries) ew),
          step-HasFreed v (get_word a) j hi x w (omega arith) o ne one same h,
        ))
]

-- The inode without these direct addresses.
pub record IsCleared (ip : Inode) (lo hi : ℕ) (jp : Inode) : Type 0 where
  pub zeros : (k : ℕ) → lo ≤ k → k < hi → jp.addrs k ≡ 0
  pub others : (k : ℕ) → hi ≤ k → jp.addrs k ≡ ip.addrs k
  pub below : (k : ℕ) → k < lo → jp.addrs k ≡ ip.addrs k
  pub inum : jp.inum ≡ ip.inum

pub trunc_direct-HasFreed :
    (addr : ℕ → ℕ) (r i hi : ℕ) (v : Volume) (ip : Inode)
    → i + r ≡ hi
    → ((k : ℕ) → i ≤ k → k < hi → ip.addrs k ≡ addr k)
    → IsOwned v addr i hi
    → (w : Volume) × (jp : Inode) × (trunc_direct r i v ip ≡ some (w, jp))
      × HasFreed v addr i hi w
      × IsCleared ip i hi jp
unfolding trunc_direct
trunc_direct-HasFreed addr zero i hi v ip e same o = (
  v,
  ip,
  refl,
  nothing-HasFreed v addr i hi (omega arith),
  record {
    zeros = λ k l m. absurd (omega arith);
    others = λ k l. refl;
    below = λ k l. refl;
    inum = refl;
  },
)
trunc_direct-HasFreed addr (suc r) i hi v ip e same o = elim (Bool-cases (ip.addrs i == 0)) [
  | inl hole ↦
      (let (w, jp, ew, h, c) =
          trunc_direct-HasFreed addr r (i + 1) hi v ip (omega arith)
            (λ k l m. same k (omega arith) m) (rest-IsOwned v addr i hi o) in
        (
          w,
          jp,
          rw (hole, trunc_direct) ew,
          hole-HasFreed v addr i hi w (ground (arith, same i (omega arith) (omega arith))) h,
          record {
            zeros = λ k l m. elim (Bool-cases (k == i)) [
              | inl here ↦
                  (let at : k ≡ i = ground arith in
                    ap jp.addrs at ∙ c.below i (omega arith) ∙ ground arith)
              | inr later ↦ c.zeros k (ground arith) m
            ];
            others = c.others;
            below = λ k l. c.below k (omega arith);
            inum = c.inum;
          },
        ))
  | inr there ↦
      (let at_i : ip.addrs i ≡ addr i = same i (omega arith) (omega arith) in
        let ne : addr i ≢ 0 = ground (arith, at_i) in
        let (x, ex, one, same_rest) =
          bfree-used v (addr i) (o.used i (omega arith) (omega arith) ne) in
        let kp : Inode = record ip { addrs = update ip.addrs i 0 } in
        let (w, jp, ew, h, c) =
          trunc_direct-HasFreed addr r (i + 1) hi x kp (omega arith)
            (λ k l m. update_ne ip.addrs i k 0 (omega arith) ∙ same k (omega arith) m)
            (step-IsOwned v addr i hi x o ne one) in
        (
          w,
          jp,
          rw (there, trunc_direct) (rw (ap (λ a. bfree a v) at_i ∙ ex, trunc_direct) ew),
          step-HasFreed v addr i hi x w (omega arith) o ne one same_rest h,
          record {
            zeros = λ k l m. elim (Bool-cases (k == i)) [
              | inl here ↦
                  (let at : k ≡ i = ground arith in
                    ap jp.addrs at ∙ c.below i (omega arith) ∙ update_self ip.addrs i 0)
              | inr later ↦ c.zeros k (ground arith) m
            ];
            others = λ k l. c.others k l ∙ update_ne ip.addrs i k 0 (omega arith);
            below = λ k l. c.below k (omega arith) ∙ update_ne ip.addrs i k 0 (omega arith);
            inum = c.inum;
          },
        ))
]
