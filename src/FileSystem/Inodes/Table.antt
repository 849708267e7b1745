-- ===== src/FileSystem/Inodes/Table.antt =====
-- About `iget` of kernel/fs.c.
use csci_315_operating_sytem.Prelude.{
  ℕ, zero, suc, ◌+◌, ◌<◌, ◌≡◌, ◌≢◌, ◌⊎◌, refl, arith, Bool, true, false, Option, none, some, ◌==◌,
  if◌then◌else◌, inl, inr, Bool-cases, update, update_self, update_ne, ap, ◌∙◌, sym, subst,
}
use csci_315_operating_sytem.Prelude.Fold.{first, first-some, first-none}
use csci_315_operating_sytem.FileSystem.Inodes.{
  ninode, InodeSlot, Fs, done, panics, is_for, or_this, iget_loop, set_ref, recycled, take_slot,
  iget,
}

-- The two searches of the loop.
abbrev or_first : Option ℕ → Option ℕ → Option ℕ
or_first none later = later
or_first (some k) later = some k

module _ (t : ℕ → InodeSlot) (dev inum : ℕ) where
  hit-first :
      (r i : ℕ) (empty : Option ℕ)
      → (iget_loop t dev inum r i empty).hit ≡ first (λ k. is_for (t k) dev inum) r i
  unfolding iget_loop first
  hit-first zero i empty = refl
  hit-first (suc r) i empty = elim (Bool-cases (is_for (t i) dev inum)) [
    | inl this ↦ rw (this, iget_loop) refl
    | inr other ↦ rw (other, iget_loop) (hit-first r (i + 1) _)
  ]

  empty-first :
      (r i : ℕ) (empty : Option ℕ)
      → first (λ k. is_for (t k) dev inum) r i ≡ none
      → (iget_loop t dev inum r i empty).empty ≡ or_first empty (first (λ k. (t k).ref == 0) r i)
  unfolding iget_loop first
  empty-first zero i none e = refl
  empty-first zero i (some k) e = refl
  empty-first (suc r) i empty e =
      let other : is_for (t i) dev inum ≡ false =
        first-none (λ k. is_for (t k) dev inum) (suc r) i i e (omega arith) (omega arith) in
      let rest : first (λ k. is_for (t k) dev inum) r (i + 1) ≡ none = ground (arith, e, other) in
      rw (other, iget_loop)
        (empty-first r (i + 1) (or_this empty ((t i).ref == 0) i) rest
          ∙ merge empty ((t i).ref == 0) i (first (λ k. (t k).ref == 0) r (i + 1)))
    where
      merge :
          (o : Option ℕ) (b : Bool) (i : ℕ) (later : Option ℕ)
          → or_first (or_this o b i) later ≡ or_first o (if b then some i else later)
      merge none true i later = refl
      merge none false i later = refl
      merge (some k) b i later = refl

-- An inode in use has one slot.
abbrev pub IsUnique : (ℕ → InodeSlot) → Type 0
IsUnique t =
    (j k : ℕ)
    → j < ninode
    → k < ninode
    → 0 < (t j).ref
    → 0 < (t k).ref
    → (t j).dev ≡ (t k).dev
    → (t j).ip.inum ≡ (t k).ip.inum
    → j ≡ k

-- Slot `i` is for the inode with one reference more, and nothing else has changed. A slot that was not in
-- use has to be read from disk.
pub record HasGot (s : Fs) (dev inum i : ℕ) (z : Fs) : Type 0 where
  pub within : i < ninode
  pub for_it : is_for (z.itable i) dev inum ≡ true
  pub count : (z.itable i).ref ≡ (s.itable i).ref + 1
  pub others : (j : ℕ) → j ≢ i → z.itable j ≡ s.itable j
  pub same_vol : z.vol ≡ s.vol
  pub copy :
      ((is_for (s.itable i) dev inum ≡ true)
        × ((z.itable i).valid ≡ (s.itable i).valid)
        × ((z.itable i).ip ≡ (s.itable i).ip))
      ⊎ (((z.itable i).valid ≡ false)
          × ((j : ℕ) → j < ninode → is_for (s.itable j) dev inum ≡ false))
  pub unique : IsUnique z.itable

-- A new entry for slot `i`.
module _ (s : Fs) (dev inum i : ℕ) (u : IsUnique s.itable) (e : InodeSlot) (within : i < ninode)
    (dev_e : e.dev ≡ dev) (inum_e : e.ip.inum ≡ inum) (ref_e : e.ref ≡ (s.itable i).ref + 1)
    (alone : (j : ℕ) → j < ninode → j ≢ i → is_for (s.itable j) dev inum ≡ false) where
  new-IsUnique : IsUnique (update s.itable i e)
  new-IsUnique j k lj lk rj rk ed en = elim (Bool-cases (j == i)) [
    | inl here_j ↦ elim (Bool-cases (k == i)) [
      | inl here_k ↦ ground arith
      | inr other_k ↦ absurd (
          clash k lk (ground arith) (rj_old k (ground arith) rk)
            (sym (old_dev k (ground arith)) ∙ sym ed ∙ this_dev j (ground arith))
            (sym (old_inum k (ground arith)) ∙ sym en ∙ this_inum j (ground arith)))
    ]
    | inr other_j ↦ elim (Bool-cases (k == i)) [
      | inl here_k ↦ absurd (
          clash j lj (ground arith) (rj_old j (ground arith) rj)
            (sym (old_dev j (ground arith)) ∙ ed ∙ this_dev k (ground arith))
            (sym (old_inum j (ground arith)) ∙ en ∙ this_inum k (ground arith)))
      | inr other_k ↦
          u j k lj lk (rj_old j (ground arith) rj) (rj_old k (ground arith) rk)
            (sym (old_dev j (ground arith)) ∙ ed ∙ old_dev k (ground arith))
            (sym (old_inum j (ground arith)) ∙ en ∙ old_inum k (ground arith))
    ]
  ]
    where
      old : (j : ℕ) → j ≢ i → update s.itable i e j ≡ s.itable j
      old j ne = update_ne s.itable i j e ne

      old_dev : (j : ℕ) → j ≢ i → (update s.itable i e j).dev ≡ (s.itable j).dev
      old_dev j ne = ap (λ (x : InodeSlot). x.dev) (old j ne)

      old_inum : (j : ℕ) → j ≢ i → (update s.itable i e j).ip.inum ≡ (s.itable j).ip.inum
      old_inum j ne = ap (λ (x : InodeSlot). x.ip.inum) (old j ne)

      rj_old : (j : ℕ) → j ≢ i → 0 < (update s.itable i e j).ref → 0 < (s.itable j).ref
      rj_old j ne lt = subst (λ n. 0 < n) (ap (λ (x : InodeSlot). x.ref) (old j ne)) lt

      this_dev : (j : ℕ) → j ≡ i → (update s.itable i e j).dev ≡ dev
      this_dev j h =
          ap (λ j. (update s.itable i e j).dev) h
          ∙ ap (λ (x : InodeSlot). x.dev) (update_self s.itable i e)
          ∙ dev_e

      this_inum : (j : ℕ) → j ≡ i → (update s.itable i e j).ip.inum ≡ inum
      this_inum j h =
          ap (λ j. (update s.itable i e j).ip.inum) h
          ∙ ap (λ (x : InodeSlot). x.ip.inum) (update_self s.itable i e)
          ∙ inum_e

      clash :
          (j : ℕ)
          → j < ninode
          → j ≢ i
          → 0 < (s.itable j).ref
          → (s.itable j).dev ≡ dev
          → (s.itable j).ip.inum ≡ inum
          → ⊥
      clash j lt ne r d n = ground (arith, alone j lt ne)

  new-HasGot :
      ((is_for (s.itable i) dev inum ≡ true)
          × (e.valid ≡ (s.itable i).valid)
          × (e.ip ≡ (s.itable i).ip))
        ⊎ ((e.valid ≡ false) × ((j : ℕ) → j < ninode → is_for (s.itable j) dev inum ≡ false))
      → HasGot s dev inum i (record s { itable = update s.itable i e })
  new-HasGot c = record {
    within = within;
    for_it =
        ap (λ (x : InodeSlot). is_for x dev inum) (update_self s.itable i e)
        ∙ ground (arith, dev_e, inum_e, ref_e);
    count = ap (λ (x : InodeSlot). x.ref) (update_self s.itable i e) ∙ ref_e;
    others = λ j ne. update_ne s.itable i j e ne;
    same_vol = refl;
    copy =
        subst
          (λ (x : InodeSlot).
            ((is_for (s.itable i) dev inum ≡ true)
              × (x.valid ≡ (s.itable i).valid)
              × (x.ip ≡ (s.itable i).ip))
            ⊎ ((x.valid ≡ false) × ((j : ℕ) → j < ninode → is_for (s.itable j) dev inum ≡ false)))
          (sym (update_self s.itable i e)) c;
    unique = new-IsUnique;
  }

module _ (s : Fs) (dev inum : ℕ) (u : IsUnique s.itable) where
  hit_case :
      (i : ℕ)
      → first (λ k. is_for (s.itable k) dev inum) ninode 0 ≡ some i
      → HasGot s dev inum i (set_ref i ((s.itable i).ref + 1) s)
  hit_case i e =
      let (this, low, high) = first-some (λ k. is_for (s.itable k) dev inum) ninode 0 {j = i} e in
      new-HasGot s dev inum i u _ high (ground arith) (ground arith) refl (alone i high this)
        (inl (this, refl, refl))
    where
      alone :
          (i : ℕ)
          → i < ninode
          → is_for (s.itable i) dev inum ≡ true
          → (j : ℕ) → j < ninode
          → j ≢ i
          → is_for (s.itable j) dev inum ≡ false
      alone i lt this j lj ne = elim (Bool-cases (is_for (s.itable j) dev inum)) [
        | inr other ↦ other
        | inl too ↦
            absurd (ne (u j i lj lt (ground arith) (ground arith) (ground arith) (ground arith)))
      ]

  empty_case :
      (i : ℕ)
      → first (λ k. is_for (s.itable k) dev inum) ninode 0 ≡ none
      → first (λ k. (s.itable k).ref == 0) ninode 0 ≡ some i
      → HasGot s dev inum i
          (record s { itable = update s.itable i (recycled (s.itable i) dev inum) })
  empty_case i none_in e =
      let (free, low, high) = first-some (λ k. (s.itable k).ref == 0) ninode 0 {j = i} e in
      let nowhere : (j : ℕ) → j < ninode → is_for (s.itable j) dev inum ≡ false = (λ j lt.
        first-none (λ k. is_for (s.itable k) dev inum) ninode 0 j none_in (omega arith)
          (omega arith)) in
      new-HasGot s dev inum i u _ high refl refl (ground (arith, free)) (λ j lt ne. nowhere j lt)
        (inr (refl, nowhere))

  -- `iget` gets the slot of an inode in use, or an empty one, and panics only when all slots are in use for
  -- other inodes.
  pub iget-HasGot :
      ((i : ℕ) × (z : Fs) × (iget dev inum s ≡ done i z) × HasGot s dev inum i z)
      ⊎ ((iget dev inum s ≡ panics)
          × ((j : ℕ)
              → j < ninode
              → (0 < (s.itable j).ref) × (is_for (s.itable j) dev inum ≡ false)))
  unfolding iget
  iget-HasGot =
      by_hit (first (λ k. is_for (s.itable k) dev inum) ninode 0)
        (first (λ k. (s.itable k).ref == 0) ninode 0) refl refl
    where
      by_hit :
          (h e : Option ℕ)
          → first (λ k. is_for (s.itable k) dev inum) ninode 0 ≡ h
          → first (λ k. (s.itable k).ref == 0) ninode 0 ≡ e
          → ((i : ℕ) × (z : Fs) × (iget dev inum s ≡ done i z) × HasGot s dev inum i z)
            ⊎ ((iget dev inum s ≡ panics)
                × ((j : ℕ)
                    → j < ninode
                    → (0 < (s.itable j).ref) × (is_for (s.itable j) dev inum ≡ false)))
      by_hit (some i) e eh ee =
          inl (_, _, rw (hit-first s.itable dev inum ninode 0 none ∙ eh, iget) refl, hit_case i eh)
      by_hit none (some i) eh ee = inl (
        _,
        _,
        rw (hit-first s.itable dev inum ninode 0 none ∙ eh, iget)
            (ap (take_slot dev inum s) (empty-first s.itable dev inum ninode 0 none eh ∙ ee)),
        empty_case i eh ee,
      )
      by_hit none none eh ee = inr (
        rw (hit-first s.itable dev inum ninode 0 none ∙ eh, iget)
            (ap (take_slot dev inum s) (empty-first s.itable dev inum ninode 0 none eh ∙ ee)),
        λ j lt. (
          let full =
                first-none (λ k. (s.itable k).ref == 0) ninode 0 j ee (omega arith) (omega arith) in
              ground (arith, full),
          first-none (λ k. is_for (s.itable k) dev inum) ninode 0 j eh (omega arith) (omega arith),
        ),
      )
