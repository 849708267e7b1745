-- ===== src/Checkpoint/Memory/RoundTrip.antt =====
-- The pages that a checkpoint saves, and those that a restore loads.
use csci_315_operating_sytem.Prelude.{
  ℕ, zero, suc, ◌+◌, ◌<◌, ◌≤◌, ◌≡◌, ◌≢◌, refl, arith, true, false, Option, none, some, ◌==◌, ltb,
  if◌then◌else◌, u32, update, update_self, update_ne, inl, inr, ◌⊎◌, Bool-cases, ap, ◌∙◌, sym,
  subst,
}
use csci_315_operating_sytem.Proc.Defs.{pgsize}
use csci_315_operating_sytem.Checkpoint.Memory.Defs.{
  FileOps, HasWritten, IsFileOps, Page, Pages, page_rounds, Progress, save_page, put_page,
  checkpoint_pages, checkpoint_addr_space, load_page, get_page, restore_pages, restore_addr_space,
}

-- What a restored page holds: the bytes of the saved page, or zeros where none was mapped.
abbrev pub SamePage : Option Page → Option Page → Type 0
SamePage old none = ⊥
SamePage none (some q) = (k : ℕ) → k < pgsize → q k ≡ 0
SamePage (some p) (some q) = (k : ℕ) → k < pgsize → q k ≡ p k

module _ {F : Type 0} (fs : FileOps F) (IsGood : F → Type 0) (laws : IsFileOps fs IsGood) where
  -- A file that keeps the first `off` bytes of `f`.
  pub record Keeps (off : ℕ) (f g : F) : Type 0 where
    pub good : IsGood g
    pub longer : fs.size f ≤ fs.size g
    pub same : (a : ℕ) → a < off → fs.byte g a ≡ fs.byte f a

  Keeps-trans : (m n : ℕ) (f g h : F) → m ≤ n → Keeps m f g → Keeps n g h → Keeps m f h
  Keeps-trans m n f g h le a b = record {
    good = b.good;
    longer = omega (arith, a.longer, b.longer);
    same = λ i lt. b.same i (omega arith) ∙ a.same i lt;
  }

  -- How a page is written at `off`: `next` is the offset behind it.
  abbrev IsSaved : Option Page → (off next : ℕ) → F → Type 0
  IsSaved none off next g = (next ≡ off + 1) × (fs.byte g off ≡ 0)
  IsSaved (some p) off next g =
      (next ≡ off + 1 + pgsize)
      × (fs.byte g off ≡ 1)
      × ((k : ℕ) → k < pgsize → fs.byte g (off + 1 + k) ≡ p k)

  pub record Saved (page : Option Page) (off : ℕ) (f : F) (next : ℕ) (g : F) : Type 0 where
    pub saved : IsSaved page off next g
    pub reaches : next ≤ fs.size g
    pub keeps : Keeps off f g
    pub onward : off ≤ next

  flag-byte :
      (f g : F) (off : ℕ) (c : ℕ → ℕ) → HasWritten fs IsGood f off 1 c g → fs.byte g off ≡ c 0
  flag-byte f g off c h =
      ap (fs.byte g) (let e : off ≡ off + 0 = omega arith in e) ∙ h.stored 0 (omega arith)

  HasWritten-Keeps :
      (f g : F) (off n : ℕ) (c : ℕ → ℕ) → HasWritten fs IsGood f off n c g → Keeps off f g
  HasWritten-Keeps f g off n c h = record { good = h.good; longer = h.longer; same = h.before }

  -- The bytes of a page behind its flag.
  put_page-Saved :
      (p : Page) (off o1 : ℕ) (f g : F)
      → HasWritten fs IsGood f off 1 (λ _. 1) g
      → o1 ≡ off + 1
      → (put_page fs p o1 g).going ≡ true
      → Saved (some p) off f (put_page fs p o1 g).off (put_page fs p o1 g).state
  put_page-Saved p off o1 f g h1 e1 whole = record {
    saved = (
      omega (arith, next, e1),
      flag,
      λ k lt. subst (λ o. fs.byte last.1 (o + k) ≡ p k) e1 (h2.stored k lt),
    );
    reaches = omega (arith, next, h2.reaches);
    keeps = record {
      good = h2.good;
      longer = omega (arith, h1.longer, h2.longer);
      same = λ a lt. h2.before a (omega (arith, e1)) ∙ h1.before a lt;
    };
    onward = omega (arith, next, e1);
  }
    where
      last : ℕ × F
      last = fs.writei g o1 pgsize p

      h2 : HasWritten fs IsGood g o1 pgsize p last.1
      h2 = laws.writes g o1 pgsize p h1.good (omega arith) (omega arith) (ground arith)

      next : u32 (o1 + pgsize) ≡ o1 + pgsize
      next = omega (arith, h2.reaches, laws.small last.1 h2.good)

      flag : fs.byte last.1 off ≡ 1
      flag = h2.before off (omega (arith, e1)) ∙ flag-byte f g off (λ _. 1) h1

  save_page-Saved :
      (page : Option Page) (off : ℕ) (f : F)
      → IsGood f
      → (save_page fs page off f).going ≡ true
      → Saved page off f (save_page fs page off f).off (save_page fs page off f).state
  unfolding save_page
  save_page-Saved none off f good e = record {
    saved = (next, flag-byte f _ off (λ _. 0) h);
    reaches = omega (arith, next, h.reaches);
    keeps = HasWritten-Keeps f _ off 1 (λ _. 0) h;
    onward = omega (arith, next);
  }
    where
      h : HasWritten fs IsGood f off 1 (λ _. 0) (fs.writei f off 1 (λ _. 0)).1
      h = laws.writes f off 1 (λ _. 0) good (omega arith) (omega arith) (ground arith)

      next : u32 (off + 1) ≡ off + 1
      next = omega (arith, h.reaches, laws.small (fs.writei f off 1 (λ _. 0)).1 h.good)
  save_page-Saved (some p) off f good e = elim (Bool-cases (first.0 == 1)) [
    | inr short ↦ absurd (let bad : false ≡ true = rw (short, save_page) at e in cc)
    | inl whole ↦ rw (whole, save_page) (both whole (rw (whole, save_page) at e))
  ]
    where
      first : ℕ × F
      first = fs.writei f off 1 (λ _. 1)

      both :
          (first.0 == 1) ≡ true
          → (put_page fs p (u32 (off + 1)) first.1).going ≡ true
          → Saved
              (some p)
              off
              f
              (put_page fs p (u32 (off + 1)) first.1).off
              (put_page fs p (u32 (off + 1)) first.1).state
      both whole e2 = put_page-Saved p off (u32 (off + 1)) f first.1 h1 e1 e2
        where
          h1 : HasWritten fs IsGood f off 1 (λ _. 1) first.1
          h1 = laws.writes f off 1 (λ _. 1) good (omega arith) (omega arith) (ground arith)

          e1 : u32 (off + 1) ≡ off + 1
          e1 = omega (arith, h1.reaches, laws.small first.1 h1.good)

  -- Reading at `off` what was saved there.
  abbrev Loads : Option Page → (next : ℕ) → Progress (Option Page) → Type 0
  Loads page next r = (r.going ≡ true) × (r.off ≡ next) × SamePage page r.state

  load_page-Loads :
      (page : Option Page) (old : Page) (off next : ℕ) (g : F)
      → IsGood g
      → IsSaved page off next g
      → next ≤ fs.size g
      → Loads page next (load_page fs g off (some old))
  unfolding load_page
  load_page-Loads none old off next g good (e, flag) fits =
      rw (one, load_page)
        (rw (absent, load_page) (refl, omega (arith, e, fits, laws.small g good), λ k lt. refl))
    where
      got :
          ((fs.readi g off 1).0 ≡ 1)
          × ((k : ℕ) → k < 1 → (fs.readi g off 1).1 k ≡ fs.byte g (off + k))
      got = laws.reads g off 1 good (omega (arith, e, fits))

      one : ((fs.readi g off 1).0 == 1) ≡ true
      one = ground (arith, got.0)

      at_flag : fs.byte g (off + 0) ≡ 0
      at_flag = ap (fs.byte g) (let same : off + 0 ≡ off = omega arith in same) ∙ flag

      absent : ((fs.readi g off 1).1 0 == 0) ≡ true
      absent = ground (arith, got.1 0 (omega arith), at_flag)
  load_page-Loads (some p) old off next g good (e, flag, bytes) fits =
      rw (one, load_page)
        (rw (present, load_page) (rest (u32 (off + 1)) (omega (arith, e, fits, laws.small g good))))
    where
      got :
          ((fs.readi g off 1).0 ≡ 1)
          × ((k : ℕ) → k < 1 → (fs.readi g off 1).1 k ≡ fs.byte g (off + k))
      got = laws.reads g off 1 good (omega (arith, e, fits))

      one : ((fs.readi g off 1).0 == 1) ≡ true
      one = ground (arith, got.0)

      at_flag : fs.byte g (off + 0) ≡ 1
      at_flag = ap (fs.byte g) (let same : off + 0 ≡ off = omega arith in same) ∙ flag

      present : ((fs.readi g off 1).1 0 == 0) ≡ false
      present = ground (arith, got.1 0 (omega arith), at_flag)

      rest : (o : ℕ) → o ≡ off + 1 → Loads (some p) next (get_page fs g o old)
      rest o eo =
          (ground (arith, whole), omega (arith, eo, e, fits, laws.small g good), λ k lt. page k lt)
        where
          page_at : o + pgsize ≤ fs.size g
          page_at = omega (arith, eo, e, fits)

          whole : (fs.readi g o pgsize).0 ≡ pgsize
          whole = (laws.reads g o pgsize good page_at).0

          page :
              (k : ℕ)
              → k < pgsize
              → (if ltb k (fs.readi g o pgsize).0 then (fs.readi g o pgsize).1 k else old k) ≡ p k
          page k lt = rw (whole) (
              ground (
                arith,
                (laws.reads g o pgsize good page_at).1 k lt,
                subst (λ i. fs.byte g (i + k) ≡ p k) (sym eo) (bytes k lt),
              ))

  -- The pages that a loop has saved from offset `off` on.
  checkpoint_pages-Keeps :
      (pages : Pages) (r i off : ℕ) (f : F)
      → IsGood f
      → (checkpoint_pages fs pages r i off f).0 ≡ true
      → Keeps off f (checkpoint_pages fs pages r i off f).1
  unfolding checkpoint_pages
  checkpoint_pages-Keeps pages zero i off f good e = record {
    good = good;
    longer = omega arith;
    same = λ a lt. refl;
  }
  checkpoint_pages-Keeps pages (suc r) i off f good e =
      elim (Bool-cases (save_page fs (pages i) off f).going) [
        | inr stop ↦ absurd (let bad : false ≡ true = rw (stop, checkpoint_pages) at e in cc)
        | inl go ↦
            rw (go, checkpoint_pages)
              (let s = save_page-Saved (pages i) off f good go in
                Keeps-trans off _ f _ _ s.onward s.keeps (
                  checkpoint_pages-Keeps pages r (i + 1) _ _ s.keeps.good
                    (rw (go, checkpoint_pages) at e)))
      ]

  IsSaved-Keeps :
      (page : Option Page) (off next : ℕ) (f g : F)
      → IsSaved page off next f
      → Keeps next f g
      → IsSaved page off next g
  IsSaved-Keeps none off next f g (e, flag) k = (e, k.same off (omega (arith, e)) ∙ flag)
  IsSaved-Keeps (some p) off next f g (e, flag, bytes) k = (
    e,
    k.same off (omega (arith, e)) ∙ flag,
    λ j lt. k.same (off + 1 + j) (omega (arith, e)) ∙ bytes j lt,
  )

  -- The entries of the new page table: those of the old one outside the rounds.
  pub record Loaded (old start new : Pages) (r i : ℕ) : Type 0 where
    pub inside : (j : ℕ) → i ≤ j → j < i + r → SamePage (old j) (new j)
    pub outside : (j : ℕ) → (j < i) ⊎ (i + r ≤ j) → new j ≡ start j

  Loaded-step :
      (old start new : Pages) (page : Option Page) (r i : ℕ)
      → SamePage (old i) page
      → Loaded old (update start i page) new r (i + 1)
      → Loaded old start new (suc r) i
  Loaded-step old start new page r i here l = record {
    inside = λ j le lt. elim (Bool-cases (j == i)) [
      | inl this ↦
          (let e : j ≡ i = ground arith in
            rw e (
              subst (SamePage (old i))
                (sym (l.outside i (inl (omega arith)) ∙ update_self start i page)) here))
      | inr later ↦ l.inside j (ground arith) (omega arith)
    ];
    outside = λ j out. l.outside j (outer j out) ∙ update_ne start i j page (not_here j out);
  }
    where
      outer : (j : ℕ) → (j < i) ⊎ (i + suc r ≤ j) → (j < i + 1) ⊎ (i + 1 + r ≤ j)
      outer j (inl lt) = inl (omega arith)
      outer j (inr le) = inr (omega arith)

      not_here : (j : ℕ) → (j < i) ⊎ (i + suc r ≤ j) → j ≢ i
      not_here j (inl lt) = ground arith
      not_here j (inr le) = ground arith

  restore_step :
      (g : F) (r i off : ℕ) (start : Pages) (p : Page)
      → start i ≡ some p
      → (load_page fs g off (some p)).going ≡ true
      → restore_pages fs g (suc r) i off start
        ≡ restore_pages fs g r
            (i + 1)
            (load_page fs g off (some p)).off
            (update start i (load_page fs g off (some p)).state)
  unfolding restore_pages
  restore_step g r i off start p at =
      subst
        (λ o.
          (load_page fs g off o).going ≡ true
          → restore_pages fs g (suc r) i off start
            ≡ restore_pages fs g r (i + 1) (load_page fs g off o).off
                (update start i (load_page fs g off o).state))
        at (λ go. rw (go, restore_pages) refl)

  restore_pages-Loaded :
      (pages start : Pages) (r i off : ℕ) (f : F)
      → IsGood f
      → (checkpoint_pages fs pages r i off f).0 ≡ true
      → ((j : ℕ) → i ≤ j → j < i + r → (p : Page) × (start j ≡ some p))
      → (new : Pages) × (restore_pages fs (checkpoint_pages fs pages r i off f).1 r i off start
          ≡ (true, new))
        × Loaded pages start new r i
  unfolding checkpoint_pages restore_pages
  restore_pages-Loaded pages start zero i off f good e mapped =
      (start, refl, record { inside = λ j le lt. absurd (omega arith); outside = λ j out. refl })
  restore_pages-Loaded pages start (suc r) i off f good e mapped =
      elim (Bool-cases (save_page fs (pages i) off f).going) [
        | inr stop ↦ absurd (let bad : false ≡ true = rw (stop, checkpoint_pages) at e in cc)
        | inl go ↦
            rw (go, checkpoint_pages)
              (load_here (rw (go, checkpoint_pages) at e) (save_page-Saved (pages i) off f good go)
                (mapped i (omega arith) (omega arith))
                (λ page e2 here.
                  restore_pages-Loaded pages (update start i page) r (i + 1) _ _
                    (save_page-Saved (pages i) off f good go).keeps.good e2 here))
      ]
    where
      s : Progress F
      s = save_page fs (pages i) off f

      load_here :
          (checkpoint_pages fs pages r (i + 1) s.off s.state).0 ≡ true
          → Saved (pages i) off f s.off s.state
          → ((p : Page) × (start i ≡ some p))
          → ((page : Option Page)
              → (checkpoint_pages fs pages r (i + 1) s.off s.state).0 ≡ true
              → ((j : ℕ)
                  → i + 1 ≤ j
                  → j < i + 1 + r
                  → (p : Page) × (update start i page j ≡ some p))
              → (new : Pages) × (restore_pages fs
                    (checkpoint_pages fs pages r (i + 1) s.off s.state).1
                    r
                    (i + 1)
                    s.off
                    (update start i page)
                  ≡ (true, new))
                × Loaded pages (update start i page) new r (i + 1))
          → (new : Pages) × (restore_pages fs
                (checkpoint_pages fs pages r (i + 1) s.off s.state).1
                (suc r)
                i
                off
                start
              ≡ (true, new))
            × Loaded pages start new (suc r) i
      load_here e2 sv (p, at) rest =
          let g = (checkpoint_pages fs pages r (i + 1) s.off s.state).1 in
          let k = checkpoint_pages-Keeps pages r (i + 1) s.off s.state sv.keeps.good e2 in
          let (go, next, same) =
            load_page-Loads (pages i) p off s.off g k.good
              (IsSaved-Keeps (pages i) off s.off s.state g sv.saved k)
              (omega (arith, sv.reaches, k.longer)) in
          let (new, en, l) = rest (load_page fs g off (some p)).state e2 (λ j le lt.
            (let (q, eq) = mapped j (omega arith) (omega arith) in
              (q, update_ne start i j _ (ground arith) ∙ eq))) in
          (
            new,
            restore_step g r i off start p at go
                ∙ ap
                    (λ o.
                      restore_pages fs g r (i + 1) o
                        (update start i (load_page fs g off (some p)).state))
                    next
                ∙ en,
            Loaded-step pages start new _ r i same l,
          )

  -- When `checkpoint_addr_space` into a good file succeeds, `restore_addr_space` on the file that it leaves, over a page
  -- table that maps the first `sz` bytes, succeeds: every saved page is loaded with its bytes, a page
  -- that was not mapped becomes zeros, and the pages above `sz` stay as they were.
  pub restore_addr_space-Loaded :
      (pages start : Pages) (sz off : ℕ) (f : F)
      → IsGood f
      → (checkpoint_addr_space fs pages sz f off).0 ≡ true
      → ((j : ℕ) → j < page_rounds sz → (p : Page) × (start j ≡ some p))
      → (new : Pages) × (restore_addr_space fs start sz
            (checkpoint_addr_space fs pages sz f off).1
            off
          ≡ (true, new))
        × Loaded pages start new (page_rounds sz) 0
  unfolding checkpoint_addr_space restore_addr_space
  restore_addr_space-Loaded pages start sz off f good e mapped =
      restore_pages-Loaded pages start (page_rounds sz) 0 off f good e
        (λ j le lt. mapped j (omega arith))
