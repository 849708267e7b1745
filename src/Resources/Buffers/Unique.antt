-- ===== src/Resources/Buffers/Unique.antt =====
-- About `bget` of kernel/bio.c.
use csci_315_operating_sytem.Prelude.{
  ℕ, ◌+◌, ◌<◌, ◌≡◌, ◌≢◌, ◌⊎◌, refl, arith, true, false, none, some, List, [], ◌∷◌, ◌++◌, ◌==◌,
  update, update_self, inl, inr, Bool-cases, Option-cases, elem, u32, ap, ◌∙◌, subst,
}
use csci_315_operating_sytem.Resources.Buffers.{
  Buf, Cache, is_for, find_cached, find_unused, recycled, bget,
}

-- Two buffers on the list that are for the same block are the same. Device 0 stands for none.
abbrev pub IsCache : Cache → Type 0
IsCache c =
    (i j : ℕ)
    → elem i c.order ≡ true
    → elem j c.order ≡ true
    → (c.buf i).dev ≢ 0
    → (c.buf i).dev ≡ (c.buf j).dev
    → (c.buf i).blockno ≡ (c.buf j).blockno
    → i ≡ j

module _ (buf : ℕ → Buf) (dev blockno : ℕ) where
  find_cached-some :
      (is : List ℕ) {i : ℕ}
      → find_cached buf dev blockno is ≡ some i
      → (elem i is ≡ true) × ((buf i).dev ≡ dev) × ((buf i).blockno ≡ blockno)
  unfolding find_cached elem
  find_cached-some [] e = absurd (cc)
  find_cached-some (j ∷ js) {i} e = elim (Bool-cases (is_for dev blockno (buf j))) [
    | inl hit ↦ ground arith
    | inr miss ↦ ground (arith, find_cached-some js {i = i})
  ]

  find_cached-none :
      (is : List ℕ) (j : ℕ)
      → find_cached buf dev blockno is ≡ none
      → elem j is ≡ true
      → is_for dev blockno (buf j) ≡ false
  unfolding find_cached elem
  find_cached-none [] j e m = absurd (let bad : false ≡ true = m in cc)
  find_cached-none (i ∷ is) j e m = elim (Bool-cases (i == j)) [
    | inl this ↦
        (let same : i ≡ j = ground arith in
          subst (λ x. is_for dev blockno (buf x) ≡ false) same (ground arith))
    | inr other ↦ ground (arith, find_cached-none is j)
  ]

find_unused-some :
    (buf : ℕ → Buf) (is : List ℕ) {i : ℕ}
    → find_unused buf is ≡ some i
    → (elem i is ≡ true) × ((buf i).refcnt ≡ 0)
unfolding find_unused elem
find_unused-some buf [] e = absurd (cc)
find_unused-some buf (j ∷ js) {i} e = elim (Option-cases (find_unused buf js)) [
  | inl stuck ↦ ground (arith, stuck)
  | inr (k, found) ↦ ground (arith, found, find_unused-some buf js {i = k})
]

find_unused-none :
    (buf : ℕ → Buf) (is : List ℕ) (j : ℕ)
    → find_unused buf is ≡ none
    → elem j is ≡ true
    → 0 < (buf j).refcnt
unfolding find_unused elem
find_unused-none buf [] j e m = absurd (let bad : false ≡ true = m in cc)
find_unused-none buf (i ∷ is) j e m = elim (Option-cases (find_unused buf is)) [
  | inr (k, found) ↦ absurd (ground (arith, found))
  | inl stuck ↦ elim (Bool-cases (i == j)) [
    | inl this ↦
        (let same : i ≡ j = ground arith in
          subst (λ x. 0 < (buf x).refcnt) same (ground (arith, stuck)))
    | inr other ↦ find_unused-none buf is j stuck (ground arith)
  ]
]

-- A buffer that becomes one for a block that no other buffer is for.
IsCache-update :
    (c : Cache) (i : ℕ) (b : Buf)
    → IsCache c
    → ((j : ℕ) → elem j c.order ≡ true → j ≢ i → is_for b.dev b.blockno (c.buf j) ≡ false)
    → IsCache (record c { buf = update c.buf i b })
unfolding update
IsCache-update c i b unique alone j k mj mk ne same_dev same_block = elim (Bool-cases (j == i)) [
  | inl ji ↦ elim (Bool-cases (k == i)) [
    | inl ki ↦ ground arith
    | inr k_other ↦ absurd (ground (arith, alone k mk))
  ]
  | inr j_other ↦ elim (Bool-cases (k == i)) [
    | inl ki ↦ absurd (ground (arith, alone j mj))
    | inr k_other ↦ unique j k mj mk (rw j_other at ne) (ground arith) (ground arith)
  ]
]

-- `i` is the last one of the list whose buffer is not in use.
pub record IsOldestUnused (buf : ℕ → Buf) (is : List ℕ) (i : ℕ) : Type 0 where
  pub newer : List ℕ
  pub older : List ℕ
  pub split : is ≡ newer ++ (i ∷ older)
  pub unused : (buf i).refcnt ≡ 0
  pub in_use : (j : ℕ) → elem j older ≡ true → 0 < (buf j).refcnt

find_unused-IsOldestUnused :
    (buf : ℕ → Buf) (is : List ℕ) (i : ℕ) → find_unused buf is ≡ some i → IsOldestUnused buf is i
unfolding find_unused
find_unused-IsOldestUnused buf [] i e = absurd (cc)
find_unused-IsOldestUnused buf (j ∷ js) i e = elim (Option-cases (find_unused buf js)) [
  | inr (k, found) ↦
      (let o = find_unused-IsOldestUnused buf js i (ground (arith, found)) in
        record {
          newer = j ∷ o.newer;
          older = o.older;
          split = ap (λ l. j ∷ l) o.split;
          unused = o.unused;
          in_use = o.in_use;
        })
  | inl stuck ↦
      (let this : j ≡ i = ground (arith, stuck) in
        record {
          newer = [];
          older = js;
          split = ap (λ k. k ∷ js) this;
          unused = ground (arith, stuck, ap (λ k. (buf k).refcnt) this);
          in_use = λ k m. find_unused-none buf js k stuck m;
        })
]

-- A buffer for a block: on the list, for this block, with one reference more, and in a cache without another. It
-- was there with its content, or it is the least recently used one of those not in use, and has to be read.
pub record Got (dev blockno : ℕ) (c : Cache) (i : ℕ) (d : Cache) : Type 0 where
  pub listed : elem i d.order ≡ true
  pub device : (d.buf i).dev ≡ dev
  pub block : (d.buf i).blockno ≡ blockno
  pub counted : (d.buf i).refcnt ≡ u32 ((c.buf i).refcnt + 1)
  pub content :
      ((is_for dev blockno (c.buf i) ≡ true)
        × ((d.buf i).valid ≡ (c.buf i).valid)
        × ((d.buf i).bytes ≡ (c.buf i).bytes))
      ⊎ (((d.buf i).valid ≡ false)
          × IsOldestUnused c.buf c.order i
          × ((j : ℕ) → elem j c.order ≡ true → is_for dev blockno (c.buf j) ≡ false))
  pub cache : IsCache d
  pub same_order : d.order ≡ c.order
  pub others : (j : ℕ) → j ≢ i → d.buf j ≡ c.buf j

module _ (dev blockno : ℕ) (c : Cache) (real : dev ≢ 0) (unique : IsCache c) where
  hit-Got :
      (i : ℕ)
      → find_cached c.buf dev blockno c.order ≡ some i
      → Got dev blockno c i (record c {
        buf = update c.buf i (record (c.buf i) { refcnt = u32 ((c.buf i).refcnt + 1) });
      })
  hit-Got i e = record {
    listed = at.0;
    device = ap (λ (b : Buf). b.dev) self ∙ at.1;
    block = ap (λ (b : Buf). b.blockno) self ∙ at.2;
    counted = ap (λ (b : Buf). b.refcnt) self;
    content =
        inl (ground (arith, at), ap (λ (b : Buf). b.valid) self, ap (λ (b : Buf). b.bytes) self);
    cache = IsCache-update c i b unique alone;
    same_order = refl;
    others = λ j ne. unfold update in (ground arith);
  }
    where
      b : Buf
      b = record (c.buf i) { refcnt = u32 ((c.buf i).refcnt + 1) }

      self : update c.buf i b i ≡ b
      self = update_self c.buf i b

      at : (elem i c.order ≡ true) × ((c.buf i).dev ≡ dev) × ((c.buf i).blockno ≡ blockno)
      at = find_cached-some c.buf dev blockno c.order e

      alone : (j : ℕ) → elem j c.order ≡ true → j ≢ i → is_for b.dev b.blockno (c.buf j) ≡ false
      alone j m ne = elim (Bool-cases (is_for b.dev b.blockno (c.buf j))) [
        | inr miss ↦ miss
        | inl match ↦
            absurd (ne (unique j i m at.0 (ground (arith, at)) (ground arith) (ground arith)))
      ]

  miss-Got :
      (i : ℕ)
      → find_cached c.buf dev blockno c.order ≡ none
      → find_unused c.buf c.order ≡ some i
      → Got dev blockno c i (record c { buf = update c.buf i (recycled dev blockno (c.buf i)) })
  miss-Got i absent e = record {
    listed = (find_unused-some c.buf c.order e).0;
    device = ap (λ (b : Buf). b.dev) self;
    block = ap (λ (b : Buf). b.blockno) self;
    counted = ap (λ (b : Buf). b.refcnt) self ∙ ground (arith, oldest.unused);
    content = inr (
      ap (λ (b : Buf). b.valid) self,
      oldest,
      λ j m. find_cached-none c.buf dev blockno c.order j absent m,
    );
    cache =
        IsCache-update c i (recycled dev blockno (c.buf i)) unique
          (λ j m ne. find_cached-none c.buf dev blockno c.order j absent m);
    same_order = refl;
    others = λ j ne. unfold update in (ground arith);
  }
    where
      oldest : IsOldestUnused c.buf c.order i
      oldest = find_unused-IsOldestUnused c.buf c.order i e

      self : update c.buf i (recycled dev blockno (c.buf i)) i ≡ recycled dev blockno (c.buf i)
      self = update_self c.buf i (recycled dev blockno (c.buf i))

  -- `bget` returns a buffer for the block, the only one in the cache, with one reference more, and changes no other.
  -- It is the one that was for the block, with its content, or else, with `valid` cleared, the least recently
  -- used one of those not in use. It panics only if no buffer is for the block and all are in use.
  pub bget-Got :
      ((i : ℕ) × (d : Cache) × (bget dev blockno c ≡ some (i, d)) × Got dev blockno c i d)
      ⊎ ((bget dev blockno c ≡ none)
          × ((j : ℕ)
              → elem j c.order ≡ true
              → (is_for dev blockno (c.buf j) ≡ false) × (0 < (c.buf j).refcnt)))
  unfolding bget
  bget-Got = elim (Option-cases (find_cached c.buf dev blockno c.order)) [
    | inr (i, found) ↦ rw (found, bget) (inl (i, _, refl, hit-Got i found))
    | inl absent ↦
        rw (absent, bget)
          (elim (Option-cases (find_unused c.buf c.order)) [
            | inr (i, free) ↦ rw (free, bget) (inl (i, _, refl, miss-Got i absent free))
            | inl in_use ↦
                rw (in_use, bget)
                  (inr (
                    refl,
                    λ j m. (
                      find_cached-none c.buf dev blockno c.order j absent m,
                      find_unused-none c.buf c.order j in_use m,
                    ),
                  ))
          ])
  ]
