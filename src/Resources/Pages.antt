-- ===== src/Resources/Pages.antt =====
-- kernel/kalloc.c: the free list of physical pages.
pub mod Ownership
use csci_315_operating_sytem.Prelude.{
  ℕ, zero, suc, ◌+◌, ◌*◌, ◌-◌, ◌/◌, ◌%◌, ◌<◌, ◌≤◌, ◌≡◌, ◌≢◌, ◌⊎◌, refl, arith, Bool, true, false,
  ◌||◌, not, Option, none, some, List, [], ◌∷◌, ◌==◌, ltb, leb, if◌then◌else◌, inl, inr, Bool-cases,
  length,
}
use csci_315_operating_sytem.Proc.Defs.{pgsize}

-- `kmem.freelist`, the pages in order.
abbrev pub FreeList : Type 0
FreeList = List ℕ

-- `kalloc`: a page, 0 if there is none.
unfoldable pub kalloc : FreeList → ℕ × FreeList
kalloc [] = (0, [])
kalloc (r ∷ rs) = (r, rs)

module _ (end physical_stop : ℕ) where
  -- The test of `kfree`.
  abbrev pub is_bad_page : ℕ → Bool
  is_bad_page pa = not (pa % pgsize == 0) || (ltb pa end || leb physical_stop pa)

  -- `kfree`: `none` for its panic.
  unfoldable pub kfree : ℕ → FreeList → Option FreeList
  kfree pa rs = if is_bad_page pa then none else some (pa ∷ rs)

  -- `for(; p + PGSIZE <= (char*)pa_end; p += PGSIZE) kfree(p);`
  unfoldable pub free_loop : (rounds p : ℕ) → FreeList → Option FreeList
  free_loop zero p rs = some rs
  free_loop (suc n) p rs = elim (kfree p rs) [ none ↦ none | some qs ↦ free_loop n (p + pgsize) qs ]

  -- PGROUNDUP.
  abbrev pub page_up : ℕ → ℕ
  page_up a = (a + (pgsize - 1)) / pgsize * pgsize

  unfoldable pub freerange : (pa_start pa_end : ℕ) → FreeList → Option FreeList
  freerange pa_start pa_end rs =
      free_loop ((pa_end - page_up pa_start) / pgsize) (page_up pa_start) rs

  -- `kinit`, on the list that is empty at first.
  unfoldable pub kinit : Option FreeList
  kinit = freerange end physical_stop []
