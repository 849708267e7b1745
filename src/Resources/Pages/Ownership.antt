-- ===== src/Resources/Pages/Ownership.antt =====
-- No page is handed out while it is held, and what is given back can be handed out again.
use csci_315_operating_sytem.Prelude.{
  ℕ, zero, suc, ◌+◌, ◌*◌, ◌-◌, ◌/◌, ◌%◌, ◌<◌, ◌≤◌, ◌≡◌, ◌≢◌, refl, arith, Bool, true, false, some,
  [], ◌∷◌, ◌==◌, inl, inr, Bool-cases, length, elem, Distinct, update, ap, sym, subst,
}
use csci_315_operating_sytem.Proc.Defs.{pgsize}
use csci_315_operating_sytem.Resources.Pages.{
  FreeList, kalloc, is_bad_page, kfree, free_loop, page_up, freerange, kinit,
}

module _ (end physical_stop : ℕ) where
  -- The pages on the list are pages of memory, differ, and are not held by anyone.
  pub record IsSound (rs : FreeList) (held : ℕ → Bool) : Type 0 where
    pub distinct : Distinct rs
    pub good : (p : ℕ) → elem p rs ≡ true → is_bad_page end physical_stop p ≡ false
    pub free : (p : ℕ) → elem p rs ≡ true → held p ≡ false
    pub held_good : (p : ℕ) → held p ≡ true → is_bad_page end physical_stop p ≡ false

  -- A page is taken, none is left, or a holder gives its page back.
  pub data PageStep (rs : FreeList) (held : ℕ → Bool) : FreeList → (ℕ → Bool) → Type 0 where
    takes :
        {p : ℕ} {qs : FreeList}
        → kalloc rs ≡ (p, qs)
        → p ≢ 0
        → PageStep rs held qs (update held p true)
    gives :
        {p : ℕ} {qs : FreeList}
        → held p ≡ true
        → kfree end physical_stop p rs ≡ some qs
        → PageStep rs held qs (update held p false)

  takes-IsSound :
      (p : ℕ) (qs : FreeList) (held : ℕ → Bool)
      → IsSound (p ∷ qs) held
      → IsSound qs (update held p true)
  unfolding elem update
  takes-IsSound p qs held s = record {
    distinct = s.distinct.1;
    good = λ q e. s.good q (ground arith);
    free = λ q e. ground (arith, s.distinct.0, s.free q);
    held_good = λ q e. ground (arith, s.good p, s.held_good q);
  }

  gives-IsSound :
      (p : ℕ) (rs : FreeList) (held : ℕ → Bool)
      → IsSound rs held
      → held p ≡ true
      → IsSound (p ∷ rs) (update held p false)
  unfolding elem update
  gives-IsSound p rs held s mine = record {
    distinct = (
      elim (Bool-cases (elem p rs)) [
        | inl listed ↦ absurd (ground (arith, s.free p listed))
        | inr absent ↦ absent
      ],
      s.distinct,
    );
    good = λ q e. ground (arith, s.held_good p mine, s.good q);
    free = λ q e. ground (arith, s.free q);
    held_good = λ q e. ground (arith, s.held_good q);
  }

  -- A page that is held can be given back: `kfree` does not panic.
  kfree-held :
      (p : ℕ) (rs : FreeList) (held : ℕ → Bool)
      → IsSound rs held
      → held p ≡ true
      → kfree end physical_stop p rs ≡ some (p ∷ rs)
  unfolding kfree
  kfree-held p rs held s mine = rw (s.held_good p mine) refl

  -- Whatever is taken and given back, the pages on the list are pages of memory, differ, and are held by
  -- no one; so a page that `kalloc` returns was not held.
  pub PageStep-IsSound :
      (rs qs : FreeList) (held held' : ℕ → Bool)
      → IsSound rs held
      → PageStep rs held qs held'
      → IsSound qs held'
  unfolding kalloc
  PageStep-IsSound [] qs held held' s (takes {p} e ne) = absurd (ne (sym (ap (λ x. x.0) e)))
  PageStep-IsSound (r ∷ rs) qs held held' s (takes {p} e ne) =
      subst (λ l. IsSound l (update held p true)) (ap (λ x. x.1) e)
        (subst (λ q. IsSound rs (update held q true)) (ap (λ x. x.0) e) (takes-IsSound r rs held s))
  PageStep-IsSound rs qs held held' s (gives {p} mine e) =
      (let same : p ∷ rs ≡ qs = cc (kfree-held p rs held s mine, e) in
        subst (λ l. IsSound l (update held p false)) same (gives-IsSound p rs held s mine))

  -- Pages below `p`, all different, none held.
  record Below (p : ℕ) (rs : FreeList) : Type 0 where
    distinct : Distinct rs
    good : (q : ℕ) → elem q rs ≡ true → (is_bad_page end physical_stop q ≡ false) × (q < p)

  free_loop-Below :
      (n p : ℕ) (rs : FreeList)
      → p % pgsize ≡ 0
      → end ≤ p
      → p + n * pgsize ≤ physical_stop
      → Below p rs
      → (qs : FreeList) × (free_loop end physical_stop n p rs ≡ some qs)
        × Below (p + n * pgsize) qs
        × (length qs ≡ length rs + n)
  unfolding free_loop kfree elem
  free_loop-Below zero p rs aligned above fits b = (
    rs,
    refl,
    record { distinct = b.distinct; good = λ q e. ((b.good q e).0, omega (arith, (b.good q e).1)) },
    omega arith,
  )
  free_loop-Below (suc n) p rs aligned above fits b =
      let (qs, e, c, l) =
        free_loop-Below n (p + pgsize) (p ∷ rs) (omega (arith, aligned)) (omega (arith, above))
          (omega (arith, fits))
          (record { distinct = (fresh, b.distinct); good = λ q m. next q m }) in
      (qs, rw (fine, free_loop) e, subst (λ t. Below t qs) (omega arith) c, omega (arith, l))
    where
      fine : is_bad_page end physical_stop p ≡ false
      fine = ground (arith, aligned, above, fits)

      fresh : elem p rs ≡ false
      fresh = elim (Bool-cases (elem p rs)) [
        | inl listed ↦ absurd (omega (arith, (b.good p listed).1))
        | inr absent ↦ absent
      ]

      next :
          (q : ℕ)
          → elem q (p ∷ rs) ≡ true
          → (is_bad_page end physical_stop q ≡ false) × (q < p + pgsize)
      next q m = elim (Bool-cases (p == q)) [
        | inl this ↦
            (let same : p ≡ q = ground arith in
              (subst (λ x. is_bad_page end physical_stop x ≡ false) same fine, omega (arith, same)))
        | inr other ↦
            (let m' : elem q rs ≡ true = ground arith in
              ((b.good q m').0, omega (arith, (b.good q m').1)))
      ]

  -- `kinit` does not panic, and lists every whole page between `end`, rounded up, and PHYSTOP once.
  pub kinit-IsSound :
      page_up end physical_stop end ≤ physical_stop
      → (rs : FreeList) × (kinit end physical_stop ≡ some rs)
        × IsSound rs (λ _. false)
        × (length rs ≡ (physical_stop - page_up end physical_stop end) / pgsize)
  unfolding kinit freerange elem
  kinit-IsSound le =
      let (qs, e, b, l) =
        free_loop-Below ((physical_stop - page_up end physical_stop end) / pgsize)
          (page_up end physical_stop end) [] (omega arith) (omega arith) (omega (arith, le))
          (record { distinct = tt; good = λ q m. absurd (let bad : false ≡ true = m in cc) }) in
      (
        qs,
        e,
        record {
          distinct = b.distinct;
          good = λ q m. (b.good q m).0;
          free = λ q m. refl;
          held_good = λ q m. absurd (let bad : false ≡ true = m in cc);
        },
        omega (arith, l),
      )
