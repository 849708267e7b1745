-- ===== src/FileSystem/Directory/Added.antt =====
-- The names of a directory with a new entry.
use csci_315_operating_sytem.Prelude.{
  ℕ, ◌+◌, ◌<◌, ◌≤◌, ◌≡◌, ◌≢◌, arith, true, false, none, some, ◌==◌, ltb, inl, inr, Bool-cases, ap,
  ◌∙◌, sym, not, ◌&&◌,
}
use csci_315_operating_sytem.Prelude.Fold.{first, first-none, first-at, first-agree, first-longer}
use csci_315_operating_sytem.FileSystem.Volume.{Volume}
use csci_315_operating_sytem.FileSystem.Content.{Inode}
use csci_315_operating_sytem.FileSystem.Directory.{namecmp}
use csci_315_operating_sytem.FileSystem.Directory.Names.{namecmp_self}
use csci_315_operating_sytem.FileSystem.Directory.Entries.{
  IsDirectory, entry_count, entry_inum, entry_name,
}
use csci_315_operating_sytem.FileSystem.Directory.Lookup.{has_name, find_name, find_free}
use csci_315_operating_sytem.FileSystem.Directory.Link.{Linked}

-- The place that `dirlink` takes: the first free entry, or the end.
abbrev pub place : Volume → Inode → ℕ
place v dp = elim (find_free v dp) [ none ↦ entry_count dp | some k ↦ k ]

-- Every other name leads where it led, and `name` leads to `inum`.
pub record Added (v : Volume) (dp : Inode) (name : ℕ → ℕ) (inum : ℕ) (w : Volume) (jp : Inode)
    : Type 0 where
  pub directory : IsDirectory w jp
  pub found : find_name w jp name ≡ some (place v dp)
  pub leads : entry_inum w jp (place v dp) ≡ inum
  pub others : (x : ℕ → ℕ) → namecmp x name ≡ false → find_name w jp x ≡ find_name v dp x
  pub other_leads :
      (j : ℕ) → j < entry_count dp → j ≢ place v dp → entry_inum w jp j ≡ entry_inum v dp j

module _ (v : Volume) (dp : Inode) (name : ℕ → ℕ) (inum k : ℕ) (w : Volume) (jp : Inode)
    (some_inode : 0 < inum) (short : inum < 65536) (absent : find_name v dp name ≡ none)
    (at : k ≤ entry_count dp) (free : k < entry_count dp → entry_inum v dp k ≡ 0)
    (l : Linked v dp name inum k w jp) where
  placed : k < entry_count jp
  placed = ground (arith, l.count, at)

  leads : entry_inum w jp k ≡ inum
  leads = ground (arith, l.inum_at k placed)

  has_it : has_name w jp name k ≡ true
  has_it = ground (arith, leads, l.own_name name, namecmp_self name)

  kept : (x : ℕ → ℕ) (j : ℕ) → j < entry_count jp → j ≢ k → has_name w jp x j ≡ has_name v dp x j
  kept x j lt ne =
      ap (λ n. not (n == 0) && namecmp x (entry_name w jp j)) (l.inum_at j lt ∙ ground (arith, ne))
      ∙ ap (λ b. not (entry_inum v dp j == 0) && b) (l.other_name j lt ne x)

  misses : (j : ℕ) → j < k → has_name w jp name j ≡ false
  misses j lt =
      kept name j (omega (arith, placed)) (omega arith)
      ∙ first-none (has_name v dp name) (entry_count dp) 0 j absent (omega arith)
          (omega (arith, at))

  found : find_name w jp name ≡ some k
  found =
      first-at (has_name w jp name) (entry_count jp) 0 k (omega arith) (omega (arith, placed))
        has_it (λ j le lt. misses j lt)

  module _ (x : ℕ → ℕ) (other : namecmp x name ≡ false) where
    not_here : has_name w jp x k ≡ false
    not_here = ground (arith, l.own_name x)

    agree : (j : ℕ) → 0 ≤ j → j < 0 + entry_count dp → has_name w jp x j ≡ has_name v dp x j
    agree j le lt = elim (Bool-cases (j == k)) [
      | inr elsewhere ↦ kept x j (ground (arith, l.count)) (ground arith)
      | inl here ↦
          (let e : j ≡ k = ground arith in
            ap (has_name w jp x) e ∙ not_here ∙ ground (arith, e, free, ap (entry_inum v dp) e))
    ]

    others : find_name w jp x ≡ find_name v dp x
    others = elim (Bool-cases (ltb k (entry_count dp))) [
      | inl reused ↦
          ap (λ n. first (has_name w jp x) n 0) (l.count ∙ ground arith)
          ∙ first-agree (has_name w jp x) (has_name v dp x) (entry_count dp) 0 agree
      | inr longer ↦
          (let last : k ≡ entry_count dp = ground (arith, at) in
            ap (λ n. first (has_name w jp x) n 0) (l.count ∙ ground arith)
            ∙ first-longer (has_name w jp x) (entry_count dp) 0
                (ap (has_name w jp x) (omega (arith, last)) ∙ not_here)
            ∙ first-agree (has_name w jp x) (has_name v dp x) (entry_count dp) 0 agree)
    ]

  pub Linked-Added : k ≡ place v dp → Added v dp name inum w jp
  Linked-Added e = record {
    directory = l.directory;
    found = found ∙ ap some e;
    leads = ap (entry_inum w jp) (sym e) ∙ leads;
    others = others;
    other_leads = λ j lt ne. l.inum_at j (ground (arith, l.count)) ∙ ground (arith, ne, e);
  }
