-- ===== src/Resources/Files/References.antt =====
-- The holders of files, in kernel/file.c.
use csci_315_operating_sytem.Prelude.{
  ℕ, ◌-◌, ◌<◌, ◌≡◌, ◌⊎◌, refl, arith, none, some, ◌≢◌, ◌==◌, update, update_self, update_ne, ap,
  inl, inr, Bool-cases, Option-cases,
}
use csci_315_operating_sytem.Prelude.Fold.{first, first-some, first-none}
use csci_315_operating_sytem.Checkpoint.Defs.{
  FileType, fd_none, fd_pipe, fd_inode, fd_device, OpenFile,
}
use csci_315_operating_sytem.Resources.Files.{
  nfile, FileSlot, FileTable, filealloc, Closing, stays, closes_pipe, puts_inode, ends, closing,
  fileclose,
}

-- `held i` is the number of pointers to file `i` in descriptor tables and in running code.
abbrev pub IsCounted : FileTable → (ℕ → ℕ) → Type 0
IsCounted t held = (i : ℕ) → i < nfile → (t i).ref ≡ held i

pub IsCounted-update :
    (t : FileTable) (held : ℕ → ℕ) (i n : ℕ) (f : FileSlot)
    → IsCounted t held
    → f.ref ≡ n
    → IsCounted (update t i f) (update held i n)
unfolding update
IsCounted-update t held i n f counted e j lt = elim (Bool-cases (j == i)) [
  | inl this ↦ rw this e
  | inr other ↦ rw other (counted j lt)
]

-- `filealloc` returns a file that no one holds, with one holder, or fails when every file is held.
pub filealloc-IsCounted :
    (t : FileTable) (held : ℕ → ℕ)
    → IsCounted t held
    → ((i : ℕ) × ((filealloc t).0 ≡ some i)
        × (i < nfile)
        × (held i ≡ 0)
        × IsCounted (filealloc t).1 (update held i 1))
      ⊎ (((filealloc t).0 ≡ none) × ((filealloc t).1 ≡ t) × ((i : ℕ) → i < nfile → 0 < held i))
unfolding filealloc
filealloc-IsCounted t held counted = elim (Option-cases (first (λ i. (t i).ref == 0) nfile 0)) [
  | inl full ↦
      rw (full, filealloc)
        (inr (
          refl,
          refl,
          λ i lt. ground (
            arith,
            first-none (λ i. (t i).ref == 0) nfile 0 i full (omega arith) (omega arith),
            counted i lt,
          ),
        ))
  | inr (i, e) ↦
      (let (free, le, lt) = first-some (λ i. (t i).ref == 0) nfile 0 {j = i} e in
        rw (e, filealloc)
          (inl (
            i,
            refl,
            omega (arith, lt),
            ground (arith, free, counted i (omega (arith, lt))),
            IsCounted-update t held i 1 _ counted refl,
          )))
]

-- What is released for a file, by its type.
abbrev pub Releases : OpenFile → Closing → Type 0
Releases f c =
    ((f.type ≡ fd_none) × (c ≡ ends))
    ⊎ (((f.type ≡ fd_pipe) × (c ≡ closes_pipe f.pipe f.writable))
        ⊎ (((f.type ≡ fd_inode) ⊎ (f.type ≡ fd_device)) × (c ≡ puts_inode f.inum)))

closing-Releases : (type : FileType) (f : OpenFile) → f.type ≡ type → Releases f (closing type f)
closing-Releases fd_none f e = inl (e, refl)
closing-Releases fd_pipe f e = inr (inl (e, refl))
closing-Releases fd_inode f e = inr (inr (inl e, refl))
closing-Releases fd_device f e = inr (inr (inr e, refl))

-- One holder less. The last holder releases what the file stands for and leaves FD_NONE; otherwise nothing is
-- released and the file stays.
pub record HasClosed (t : FileTable) (held : ℕ → ℕ) (i : ℕ) (c : Closing) (u : FileTable)
    : Type 0 where
  pub counted : IsCounted u (update held i (held i - 1))
  pub outcome :
      ((1 < held i) × (c ≡ stays) × ((u i).file ≡ (t i).file))
      ⊎ ((held i ≡ 1) × Releases (t i).file c × ((u i).file.type ≡ fd_none))
  pub others : (j : ℕ) → j ≢ i → u j ≡ t j

-- A holder can close: `fileclose` does not panic, there is one holder less, and no other file changes. The last
-- holder, and no other, closes the end of the pipe or puts the inode that the file stands for, and leaves the
-- type FD_NONE; otherwise the file keeps what it stands for.
pub fileclose-HasClosed :
    (t : FileTable) (held : ℕ → ℕ) (i : ℕ)
    → IsCounted t held
    → i < nfile
    → 0 < held i
    → (c : Closing) × (u : FileTable) × (fileclose i t ≡ some (c, u)) × HasClosed t held i c u
unfolding fileclose
fileclose-HasClosed t held i counted lt some_holder = elim (Bool-cases (held i == 1)) [
  | inl last ↦ (
    closing (t i).file.type (t i).file,
    update t i (record { ref = 0; file = record (t i).file { type = fd_none } }),
    ground (arith, counted i lt),
    record {
      counted = IsCounted-update t held i (held i - 1) _ counted (ground arith);
      outcome = inr (
        ground arith,
        closing-Releases (t i).file.type (t i).file refl,
        ap (λ (f : FileSlot). f.file.type) (update_self t i _),
      );
      others = λ j ne. update_ne t i j _ ne;
    },
  )
  | inr more ↦ (
    stays,
    update t i (record (t i) { ref = (t i).ref - 1 }),
    ground (arith, counted i lt),
    record {
      counted = IsCounted-update t held i (held i - 1) _ counted (omega (arith, counted i lt));
      outcome = inl (ground arith, refl, ap (λ (f : FileSlot). f.file) (update_self t i _));
      others = λ j ne. update_ne t i j _ ne;
    },
  )
]
