-- ===== src/Resources/Files/Runs.antt =====
-- Runs of the calls of kernel/file.c on the table of files.
use csci_315_operating_sytem.Prelude.{ℕ, ◌+◌, ◌-◌, ◌<◌, ◌≡◌, ◌≢◌, Option, none, some, update}
use csci_315_operating_sytem.Checkpoint.Defs.{fd_none, OpenFile}
use csci_315_operating_sytem.Resources.Files.{
  nfile, FileTable, filealloc, filedup, Closing, fileclose,
}
use csci_315_operating_sytem.Resources.Files.References.{IsCounted}

-- A call by a holder, with the numbers of holders before and after it. `fills` is a holder who says what its
-- file stands for.
pub data FileStep (t : FileTable) (held : ℕ → ℕ) : FileTable → (ℕ → ℕ) → Type 0 where
  opens : {i : ℕ} {u : FileTable} → filealloc t ≡ (some i, u) → FileStep t held u (update held i 1)
  fills :
      {i : ℕ} (f : OpenFile)
      → i < nfile
      → 0 < held i
      → FileStep t held (update t i (record (t i) { file = f })) held
  dups :
      {i : ℕ} {u : FileTable}
      → i < nfile
      → 0 < held i
      → filedup i t ≡ some u
      → FileStep t held u (update held i (held i + 1))
  closes :
      {i : ℕ} {c : Closing} {u : FileTable}
      → i < nfile
      → 0 < held i
      → fileclose i t ≡ some (c, u)
      → FileStep t held u (update held i (held i - 1))

-- From the table of zeros, which no one holds.
pub data FileReaches : FileTable → (ℕ → ℕ) → Type 0 where
  boots :
      (t : FileTable)
      → ((i : ℕ) → ((t i).ref ≡ 0) × ((t i).file.type ≡ fd_none))
      → FileReaches t (λ _. 0)
  goes_on :
      {t u : FileTable} {held next : ℕ → ℕ}
      → FileReaches t held
      → FileStep t held u next
      → FileReaches u next

-- The counts are those of the holders, and a file that no one holds is of type FD_NONE.
pub record IsTable (t : FileTable) (held : ℕ → ℕ) : Type 0 where
  pub counted : IsCounted t held
  pub idle : (i : ℕ) → i < nfile → held i ≡ 0 → (t i).file.type ≡ fd_none

-- `filealloc` by what its loop finds.
abbrev opened : FileTable → Option ℕ → Option ℕ × FileTable
opened t o = elim o [ none ↦ (none, t) | some i ↦ (some i, update t i (record (t i) { ref = 1 })) ]

-- What a holder of file `i` can do: duplicate it, which changes its count alone, and close it.
pub record IsServed (t : FileTable) (held : ℕ → ℕ) (i : ℕ) : Type 0 where
  pub copy : FileTable
  pub dups_to : filedup i t ≡ some copy
  pub same_file : (copy i).file ≡ (t i).file
  pub same_others : (j : ℕ) → j ≢ i → copy j ≡ t j
  pub copy_table : IsTable copy (update held i (held i + 1))
  pub released : Closing
  pub rest : FileTable
  pub closes_to : fileclose i t ≡ some (released, rest)
  pub rest_table : IsTable rest (update held i (held i - 1))
