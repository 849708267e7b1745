-- ===== src/Examples/Resources.antt =====
-- Memory of a few pages, and a file table with one file held twice.
use csci_315_operating_sytem.Prelude.{
  ℕ, ◌+◌, ◌-◌, ◌/◌, ◌<◌, ◌≡◌, ◌⊎◌, ◌↔◌, refl, arith, true, false, Option, none, some, [], ◌∷◌, ◌==◌,
  if◌then◌else◌, update, length, elem,
}
use csci_315_operating_sytem.Prelude.Fold.{first}
use csci_315_operating_sytem.Proc.Defs.{pgsize}
use csci_315_operating_sytem.Checkpoint.Defs.{OpenFile, fd_none, fd_pipe}
use csci_315_operating_sytem.Resources.Pages.{FreeList, kalloc, kinit, page_up}
use csci_315_operating_sytem.Resources.Pages.Ownership.{
  IsSound, takes, PageStep-IsSound, kinit-IsSound,
}
use csci_315_operating_sytem.Resources.Files.{
  nfile, FileTable, filealloc, filedup, fileclose, Closing,
}
use csci_315_operating_sytem.Resources.Files.References.{
  IsCounted, filealloc-IsCounted, HasClosed, fileclose-HasClosed,
}
use csci_315_operating_sytem.Resources.Files.Runs.{boots, goes_on, opens, fills, dups, FileReaches}
use csci_315_operating_sytem.Resources.Buffers.{Cache, is_for, bget}
use csci_315_operating_sytem.Resources.Buffers.Unique.{IsCache, Got, bget-Got}
use csci_315_operating_sytem.Resources.SleepLocks.{
  SleepLock, initsleeplock, acquiresleep, holdingsleep, starts, acquires, Reaches-AnswersFor,
}

kinit_example :
    (rs : FreeList) × (kinit 5000 20480 ≡ some rs)
    × IsSound 5000 20480 rs (λ _. false)
    × (length rs ≡ (20480 - page_up 5000 20480 5000) / pgsize)
kinit_example = kinit-IsSound 5000 20480 (omega arith)

one_page-IsSound : IsSound 5000 20480 (8192 ∷ []) (λ _. false)
unfolding elem
one_page-IsSound = record {
  distinct = (refl, tt);
  good = λ p e. ground arith;
  free = λ p e. refl;
  held_good = λ p e. absurd (let bad : false ≡ true = e in cc);
}

takes_one : kalloc (8192 ∷ []) ≡ (8192, [])
unfolding kalloc
takes_one = refl

PageStep_example : IsSound 5000 20480 [] (update (λ _. false) 8192 true)
PageStep_example =
    PageStep-IsSound 5000 20480 (8192 ∷ []) [] (λ _. false) (update (λ _. false) 8192 true)
      one_page-IsSound (takes takes_one (omega arith))

abbrev pipe_file : OpenFile
pipe_file = record {
  type = fd_pipe;
  readable = true;
  writable = false;
  pipe = 500;
  inum = 0;
  off = 0;
  major = 0;
}

abbrev counts : ℕ → ℕ
counts i = if i == 0 then 2 else 0

abbrev file_table : FileTable
file_table i = record { ref = counts i; file = pipe_file }

filealloc_example :
    ((i : ℕ) × ((filealloc file_table).0 ≡ some i)
      × (i < nfile)
      × (counts i ≡ 0)
      × IsCounted (filealloc file_table).1 (update counts i 1))
    ⊎ (((filealloc file_table).0 ≡ none)
        × ((filealloc file_table).1 ≡ file_table)
        × ((i : ℕ) → i < nfile → 0 < counts i))
filealloc_example = filealloc-IsCounted file_table counts (λ i lt. refl)

fileclose_example :
    (c : Closing) × (u : FileTable) × (fileclose 0 file_table ≡ some (c, u))
    × HasClosed file_table counts 0 c u
fileclose_example =
    fileclose-HasClosed file_table counts 0 (λ i lt. refl) (omega arith) (omega arith)

-- Slot 0 opened, made the reading end of a pipe and duplicated.
abbrev no_files : FileTable
no_files i = record { ref = 0; file = record pipe_file { type = fd_none } }

abbrev one_open : FileTable
one_open = update no_files 0 (record (no_files 0) { ref = 1 })

abbrev one_pipe : FileTable
one_pipe = update one_open 0 (record (one_open 0) { file = pipe_file })

abbrev held_twice : FileTable
held_twice = update one_pipe 0 (record (one_pipe 0) { ref = 2 })

abbrev holder : ℕ → ℕ
holder = update (λ _. 0) 0 1

abbrev holders : ℕ → ℕ
holders = update holder 0 (holder 0 + 1)

opens_first : filealloc no_files ≡ (some 0, one_open)
unfolding filealloc first
opens_first = refl

dups_first : filedup 0 one_pipe ≡ some held_twice
unfolding filedup update
dups_first = refl

run : FileReaches held_twice holders
unfolding update
run =
    let held : 0 < holder 0 = omega arith in
    goes_on
      (goes_on (goes_on (boots no_files (λ i. (refl, refl))) (opens opens_first))
        (fills pipe_file (omega arith) held))
      (dups (omega arith) held dups_first)

-- Two buffers, one of them for block 5 of device 1.
abbrev two_buffers : Cache
two_buffers = record {
  buf = λ i. record {
    valid = true;
    dev = if i == 0 then 1 else 0;
    blockno = 5;
    refcnt = 0;
    bytes = λ _. 0;
  };
  order = 0 ∷ 1 ∷ [];
}

two_buffers-IsCache : IsCache two_buffers
two_buffers-IsCache i j mi mj ne same_dev same_block = ground arith

bget_example :
    ((i : ℕ) × (d : Cache) × (bget 1 6 two_buffers ≡ some (i, d)) × Got 1 6 two_buffers i d)
    ⊎ ((bget 1 6 two_buffers ≡ none)
        × ((j : ℕ)
            → elem j two_buffers.order ≡ true
            → (is_for 1 6 (two_buffers.buf j) ≡ false) × (0 < (two_buffers.buf j).refcnt)))
bget_example = bget-Got 1 6 two_buffers (omega arith) two_buffers-IsCache

abbrev held_by_7 : SleepLock
held_by_7 = record { locked = true; pid = 7 }

abbrev holder_7 : Option ℕ
holder_7 = some 7

acquires_first : acquiresleep 7 initsleeplock ≡ some held_by_7
unfolding acquiresleep initsleeplock
acquires_first = refl

Reaches_example :
    ((holdingsleep 8 held_by_7 ≡ true) ↔ (holder_7 ≡ some 8))
    × ((acquiresleep 8 held_by_7 ≡ none) ↔ ((p : ℕ) × (holder_7 ≡ some p)))
Reaches_example = Reaches-AnswersFor 8 held_by_7 holder_7 (acquires 7 starts acquires_first)
