-- ===== src/Examples/Directories.antt =====
-- A directory with the entries "a", a free one, and "b".
use csci_315_operating_sytem.Prelude.{
  ℕ, ◌<◌, ◌≡◌, ◌⊎◌, refl, arith, Bool, true, false, none, some, ◌==◌, ltb, if◌then◌else◌,
}
use csci_315_operating_sytem.Prelude.Fold.{first}
use csci_315_operating_sytem.Strings.Defs.{strncmp}
use csci_315_operating_sytem.FileSystem.Volume.{Volume, is_used}
use csci_315_operating_sytem.FileSystem.Content.{Inode}
use csci_315_operating_sytem.FileSystem.Content.Slots.{slot, byte_at, IsFile}
use csci_315_operating_sytem.FileSystem.Inodes.{ninode, Fs, done, panics, is_for, iget, iput}
use csci_315_operating_sytem.FileSystem.Inodes.Table.{IsUnique, HasGot, iget-HasGot}
use csci_315_operating_sytem.FileSystem.Inodes.Put.{IsFreed, iput-IsFreed}
use csci_315_operating_sytem.FileSystem.Directory.{namecmp, dirlookup, dirlink}
use csci_315_operating_sytem.FileSystem.Directory.Entries.{IsDirectory, entry_inum, entry_name}
use csci_315_operating_sytem.FileSystem.Directory.Lookup.{find_name, resolved, dirlookup-resolved}
use csci_315_operating_sytem.FileSystem.Directory.Links.{LinkEnds, dirlink-LinkEnds}
use csci_315_operating_sytem.FileSystem.Paths.{is_slash, skipelem}
use csci_315_operating_sytem.FileSystem.Paths.Elements.{
  IsPath, IsRun, IsElement, skipelem-IsElement,
}
use csci_315_operating_sytem.FileSystem.Calls.{isdirempty}
use csci_315_operating_sytem.FileSystem.Calls.Empty.{OnlyDots, HasMore, isdirempty-OnlyDots}
use csci_315_operating_sytem.Examples.FileSystem.{disk, inode}

abbrev entries : ℕ → ℕ
entries a =
    if a == 0
    then 3
    else (if a == 2 then 97 else (if a == 32 then 4 else (if a == 34 then 98 else 0)))

abbrev volume : Volume
volume = record disk { block = λ b a. if b == 45 then entries a else 0 }

abbrev directory : Inode
directory = record {
  inum = 1;
  type = 1;
  major = 0;
  minor = 0;
  nlink = 1;
  size = 48;
  addrs = λ k. if k == 0 then 45 else 0;
}

directory-slot : (n : ℕ) → slot volume directory n ≡ (if n == 0 then 45 else 0)
unfolding slot
directory-slot n = ground arith

directory-IsDirectory : IsDirectory volume directory
unfolding is_used
directory-IsDirectory = record {
  file = record {
    volume = record { boot = refl; uint_blocks = omega arith };
    marked = λ n le ne. ground (arith, directory-slot n);
    apart = λ n m ln lm ne e. ground (arith, directory-slot n, directory-slot m);
  };
  whole = record { small = omega arith; present = λ n lt e. ground (arith, directory-slot n) };
  entries = refl;
}

-- Slot 0 has the directory, locked, and slot 1 an unlinked file.
abbrev files : Fs
files = record {
  vol = volume;
  itable = λ i.
      if i == 0
      then record { dev = 1; ref = 1; locked = true; valid = true; ip = directory }
      else record {
        dev = 1;
        ref = if i == 1 then 1 else 0;
        locked = false;
        valid = true;
        ip = inode;
      };
}

abbrev letter : ℕ → ℕ → ℕ
letter c k = if k == 0 then c else 0

dirlookup-resolved_example :
    dirlookup 0 (letter 98) files ≡ resolved 0 files (find_name volume directory (letter 98))
dirlookup-resolved_example = dirlookup-resolved 0 (letter 98) files refl directory-IsDirectory

no_c : find_name volume directory (letter 99) ≡ none
unfolding first entry_inum entry_name byte_at slot namecmp strncmp
no_c = refl

dirlink-LinkEnds_example :
    (b : Bool) × (z : Fs) × (dirlink 0 (letter 99) 9 files ≡ done b z)
    × LinkEnds volume directory (letter 99) 9 b z.vol (z.itable 0).ip
dirlink-LinkEnds_example =
    dirlink-LinkEnds 0 (letter 99) 9 files (omega arith) (omega arith) refl directory-IsDirectory
      no_c

files-IsUnique : IsUnique files.itable
files-IsUnique j k lj lk rj rk d n = ground arith

iget-HasGot_example :
    ((i : ℕ) × (z : Fs) × (iget 1 7 files ≡ done i z) × HasGot files 1 7 i z)
    ⊎ ((iget 1 7 files ≡ panics)
        × ((j : ℕ)
            → j < ninode
            → (0 < (files.itable j).ref) × (is_for (files.itable j) 1 7 ≡ false)))
iget-HasGot_example = iget-HasGot files 1 7 files-IsUnique

unlinked-slot : (n : ℕ) → slot volume inode n ≡ (if n == 0 then 46 else (if n == 1 then 47 else 0))
unfolding slot
unlinked-slot n = ground arith

unlinked-IsFile : IsFile volume inode
unfolding is_used
unlinked-IsFile = record {
  volume = record { boot = refl; uint_blocks = omega arith };
  marked = λ n le ne. ground (arith, unlinked-slot n);
  apart = λ n m ln lm ne e. ground (arith, unlinked-slot n, unlinked-slot m);
}

iput-IsFreed_example : (z : Fs) × (iput 1 files ≡ done tt z) × IsFreed files 1 z
iput-IsFreed_example = iput-IsFreed 1 files refl refl refl refl unlinked-IsFile

-- "//ab/c"
abbrev path : ℕ → ℕ
path k =
    if ltb k 2
    then 47
    else (if k == 2
        then 97
        else (if k == 3 then 98 else (if k == 4 then 47 else (if k == 5 then 99 else 0))))

path-IsPath : IsPath path 6
path-IsPath = record { ends = refl; no_nul = λ k lt e. ground arith }

skipelem-IsElement_example :
    ((skipelem path 6 0 (λ _. 0) ≡ none) × IsRun (is_slash path) 0 6)
    ⊎ ((q : ℕ) × (elem : ℕ → ℕ) × (skipelem path 6 0 (λ _. 0) ≡ some (q, elem))
        × IsElement path 6 0 (λ _. 0) q elem)
skipelem-IsElement_example = skipelem-IsElement path 6 0 (λ _. 0) path-IsPath (omega arith)

isdirempty-OnlyDots_example :
    ((isdirempty 0 files ≡ done true files) × OnlyDots volume directory)
    ⊎ ((isdirempty 0 files ≡ done false files) × HasMore volume directory)
isdirempty-OnlyDots_example = isdirempty-OnlyDots 0 files directory-IsDirectory
