-- ===== src/Examples/FileSystem.antt =====
-- A disk of 64 blocks, of which the first 50 are in use, and a file of 1500 bytes in blocks 46 and 47,
-- which has no links.
use csci_315_operating_sytem.Prelude.{
  ℕ, ◌+◌, ◌*◌, ◌<◌, ◌≤◌, ◌≡◌, refl, ◌⊎◌, arith, Bool, true, false, ◌&&◌, none, some, ◌==◌, ltb,
  Option, if◌then◌else◌, update,
}
use csci_315_operating_sytem.FileSystem.Volume.{
  bsize, maxfile, Dinode, Volume, is_used, balloc, alloc_loop, scan_bits, bfree,
}
use csci_315_operating_sytem.FileSystem.Blocks.{Allocated, balloc-Allocated, bfree-used}
use csci_315_operating_sytem.FileSystem.Content.{
  Inode, Mapped, Moved, bmap, bmap_direct, bmap_indirect, bmap_entry, piece, itrunc, readi, writei,
  write_loop, write_size,
}
use csci_315_operating_sytem.FileSystem.Content.Slots.{slot, IsFile, IsWhole}
use csci_315_operating_sytem.FileSystem.Content.Grow.{Maps}
use csci_315_operating_sytem.FileSystem.Content.Map.{bmap-Maps}
use csci_315_operating_sytem.FileSystem.Content.Read.{Reads, available, readi-Reads}
use csci_315_operating_sytem.FileSystem.Content.File.{Ends, writei-Ends}
use csci_315_operating_sytem.FileSystem.Content.Trunc.{IsTruncated, itrunc-IsTruncated}
use csci_315_operating_sytem.FileSystem.Chunks.{Writing, filewrite}
use csci_315_operating_sytem.FileSystem.Chunks.Written.{Finish, filewrite-Finish}
use csci_315_operating_sytem.Checkpoint.Memory.Defs.{
  Pages, page_rounds, checkpoint_addr_space, checkpoint_pages, save_page, restore_addr_space,
}
use csci_315_operating_sytem.Checkpoint.Memory.RoundTrip.{Loaded}
use csci_315_operating_sytem.Checkpoint.Memory.OnDisk.{
  InodeFile, IsGoodFile, inode_files, write_inode, inode_files-IsFileOps, on_disk-Loaded,
}

abbrev no_dinode : Dinode
no_dinode = record { type = 0; major = 0; minor = 0; nlink = 0; size = 0; addrs = λ _. 0 }

abbrev pub disk : Volume
disk = record {
  blocks = 64;
  ninodes = 16;
  free_map = λ m b. (m == 0) && ltb b 50;
  block = λ b a. 7;
  dinodes = λ i. no_dinode;
}

abbrev pub inode : Inode
inode = record {
  inum = 5;
  type = 2;
  major = 0;
  minor = 0;
  nlink = 0;
  size = 1500;
  addrs = λ k. if k == 0 then 46 else (if k == 1 then 47 else 0);
}

inode-slot : (n : ℕ) → slot disk inode n ≡ (if n == 0 then 46 else (if n == 1 then 47 else 0))
unfolding slot
inode-slot n = ground arith

inode-IsFile : IsFile disk inode
unfolding is_used
inode-IsFile = record {
  volume = record { boot = refl; uint_blocks = omega arith };
  marked = λ n le ne. ground (arith, inode-slot n);
  apart = λ n m ln lm ne e. ground (arith, inode-slot n, inode-slot m);
}

inode-IsWhole : IsWhole disk inode
inode-IsWhole = record { small = omega arith; present = λ n lt e. ground (arith, inode-slot n) }

balloc-Allocated_example :
    ((balloc disk ≡ (0, disk)) × ((n : ℕ) → n < 64 → is_used disk n ≡ true))
    ⊎ Allocated disk (balloc disk).0 (balloc disk).1
balloc-Allocated_example = balloc-Allocated disk

bfree-used_example :
    (w : Volume) × (bfree 46 disk ≡ some w)
    × ((n : ℕ) → is_used w n ≡ (if n == 46 then false else is_used disk n))
    × (w ≡ record disk { free_map = w.free_map })
bfree-used_example = bfree-used disk 46 (unfold is_used in refl)

bmap-Maps_example : (m : Mapped) × (bmap disk inode 20 ≡ some m) × Maps disk inode 20 m
bmap-Maps_example = bmap-Maps disk inode 20 (omega arith) inode-IsFile

abbrev reachable : ℕ → ℕ → Bool
reachable k m = ltb (k + m) 400

readi-Reads_example :
    (m : Moved) × (readi reachable disk inode 1000 900 ≡ some m)
    × Reads reachable disk inode 1000 (available 1500 1000 900) m
readi-Reads_example = readi-Reads reachable disk inode 1000 900 inode-IsWhole (omega arith)

writei-Ends_example :
    (m : Moved) × (writei reachable (λ k. k) disk inode 1400 900 ≡ some m)
    × (((1400 ≤ 1500)
          × (1400 + 900 ≤ maxfile * bsize)
          × Ends reachable (λ k. k) disk inode 1400 900 m)
        ⊎ (((1500 < 1400) ⊎ (maxfile * bsize < 1400 + 900))
            × (m.count ≡ none)
            × (m.vol ≡ disk)
            × (m.ip ≡ inode)))
writei-Ends_example =
    writei-Ends reachable (λ k. k) disk inode 1400 900 inode-IsFile inode-IsWhole (omega arith)

abbrev file : InodeFile
file = record { vol = disk; ip = inode }

-- An unmapped page, then a page of fives.
abbrev memory : Pages
memory i = if i == 1 then some (λ _. 5) else none

checkpoint-memory : (checkpoint_addr_space inode_files memory 8000 file 0).0 ≡ true
unfolding checkpoint_addr_space checkpoint_pages page_rounds save_page write_inode writei write_loop
    write_size piece bmap bmap_direct bmap_indirect bmap_entry balloc alloc_loop scan_bits update
checkpoint-memory = refl

on_disk-Loaded_example :
    (new : Pages) × (restore_addr_space inode_files
        (λ _. some (λ _. 0))
        8000
        (checkpoint_addr_space inode_files memory 8000 file 0).1
        0
      ≡ (true, new))
    × Loaded inode_files IsGoodFile inode_files-IsFileOps memory
        (λ _. some (λ _. 0))
        new
        (page_rounds 8000)
        0
on_disk-Loaded_example =
    on_disk-Loaded memory (λ _. some (λ _. 0)) 8000 0 file (inode-IsFile, inode-IsWhole)
      checkpoint-memory (λ j lt. (_, refl))

itrunc-IsTruncated_example :
    (w : Volume) × (jp : Inode) × (itrunc disk inode ≡ some (w, jp)) × IsTruncated disk inode w jp
itrunc-IsTruncated_example = itrunc-IsTruncated disk inode inode-IsFile

filewrite-Finish_example :
    (r : Option ℕ) × (z : Writing) × (filewrite true reachable (λ k. k) 5000 1200 disk inode
      ≡ some (r, z))
    × Finish true reachable (λ k. k) disk inode 1200 5000 r z
filewrite-Finish_example =
    filewrite-Finish true reachable (λ k. k) disk inode 1200 5000 (omega arith) inode-IsFile
      inode-IsWhole
