-- ===== src/Checkpoint/Memory/OnDisk.antt =====
-- The checkpoint file as a file of fs.c.
use csci_315_operating_sytem.Prelude.{
  ℕ, ◌+◌, ◌-◌, ◌*◌, ◌^◌, ◌<◌, ◌≤◌, ◌≡◌, ◌⊎◌, refl, arith, Bool, true, false, ◌||◌, u32, Option,
  some, none, ltb, inl, inr, Bool-cases, ap, ◌∙◌, sym, subst,
}
use csci_315_operating_sytem.FileSystem.Volume.{bsize, maxfile, Volume}
use csci_315_operating_sytem.FileSystem.Content.{Inode, Moved, readi, writei}
use csci_315_operating_sytem.FileSystem.Content.Slots.{byte_at, IsFile, IsWhole}
use csci_315_operating_sytem.FileSystem.Content.Read.{Reads, available, readi-Reads}
use csci_315_operating_sytem.FileSystem.Content.File.{Wrote, Ends, writei-Ends}
use csci_315_operating_sytem.Checkpoint.Memory.Defs.{
  FileOps, HasWritten, IsFileOps, Page, Pages, page_rounds, checkpoint_addr_space,
  restore_addr_space,
}
use csci_315_operating_sytem.Checkpoint.Memory.RoundTrip.{Loaded, restore_addr_space-Loaded}

-- An inode on its disk.
pub record InodeFile : Type 0 where
  pub vol : Volume
  pub ip : Inode

abbrev pub IsGoodFile : InodeFile → Type 0
IsGoodFile f = IsFile f.vol f.ip × IsWhole f.vol f.ip

-- A copy to or from kernel memory does not fail.
abbrev pub kernel_copy : ℕ → ℕ → Bool
kernel_copy k m = true

-- A count; -1 and a panic are 0 here, which is no count that a caller asks for.
abbrev count_of : Option Moved → ℕ
count_of none = 0
count_of (some m) = elim m.count [ none ↦ 0 | some c ↦ c ]

abbrev got_of : Option Moved → ℕ → ℕ
got_of none k = 0
got_of (some m) k = m.got k

abbrev file_of : InodeFile → Option Moved → InodeFile
file_of f none = f
file_of f (some m) = record { vol = m.vol; ip = m.ip }

unfoldable pub read_inode : InodeFile → (off n : ℕ) → ℕ × (ℕ → ℕ)
read_inode f off n = let r = readi kernel_copy f.vol f.ip off n in (count_of r, got_of r)

unfoldable pub write_inode : InodeFile → (off n : ℕ) → (ℕ → ℕ) → ℕ × InodeFile
write_inode f off n src =
    let r = writei kernel_copy src f.vol f.ip off n in (count_of r, file_of f r)

abbrev pub inode_files : FileOps InodeFile
inode_files = record {
  size = λ f. f.ip.size;
  byte = λ f a. byte_at f.vol f.ip a;
  readi = read_inode;
  writei = write_inode;
}

Wrote-HasWritten :
    (f g : InodeFile) (off n : ℕ) (src : ℕ → ℕ)
    → IsGoodFile f
    → off ≤ f.ip.size
    → off + n ≤ maxfile * bsize
    → Wrote src f.vol f.ip off n g.vol g.ip
    → HasWritten inode_files IsGoodFile f off n src g
Wrote-HasWritten f g off n src good le limit r = record {
  good = (r.file, r.whole);
  longer = ground (arith, r.size);
  reaches = ground (arith, r.size);
  stored = λ k lt.
      (let back : (off + k) - off ≡ k = omega arith in
        r.bytes (off + k) (omega (arith, limit)) ∙ ground (arith, back));
  before = λ a lt. r.bytes a (omega (arith, limit, le)) ∙ ground arith;
}

refused :
    (f : InodeFile) (off n : ℕ) (src : ℕ → ℕ)
    → (ltb f.ip.size off || ltb (u32 (off + n)) off) ≡ true
    → count_of (writei kernel_copy src f.vol f.ip off n) ≡ 0
unfolding writei
refused f off n src e = rw e refl

written :
    (f : InodeFile) (off n : ℕ) (src : ℕ → ℕ) (m : Moved)
    → IsGoodFile f
    → off ≤ f.ip.size
    → off + n ≤ maxfile * bsize
    → m.count ≡ some n
    → Ends kernel_copy src f.vol f.ip off n m
    → HasWritten inode_files IsGoodFile f off n src (record { vol = m.vol; ip = m.ip })
written f off n src m good le limit count r =
    let same : r.wrote ≡ n = ap (λ o. elim o [ none ↦ 0 | some c ↦ c ]) (sym r.counted ∙ count) in
    Wrote-HasWritten f (record { vol = m.vol; ip = m.ip }) off n src good le limit
      (subst (λ k. Wrote src f.vol f.ip off k m.vol m.ip) same r.result)

counted : (o : Option ℕ) (n : ℕ) → 0 < n → elim o [ none ↦ 0 | some c ↦ c ] ≡ n → o ≡ some n
counted none n lt e = absurd (omega arith)
counted (some c) n lt e = ap some e

finished :
    (f : InodeFile) (off n : ℕ) (src : ℕ → ℕ) (m : Moved)
    → IsGoodFile f
    → 0 < n
    → writei kernel_copy src f.vol f.ip off n ≡ some m
    → ((off ≤ f.ip.size) × (off + n ≤ maxfile * bsize) × Ends kernel_copy src f.vol f.ip off n m)
      ⊎ (((f.ip.size < off) ⊎ (maxfile * bsize < off + n))
          × (m.count ≡ none)
          × (m.vol ≡ f.vol)
          × (m.ip ≡ f.ip))
    → (write_inode f off n src).0 ≡ n
    → HasWritten inode_files IsGoodFile f off n src (write_inode f off n src).1
unfolding write_inode
finished f off n src m good some_bytes em r all =
    let count = counted m.count n some_bytes (sym (ap count_of em) ∙ all) in
    subst (λ o. HasWritten inode_files IsGoodFile f off n src (file_of f o)) (sym em)
      (elim r [
        | inl (le, limit, ends) ↦ written f off n src m good le limit count ends
        | inr (why, none_at_all, same_vol, same_ip) ↦
            absurd (let e : some n ≡ none = sym count ∙ none_at_all in cc)
      ])

write_inode-HasWritten :
    (f : InodeFile) (off n : ℕ) (src : ℕ → ℕ)
    → IsGoodFile f
    → 0 < n
    → n < 2 ^ 32
    → (write_inode f off n src).0 ≡ n
    → HasWritten inode_files IsGoodFile f off n src (write_inode f off n src).1
unfolding write_inode
write_inode-HasWritten f off n src (file, whole) some_bytes uint all =
    elim (Bool-cases (ltb f.ip.size off || ltb (u32 (off + n)) off)) [
      | inl bad ↦ absurd (let e = refused f off n src bad in ground (arith, e, all))
      | inr fine ↦
          (let (m, em, r) =
              writei-Ends kernel_copy src f.vol f.ip off n file whole
                (ground (arith, whole.small)) in
            finished f off n src m (file, whole) some_bytes em r all)
    ]

read_inode-Reads :
    (f : InodeFile) (off n : ℕ)
    → IsGoodFile f
    → off + n ≤ f.ip.size
    → ((read_inode f off n).0 ≡ n)
      × ((k : ℕ) → k < n → (read_inode f off n).1 k ≡ byte_at f.vol f.ip (off + k))
unfolding read_inode
read_inode-Reads f off n (file, whole) fits =
    let (m, em, r) = readi-Reads kernel_copy f.vol f.ip off n whole (omega (arith, whole.small)) in
    let all : available f.ip.size off n ≡ n = ground arith in
    delivered m em (subst (λ c. Reads kernel_copy f.vol f.ip off c m) all r)
  where
    delivered :
        (m : Moved)
        → readi kernel_copy f.vol f.ip off n ≡ some m
        → Reads kernel_copy f.vol f.ip off n m
        → ((read_inode f off n).0 ≡ n)
          × ((k : ℕ) → k < n → (read_inode f off n).1 k ≡ byte_at f.vol f.ip (off + k))
    delivered m em r = elim r.outcome [
      | inl (count, bytes) ↦ (
        ap count_of em ∙ ap (λ c. elim c [ none ↦ 0 | some k ↦ k ]) count,
        λ k lt. ap (λ o. got_of o k) em ∙ bytes k lt,
      )
      | inr (count, (k, p, fails)) ↦ absurd (let bad : true ≡ false = fails in cc)
    ]

-- readi and writei of fs.c are what the checkpoint relies on.
pub inode_files-IsFileOps : IsFileOps inode_files IsGoodFile
inode_files-IsFileOps = record {
  small = λ f (file, whole). omega (arith, whole.small);
  writes = write_inode-HasWritten;
  reads = read_inode-Reads;
}

-- A successful `checkpoint_addr_space` into an inode of the disk, through `writei`, leaves a file from
-- which `restore_addr_space`, through `readi`, loads every saved page, for a page table that maps the
-- first `sz` bytes; a page that was not mapped becomes zeros, and the pages above `sz` stay.
pub on_disk-Loaded :
    (pages start : Pages) (sz off : ℕ) (f : InodeFile)
    → IsGoodFile f
    → (checkpoint_addr_space inode_files pages sz f off).0 ≡ true
    → ((j : ℕ) → j < page_rounds sz → (p : Page) × (start j ≡ some p))
    → (new : Pages) × (restore_addr_space inode_files start sz
          (checkpoint_addr_space inode_files pages sz f off).1
          off
        ≡ (true, new))
      × Loaded inode_files IsGoodFile inode_files-IsFileOps pages start new (page_rounds sz) 0
on_disk-Loaded = restore_addr_space-Loaded inode_files IsGoodFile inode_files-IsFileOps
