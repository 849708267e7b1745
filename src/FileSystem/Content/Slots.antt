-- ===== src/FileSystem/Content/Slots.antt =====
-- The blocks of an inode, and its content as bytes, whichever blocks hold them.
use csci_315_operating_sytem.Prelude.{
  ℕ, ◌-◌, ◌*◌, ◌/◌, ◌%◌, ◌^◌, ◌<◌, ◌≤◌, ◌≡◌, ◌≢◌, refl, true, ◌==◌, ltb, if◌then◌else◌, ◌∙◌, sym,
}
use csci_315_operating_sytem.FileSystem.Words.{get_word}
use csci_315_operating_sytem.FileSystem.Volume.{bsize, ndirect, maxfile, Volume, is_used}
use csci_315_operating_sytem.FileSystem.Content.{Inode}

-- The `n`th block of the content; the indirect block is number MAXFILE. 0 for none.
unfoldable pub slot : Volume → Inode → ℕ → ℕ
slot v ip n =
    if ltb n ndirect
    then ip.addrs n
    else (if ltb n maxfile
        then (if ip.addrs ndirect == 0
            then 0
            else get_word (v.block (ip.addrs ndirect)) (n - ndirect))
        else ip.addrs ndirect)

-- Byte `a` of the content: zero where no block is.
unfoldable pub byte_at : Volume → Inode → ℕ → ℕ
byte_at v ip a =
    if slot v ip (a / bsize) == 0 then 0 else v.block (slot v ip (a / bsize)) (a % bsize)

-- Block 0 is in use, and block numbers are of type `uint`.
pub record IsVolume (v : Volume) : Type 0 where
  pub boot : is_used v 0 ≡ true
  pub uint_blocks : v.blocks < 2 ^ 32

-- The blocks of an inode are in use, and each is there for one purpose.
pub record IsFile (v : Volume) (ip : Inode) : Type 0 where
  pub volume : IsVolume v
  pub marked : (n : ℕ) → n ≤ maxfile → slot v ip n ≢ 0 → is_used v (slot v ip n) ≡ true
  pub apart :
      (n m : ℕ) → n ≤ maxfile → m ≤ maxfile → slot v ip n ≢ 0 → slot v ip n ≡ slot v ip m → n ≡ m

-- No block below the size is missing, and the size is that of a file.
pub record IsWhole (v : Volume) (ip : Inode) : Type 0 where
  pub small : ip.size ≤ maxfile * bsize
  pub present : (n : ℕ) → n * bsize < ip.size → slot v ip n ≢ 0

-- What is in a file after a call that must not show: the same bytes, blocks that stay, the same size.
pub record Extends (v : Volume) (ip : Inode) (w : Volume) (jp : Inode) : Type 0 where
  pub file : IsFile w jp
  pub bytes : (a : ℕ) → a < maxfile * bsize → byte_at w jp a ≡ byte_at v ip a
  pub stays : (n : ℕ) → n ≤ maxfile → slot v ip n ≢ 0 → slot w jp n ≡ slot v ip n
  pub size : jp.size ≡ ip.size
  pub inum : jp.inum ≡ ip.inum

pub Extends-self : (v : Volume) (ip : Inode) → IsFile v ip → Extends v ip v ip
Extends-self v ip f = record {
  file = f;
  bytes = λ a lt. refl;
  stays = λ n lt ne. refl;
  size = refl;
  inum = refl;
}

pub Extends-trans :
    (v w x : Volume) (ip jp kp : Inode) → Extends v ip w jp → Extends w jp x kp → Extends v ip x kp
Extends-trans v w x ip jp kp e f = record {
  file = f.file;
  bytes = λ a lt. f.bytes a lt ∙ e.bytes a lt;
  stays = λ n lt ne. f.stays n lt (λ z. ne (sym (e.stays n lt ne) ∙ z)) ∙ e.stays n lt ne;
  size = f.size ∙ e.size;
  inum = f.inum ∙ e.inum;
}
