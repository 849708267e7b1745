-- ===== src/FileSystem/Content/Grow.antt =====
-- Blocks that `bmap` adds to an inode.
use csci_315_operating_sytem.Prelude.{
  ℕ, ◌+◌, ◌-◌, ◌*◌, ◌/◌, ◌%◌, ◌<◌, ◌≤◌, ◌≡◌, ◌≢◌, refl, arith, true, false, ◌==◌, if◌then◌else◌,
  inl, inr, Bool-cases, update, update_self, update_ne, ap, ◌∙◌, sym,
}
use csci_315_operating_sytem.FileSystem.Words.{
  get_word, put_word, get-put_word, get-put_word_ne, get_word-zero,
}
use csci_315_operating_sytem.FileSystem.Volume.{
  bsize, ndirect, nindirect, maxfile, Volume, is_used, balloc,
}
use csci_315_operating_sytem.FileSystem.Blocks.{Allocated, balloc-Allocated}
use csci_315_operating_sytem.FileSystem.Content.{Inode, Mapped, bmap_direct, bmap_entry}
use csci_315_operating_sytem.FileSystem.Content.Slots.{
  slot, byte_at, IsVolume, IsFile, Extends, Extends-self,
}

-- Block `b`, which was free, has become block `n` of the inode.
pub record Grows (v : Volume) (ip : Inode) (n b : ℕ) (w : Volume) (jp : Inode) : Type 0 where
  pub was_free : is_used v b ≡ false
  pub within : b < v.blocks
  pub blocks : w.blocks ≡ v.blocks
  pub slots : (k : ℕ) → k ≤ maxfile → slot w jp k ≡ (if k == n then b else slot v ip k)
  pub used : (m : ℕ) → is_used w m ≡ (if m == b then true else is_used v m)
  pub kept : (k : ℕ) → k < maxfile → slot v ip k ≢ 0 → w.block (slot v ip k) ≡ v.block (slot v ip k)
  pub zeroed : n < maxfile → (a : ℕ) → w.block b a ≡ 0
  pub size : jp.size ≡ ip.size
  pub inum : jp.inum ≡ ip.inum

module _ (v w : Volume) (ip jp : Inode) (n b : ℕ) (f : IsFile v ip) (empty : slot v ip n ≡ 0)
    (g : Grows v ip n b w jp) where
  -- A block of the inode was in use, so it is not the new one.
  not_new : (k : ℕ) → k ≤ maxfile → slot v ip k ≢ 0 → slot v ip k ≢ b
  not_new k lt ne e = ground (arith, f.marked k lt ne, g.was_free, e)

  new_ne : b ≢ 0
  new_ne e = ground (arith, f.volume.boot, g.was_free, e)

  old_slot : (k : ℕ) → k ≤ maxfile → slot v ip k ≢ 0 → slot w jp k ≡ slot v ip k
  old_slot k lt ne = ground (arith, g.slots k lt, empty)

  Grows-IsFile : IsFile w jp
  Grows-IsFile = record {
    volume = record {
      boot = ground (arith, g.used 0, f.volume.boot);
      uint_blocks = omega (arith, g.blocks, f.volume.uint_blocks);
    };
    marked = λ k lt ne. ground (arith, g.slots k lt, g.used (slot w jp k), f.marked k lt);
    apart = λ k m lk lm ne e.
        ground (arith, g.slots k lk, g.slots m lm, f.apart k m lk lm, not_new k lk, not_new m lm);
  }

  Grows-byte_at : (a : ℕ) → a < maxfile * bsize → byte_at w jp a ≡ byte_at v ip a
  unfolding byte_at
  Grows-byte_at a lt = elim (Bool-cases (slot v ip (a / bsize) == 0)) [
    | inr full ↦ ground (
      arith,
      old_slot (a / bsize) (omega arith),
      ap (λ (d : ℕ → ℕ). d (a % bsize)) (g.kept (a / bsize) (omega arith) (ground arith)),
    )
    | inl hole ↦ elim (Bool-cases (a / bsize == n)) [
      | inl new ↦
          ground
            (arith, g.slots (a / bsize) (omega arith), g.zeroed (ground arith) (a % bsize), new_ne)
      | inr other ↦ ground (arith, g.slots (a / bsize) (omega arith))
    ]
  ]

  pub Grows-Extends : Extends v ip w jp
  Grows-Extends = record {
    file = Grows-IsFile;
    bytes = Grows-byte_at;
    stays = old_slot;
    size = g.size;
    inum = g.inum;
  }

-- The two ways in which a new block gets into an inode.
module _ (v w : Volume) (ip : Inode) (b : ℕ) (f : IsFile v ip) (al : Allocated v b w) where
  other_block : (a : ℕ) → is_used v a ≡ true → w.block a ≡ v.block a
  other_block a used =
      ap (λ (t : ℕ → ℕ → ℕ). t a) al.block
      ∙ update_ne v.block b a (λ _. 0) (λ e. ground (arith, al.was_free))

  zero_block : w.block b ≡ (λ _. 0)
  zero_block = ap (λ (t : ℕ → ℕ → ℕ). t b) al.block ∙ update_self v.block b (λ _. 0)

  same_entries :
      (k : ℕ)
      → ip.addrs ndirect ≢ 0
      → get_word (w.block (ip.addrs ndirect)) k ≡ get_word (v.block (ip.addrs ndirect)) k
  same_entries k ne =
      ap (λ d. get_word d k)
        (other_block (ip.addrs ndirect) (unfold slot in (f.marked maxfile (omega arith) ne)))

  -- An address of the inode itself: `i` is at most NDIRECT.
  abbrev number : ℕ → ℕ
  number i = if i == ndirect then maxfile else i

  direct-Grows :
      (i : ℕ)
      → i ≤ ndirect
      → ip.addrs i ≡ 0
      → Grows v ip (number i) b w (record ip { addrs = update ip.addrs i b })
  unfolding slot update
  direct-Grows i le empty = record {
    was_free = al.was_free;
    within = al.within;
    blocks = al.blocks;
    slots = λ k lt. ground (
      arith,
      same_entries (k - ndirect),
      ap (λ d. get_word d (k - ndirect)) zero_block,
      get_word-zero (k - ndirect),
    );
    used = al.used;
    kept = λ k lt ne. other_block (slot v ip k) (f.marked k (omega arith) ne);
    zeroed = λ lt a. ap (λ (d : ℕ → ℕ). d a) zero_block;
    size = refl;
    inum = refl;
  }

  -- An entry of the indirect block.
  abbrev with_entry : ℕ → Volume
  with_entry j = record w {
    block = update w.block (ip.addrs ndirect) (put_word (w.block (ip.addrs ndirect)) j b);
  }

  entry-Grows :
      (j : ℕ)
      → j < nindirect
      → ip.addrs ndirect ≢ 0
      → get_word (v.block (ip.addrs ndirect)) j ≡ 0
      → Grows v ip (ndirect + j) b (with_entry j) ip
  unfolding slot is_used
  entry-Grows j lt ind empty = record {
    was_free = al.was_free;
    within = al.within;
    blocks = al.blocks;
    slots = λ k le. ground (arith, entry (k - ndirect), ind);
    used = al.used;
    kept = λ k le ne.
        update_ne w.block (ip.addrs ndirect) (slot v ip k) _ (not_indirect k le ne)
        ∙ other_block (slot v ip k) (f.marked k (omega arith) ne);
    zeroed = λ le a.
        ap (λ (d : ℕ → ℕ). d a)
          (update_ne w.block (ip.addrs ndirect) b _
              (λ e. ground (arith, al.was_free, indirect_used, e))
            ∙ zero_block);
    size = refl;
    inum = refl;
  }
    where
      indirect_used : is_used v (ip.addrs ndirect) ≡ true
      indirect_used = f.marked maxfile (omega arith) ind

      not_indirect : (k : ℕ) → k < maxfile → slot v ip k ≢ 0 → slot v ip k ≢ ip.addrs ndirect
      not_indirect k le ne e =
          absurd (ground (arith, f.apart k maxfile (omega arith) (omega arith) ne e))

      entry :
          (k : ℕ)
          → get_word ((with_entry j).block (ip.addrs ndirect)) k
            ≡ (if k == j then b else get_word (v.block (ip.addrs ndirect)) k)
      entry k = elim (Bool-cases (k == j)) [
        | inl same ↦
            (let e : k ≡ j = ground arith in
              rw (e) (
                ap (λ d. get_word d j) (update_self w.block (ip.addrs ndirect) _)
                ∙ get-put_word (w.block (ip.addrs ndirect)) j b
                    (omega (arith, al.within, f.volume.uint_blocks))
                ∙ ground arith))
        | inr other ↦
            ap (λ d. get_word d k) (update_self w.block (ip.addrs ndirect) _)
            ∙ get-put_word_ne (w.block (ip.addrs ndirect)) j k b (ground arith)
            ∙ same_entries k ind
            ∙ ground arith
      ]

-- `bmap` of block `n`: the content is as before, and the address is that of the block, 0 only if every
-- block is in use.
pub record Maps (v : Volume) (ip : Inode) (n : ℕ) (m : Mapped) : Type 0 where
  pub extends : Extends v ip m.vol m.ip
  pub address : m.addr ≡ slot m.vol m.ip n
  pub full : m.addr ≡ 0 → (b : ℕ) → b < m.vol.blocks → is_used m.vol b ≡ true

slot-number :
    (v : Volume) (ip : Inode) (i : ℕ)
    → i ≤ ndirect
    → slot v ip (if i == ndirect then maxfile else i) ≡ ip.addrs i
unfolding slot
slot-number v ip i le = ground arith

-- A block that is free is not block 0.
Allocated-ne : (v w : Volume) (b : ℕ) → IsVolume v → Allocated v b w → (b == 0) ≡ false
Allocated-ne v w b vol al = ground (arith, vol.boot, al.was_free)

pub direct-Maps :
    (v : Volume) (ip : Inode) (i : ℕ)
    → i ≤ ndirect
    → IsFile v ip
    → Maps v ip (if i == ndirect then maxfile else i) (bmap_direct v ip i)
unfolding bmap_direct
direct-Maps v ip i le f = elim (Bool-cases (ip.addrs i == 0)) [
  | inr there ↦
      rw (there, bmap_direct)
        (record {
          extends = Extends-self v ip f;
          address = sym (slot-number v ip i le);
          full = λ z. absurd (ground arith);
        })
  | inl missing ↦ elim (balloc-Allocated v) [
    | inl (e, full) ↦
        rw (missing, bmap_direct)
          (rw (e, bmap_direct)
            (record {
              extends = Extends-self v ip f;
              address = sym (slot-number v ip i le ∙ empty missing);
              full = λ z. full;
            }))
    | inr al ↦
        rw (missing, bmap_direct)
          (rw (Allocated-ne v (balloc v).1 (balloc v).0 f.volume al, bmap_direct)
            (record {
              extends =
                  Grows-Extends v (balloc v).1 ip _ _ (balloc v).0 f
                    (slot-number v ip i le ∙ empty missing)
                    (direct-Grows v (balloc v).1 ip (balloc v).0 f al i le (empty missing));
              address = sym (slot-number (balloc v).1 _ i le ∙ update_self ip.addrs i (balloc v).0);
              full = λ z.
                  absurd (ground (arith, Allocated-ne v (balloc v).1 (balloc v).0 f.volume al));
            }))
  ]
]
  where
    empty : (ip.addrs i == 0) ≡ true → ip.addrs i ≡ 0
    empty e = ground arith

pub entry-Maps :
    (v : Volume) (ip : Inode) (j : ℕ)
    → j < nindirect
    → ip.addrs ndirect ≢ 0
    → IsFile v ip
    → Maps v ip (ndirect + j) (bmap_entry v ip (ip.addrs ndirect) j)
unfolding bmap_entry
entry-Maps v ip j lt ind f = elim (Bool-cases (get_word (v.block (ip.addrs ndirect)) j == 0)) [
  | inr there ↦
      rw (there, bmap_entry)
        (record {
          extends = Extends-self v ip f;
          address = sym at;
          full = λ z. absurd (ground arith);
        })
  | inl missing ↦ elim (balloc-Allocated v) [
    | inl (e, full) ↦
        rw (missing, bmap_entry)
          (rw (e, bmap_entry)
            (record {
              extends = Extends-self v ip f;
              address = sym (at ∙ empty missing);
              full = λ z. full;
            }))
    | inr al ↦
        rw (missing, bmap_entry)
          (rw (Allocated-ne v (balloc v).1 (balloc v).0 f.volume al, bmap_entry)
            (let g = entry-Grows v (balloc v).1 ip (balloc v).0 f al j lt ind (empty missing) in
              record {
                extends =
                    Grows-Extends v _ ip ip (ndirect + j) (balloc v).0 f (at ∙ empty missing) g;
                address = ground (arith, g.slots (ndirect + j) (omega arith));
                full = λ z.
                    absurd (ground (arith, Allocated-ne v (balloc v).1 (balloc v).0 f.volume al));
              }))
  ]
]
  where
    at : slot v ip (ndirect + j) ≡ get_word (v.block (ip.addrs ndirect)) j
    at = unfold slot in (ground (arith, shift))
      where
        shift : (ndirect + j) - ndirect ≡ j
        shift = omega arith

    empty :
        (get_word (v.block (ip.addrs ndirect)) j == 0) ≡ true
        → get_word (v.block (ip.addrs ndirect)) j ≡ 0
    empty e = ground arith
