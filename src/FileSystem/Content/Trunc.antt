-- ===== src/FileSystem/Content/Trunc.antt =====
-- About `itrunc` of kernel/fs.c.
use csci_315_operating_sytem.Prelude.{
  ℕ, ◌+◌, ◌-◌, ◌<◌, ◌≤◌, ◌≡◌, ◌≢◌, refl, arith, false, some, ◌==◌, ltb, if◌then◌else◌, inl, inr,
  Bool-cases, update, update_self, update_ne, ap, ◌∙◌, sym,
}
use csci_315_operating_sytem.FileSystem.Words.{get_word}
use csci_315_operating_sytem.FileSystem.Volume.{
  ndirect, nindirect, maxfile, Dinode, Volume, is_used, bfree,
}
use csci_315_operating_sytem.FileSystem.Blocks.{bfree-used}
use csci_315_operating_sytem.FileSystem.Content.{
  Inode, iupdate, trunc_entries, trunc_indirect, itrunc,
}
use csci_315_operating_sytem.FileSystem.Content.Slots.{slot, IsFile}
use csci_315_operating_sytem.FileSystem.Content.Freed.{
  IsOwned, HasFreed, IsCleared, trunc_entries-HasFreed, trunc_direct-HasFreed,
}

with_table :
    (w x y : Volume) (jp : Inode) (a : ℕ)
    → jp.addrs ndirect ≡ a
    → (a == 0) ≡ false
    → trunc_entries (w.block a) nindirect 0 w ≡ some x
    → bfree a x ≡ some y
    → trunc_indirect w jp ≡ some (y, record jp { addrs = update jp.addrs ndirect 0 })
unfolding trunc_indirect
with_table w x y jp a e there ex ey =
    rw (ap (λ a. a == 0) e ∙ there, trunc_indirect)
      (rw (ap (λ a. trunc_entries (w.block a) nindirect 0 w) e ∙ ex, trunc_indirect)
        (rw (ap (λ a. bfree a x) e ∙ ey, trunc_indirect) refl))

-- The file without its blocks.
pub record IsTruncated (v : Volume) (ip : Inode) (w : Volume) (jp : Inode) : Type 0 where
  pub size : jp.size ≡ 0
  pub no_blocks : (n : ℕ) → n ≤ ndirect → jp.addrs n ≡ 0
  pub gone : (n : ℕ) → n ≤ maxfile → slot v ip n ≢ 0 → is_used w (slot v ip n) ≡ false
  pub kept :
      (b : ℕ)
      → ((n : ℕ) → n ≤ maxfile → slot v ip n ≢ 0 → slot v ip n ≢ b)
      → is_used w b ≡ is_used v b
  pub block : w.block ≡ v.block
  pub blocks : w.blocks ≡ v.blocks
  pub ninodes : w.ninodes ≡ v.ninodes
  pub other_inodes : (j : ℕ) → j ≢ ip.inum → w.dinodes j ≡ v.dinodes j
  pub inum : jp.inum ≡ ip.inum
  pub on_disk : ((w.dinodes jp.inum).size ≡ 0) × ((w.dinodes jp.inum).addrs ≡ jp.addrs)

module _ (v : Volume) (ip : Inode) (f : IsFile v ip) where
  direct_slot : (n : ℕ) → n < ndirect → slot v ip n ≡ ip.addrs n
  unfolding slot
  direct_slot n lt = ground arith

  table_slot : slot v ip maxfile ≡ ip.addrs ndirect
  unfolding slot
  table_slot = refl

  entry_slot :
      (n : ℕ)
      → n < nindirect
      → ip.addrs ndirect ≢ 0
      → slot v ip (ndirect + n) ≡ get_word (v.block (ip.addrs ndirect)) n
  unfolding slot
  entry_slot n lt ne =
      let back : ndirect + n - ndirect ≡ n = omega arith in
      ground (arith, ap (get_word (v.block (ip.addrs ndirect))) back)

  different :
      (n m : ℕ) → n ≤ maxfile → m ≤ maxfile → n ≢ m → slot v ip n ≢ 0 → slot v ip n ≢ slot v ip m
  different n m ln lm ne nz e = ne (f.apart n m ln lm nz e)

  slots-IsOwned : IsOwned v (slot v ip) 0 (maxfile + 1)
  slots-IsOwned = record {
    used = λ k l m nz. f.marked k (omega arith) nz;
    apart = λ k m l lt n nz. different k m (omega arith) (omega arith) (omega arith) nz;
  }

  -- What is left to free after the direct blocks.
  later-IsOwned :
      (w : Volume)
      → HasFreed v (slot v ip) 0 ndirect w
      → IsOwned w (slot v ip) ndirect (maxfile + 1)
  later-IsOwned w h = record {
    used = λ k l m nz.
        h.kept (slot v ip k)
          (λ j lj mj nj. different j k (omega arith) (omega arith) (omega arith) nj)
        ∙ f.marked k (omega arith) nz;
    apart = λ k m l lt n nz. different k m (omega arith) (omega arith) (omega arith) nz;
  }

  join-HasFreed :
      (w x : Volume)
      → HasFreed v (slot v ip) 0 ndirect w
      → HasFreed w (slot v ip) ndirect (maxfile + 1) x
      → HasFreed v (slot v ip) 0 (maxfile + 1) x
  join-HasFreed w x h g = record {
    gone = λ k l m nz. elim (Bool-cases (ltb k ndirect)) [
      | inr later ↦ g.gone k (ground arith) m nz
      | inl direct ↦
          g.kept (slot v ip k)
            (λ j lj mj nj. different j k (omega arith) (omega arith) (ground arith) nj)
          ∙ h.gone k l (ground arith) nz
    ];
    kept = λ b apart.
        g.kept b (λ k l m nz. apart k (omega arith) m nz)
        ∙ h.kept b (λ k l m nz. apart k l (omega arith) nz);
    rest = g.rest ∙ ap (λ (y : Volume). record y { free_map = x.free_map }) h.rest;
  }

  no_table : (n : ℕ) → ip.addrs ndirect ≡ 0 → ndirect ≤ n → slot v ip n ≡ 0
  unfolding slot
  no_table n z le = ground (arith, z)

  module _ (w : Volume) (same_block : w.block ≡ v.block)
      (o : IsOwned w (slot v ip) ndirect (maxfile + 1)) where
    no_table-HasFreed : ip.addrs ndirect ≡ 0 → HasFreed w (slot v ip) ndirect (maxfile + 1) w
    no_table-HasFreed z = record {
      gone = λ k l m nz. absurd (nz (no_table k z l));
      kept = λ b h. refl;
      rest = refl;
    }

    module _ (table : ip.addrs ndirect ≢ 0) where
      abbrev words : ℕ → ℕ
      words = get_word (w.block (ip.addrs ndirect))

      word_slot : (n : ℕ) → n < nindirect → words n ≡ slot v ip (ndirect + n)
      word_slot n lt =
          ap (λ (b : ℕ → ℕ → ℕ). get_word (b (ip.addrs ndirect)) n) same_block
          ∙ sym (entry_slot n lt table)

      words-IsOwned : IsOwned w words 0 nindirect
      words-IsOwned = record {
        used = λ k l m nz.
            ap (is_used w) (word_slot k m)
            ∙ o.used (ndirect + k) (omega arith) (omega arith) (λ z. nz (word_slot k m ∙ z));
        apart = λ k m l lt n nz e.
            o.apart (ndirect + k) (ndirect + m) (omega arith) (omega arith) (omega arith)
              (λ z. nz (word_slot k (omega arith) ∙ z))
              (sym (word_slot k (omega arith)) ∙ e ∙ word_slot m n);
      }

      word_ne : (k : ℕ) → k < nindirect → words k ≢ 0 → words k ≢ ip.addrs ndirect
      word_ne k lt nz e =
          o.apart (ndirect + k) maxfile (omega arith) (omega arith) (omega arith)
            (λ z. nz (word_slot k lt ∙ z)) (sym (word_slot k lt) ∙ e ∙ sym table_slot)

      -- The entries and then the indirect block itself.
      table-HasFreed :
          (x y : Volume)
          → HasFreed w words 0 nindirect x
          → ((n : ℕ) → is_used y n ≡ (if n == ip.addrs ndirect then false else is_used x n))
          → y ≡ record x { free_map = y.free_map }
          → HasFreed w (slot v ip) ndirect (maxfile + 1) y
      table-HasFreed x y h one same = record {
        gone = λ n l m nz. elim (Bool-cases (n == maxfile)) [
          | inl last ↦
              (let e : slot v ip n ≡ ip.addrs ndirect =
                  ap (slot v ip) (ground arith) ∙ table_slot in
                ground (arith, one (slot v ip n), e))
          | inr entry ↦
              (let back : ndirect + (n - ndirect) ≡ n = omega arith in
                let e : words (n - ndirect) ≡ slot v ip n =
                  word_slot (n - ndirect) (ground arith) ∙ ap (slot v ip) back in
                ground (
                  arith,
                  one (slot v ip n),
                  sym (ap (is_used x) e)
                      ∙ h.gone (n - ndirect) (omega arith) (ground arith) (λ z. nz (sym e ∙ z)),
                ))
        ];
        kept = λ b apart.
            one b
            ∙ ground (arith, table_slot, apart maxfile (omega arith) (omega arith))
            ∙ h.kept b (λ k l m nz e.
              apart (ndirect + k) (omega arith) (omega arith) (λ z. nz (word_slot k m ∙ z))
                (sym (word_slot k m) ∙ e));
        rest = same ∙ ap (λ (z : Volume). record z { free_map = y.free_map }) h.rest;
      }

    trunc_indirect-HasFreed :
        (jp : Inode)
        → jp.addrs ndirect ≡ ip.addrs ndirect
        → (x : Volume) × (kp : Inode) × (trunc_indirect w jp ≡ some (x, kp))
          × HasFreed w (slot v ip) ndirect (maxfile + 1) x
          × (kp.addrs ndirect ≡ 0)
          × ((k : ℕ) → k < ndirect → kp.addrs k ≡ jp.addrs k)
          × (kp.inum ≡ jp.inum)
    unfolding trunc_indirect
    trunc_indirect-HasFreed jp e = elim (Bool-cases (ip.addrs ndirect == 0)) [
      | inl no_entries ↦ (
        w,
        jp,
        rw (ap (λ a. a == 0) e ∙ no_entries, trunc_indirect) refl,
        no_table-HasFreed (ground arith),
        e ∙ ground arith,
        λ k l. refl,
        refl,
      )
      | inr table ↦
          (let ne : ip.addrs ndirect ≢ 0 = ground arith in
            let (x, ex, h) =
              trunc_entries-HasFreed (w.block (ip.addrs ndirect)) nindirect 0 nindirect w
                (omega arith) (words-IsOwned ne) in
            let (y, ey, one, same) = bfree-used x (ip.addrs ndirect) (
              h.kept (ip.addrs ndirect) (λ k l m nz. word_ne ne k m nz)
              ∙ ap (is_used w) (sym table_slot)
              ∙ o.used maxfile (omega arith) (omega arith) (λ z. ne (sym table_slot ∙ z))) in
            (
              y,
              record jp { addrs = update jp.addrs ndirect 0 },
              with_table w x y jp (ip.addrs ndirect) e table ex ey,
              table-HasFreed ne x y h one same,
              update_self jp.addrs ndirect 0,
              λ k l. update_ne jp.addrs ndirect k 0 (omega arith),
              refl,
            ))
    ]

  -- The two halves of `itrunc`, and the inode on disk.
  HasFreed-IsTruncated :
      (x : Volume) (kp : Inode)
      → HasFreed v (slot v ip) 0 (maxfile + 1) x
      → ((k : ℕ) → k ≤ ndirect → kp.addrs k ≡ 0)
      → kp.inum ≡ ip.inum
      → IsTruncated v ip (iupdate x (record kp { size = 0 })) (record kp { size = 0 })
  unfolding iupdate is_used
  HasFreed-IsTruncated x kp h zeros num = record {
    size = refl;
    no_blocks = zeros;
    gone = λ n le nz. h.gone n (omega arith) (omega arith) nz;
    kept = λ b apart. h.kept b (λ k l m nz. apart k (omega arith) nz);
    block = ap (λ (y : Volume). y.block) h.rest;
    blocks = ap (λ (y : Volume). y.blocks) h.rest;
    ninodes = ap (λ (y : Volume). y.ninodes) h.rest;
    other_inodes = λ j ne.
        update_ne x.dinodes kp.inum j _ (λ e. ne (e ∙ num))
        ∙ ap (λ (y : Volume). y.dinodes j) h.rest;
    inum = num;
    on_disk = (
      ap (λ (d : Dinode). d.size) (update_self x.dinodes kp.inum _),
      ap (λ (d : Dinode). d.addrs) (update_self x.dinodes kp.inum _),
    );
  }

  -- `itrunc` of an inode whose blocks are in use, each once, does not panic. It frees all of them, the indirect
  -- block too, and no other, and leaves a file of size 0 with no blocks, in memory and on disk. The bytes of the blocks, the other inodes on disk and the
  -- size of the disk stay.
  pub itrunc-IsTruncated :
      (w : Volume) × (jp : Inode) × (itrunc v ip ≡ some (w, jp)) × IsTruncated v ip w jp
  unfolding itrunc
  itrunc-IsTruncated =
      let (w, jp, ew, h, c) =
        trunc_direct-HasFreed (slot v ip) ndirect 0 ndirect v ip (omega arith)
          (λ k l m. sym (direct_slot k m)) direct-IsOwned in
      let (x, kp, ex, g, table, same, num) =
        trunc_indirect-HasFreed w (ap (λ (y : Volume). y.block) h.rest) (later-IsOwned w h) jp
          (c.others ndirect (omega arith)) in
      (
        _,
        _,
        rw (ew, itrunc) (rw (ex, itrunc) refl),
        HasFreed-IsTruncated x kp (join-HasFreed w x h g) (λ k l. cleared jp kp c table same k l)
            (num ∙ c.inum),
      )
    where
      direct-IsOwned : IsOwned v (slot v ip) 0 ndirect
      direct-IsOwned = record {
        used = λ k l m nz. slots-IsOwned.used k l (omega arith) nz;
        apart = λ k m l lt n nz. slots-IsOwned.apart k m l lt (omega arith) nz;
      }

      cleared :
          (jp kp : Inode)
          → IsCleared ip 0 ndirect jp
          → kp.addrs ndirect ≡ 0
          → ((k : ℕ) → k < ndirect → kp.addrs k ≡ jp.addrs k)
          → (k : ℕ) → k ≤ ndirect
          → kp.addrs k ≡ 0
      cleared jp kp c table same k le = elim (Bool-cases (k == ndirect)) [
        | inl last ↦ ap kp.addrs (ground arith) ∙ table
        | inr direct ↦ same k (ground arith) ∙ c.zeros k (omega arith) (ground arith)
      ]
