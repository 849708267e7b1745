-- ===== src/FileSystem/Content/Map.antt =====
-- `bmap` of any block of a file.
use csci_315_operating_sytem.Prelude.{
  ℕ, ◌+◌, ◌-◌, ◌<◌, ◌≤◌, ◌≡◌, refl, arith, true, false, some, ◌==◌, ltb, inl, inr, Bool-cases, ◌∙◌,
  sym, subst,
}
use csci_315_operating_sytem.FileSystem.Volume.{ndirect, nindirect, maxfile, Volume}
use csci_315_operating_sytem.FileSystem.Content.{
  Inode, Mapped, bmap_direct, bmap_entry, bmap_indirect, bmap,
}
use csci_315_operating_sytem.FileSystem.Content.Slots.{slot, IsFile, Extends-trans}
use csci_315_operating_sytem.FileSystem.Content.Grow.{Maps, direct-Maps, entry-Maps}

indirect-Maps :
    (v : Volume) (ip : Inode) (j : ℕ)
    → j < nindirect
    → IsFile v ip
    → Maps v ip (ndirect + j) (bmap_indirect v ip j)
unfolding bmap_indirect
indirect-Maps v ip j lt f = elim (Bool-cases (m.addr == 0)) [
  | inl none_left ↦
      rw (none_left, bmap_indirect)
        (record { extends = block.extends; address = missing none_left; full = block.full })
  | inr there ↦
      rw (there, bmap_indirect)
        (subst (λ a. Maps v ip (ndirect + j) (bmap_entry m.vol m.ip a j)) (sym at)
          (let e = entry-Maps m.vol m.ip j lt (ground (arith, at)) block.extends.file in
            record {
              extends = Extends-trans v m.vol _ ip m.ip _ block.extends e.extends;
              address = e.address;
              full = e.full;
            }))
]
  where
    m : Mapped
    m = bmap_direct v ip ndirect

    block : Maps v ip maxfile m
    block = direct-Maps v ip ndirect (omega arith) f

    at : m.addr ≡ m.ip.addrs ndirect
    at = block.address ∙ unfold slot in (refl)

    missing : (m.addr == 0) ≡ true → m.addr ≡ slot m.vol m.ip (ndirect + j)
    missing e = unfold slot in (ground (arith, at))

-- `bmap` of a block below MAXFILE does not panic. The file has the bytes that it had before, keeps the
-- blocks that it had, and the address is that of the block, or 0 if every block of the
-- disk is in use.
pub bmap-Maps :
    (v : Volume) (ip : Inode) (n : ℕ)
    → n < maxfile
    → IsFile v ip
    → (m : Mapped) × (bmap v ip n ≡ some m) × Maps v ip n m
unfolding bmap
bmap-Maps v ip n lt f = elim (Bool-cases (ltb n ndirect)) [
  | inl direct ↦ (
    bmap_direct v ip n,
    rw (direct, bmap) refl,
    subst (λ k. Maps v ip k (bmap_direct v ip n)) (ground arith)
        (direct-Maps v ip n (ground arith) f),
  )
  | inr indirect ↦ (
    bmap_indirect v ip (n - ndirect),
    ground arith,
    subst (λ k. Maps v ip k (bmap_indirect v ip (n - ndirect))) (back indirect)
        (indirect-Maps v ip (n - ndirect) (omega arith) f),
  )
]
  where
    back : ltb n ndirect ≡ false → ndirect + (n - ndirect) ≡ n
    back e = omega (arith, at_least n e)
      where
        at_least : (n : ℕ) → ltb n ndirect ≡ false → ndirect ≤ n
        at_least n e = ground arith
