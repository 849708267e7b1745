-- ===== src/FileSystem/Content/Put.antt =====
-- A block of the content with new bytes.
use csci_315_operating_sytem.Prelude.{
  ℕ, ◌*◌, ◌/◌, ◌%◌, ◌<◌, ◌≤◌, ◌≡◌, ◌≢◌, refl, arith, ◌==◌, if◌then◌else◌, inl, inr, Bool-cases,
  update, update_self, update_ne, ap, ◌∙◌, sym,
}
use csci_315_operating_sytem.FileSystem.Volume.{bsize, ndirect, maxfile, Volume, is_used}
use csci_315_operating_sytem.FileSystem.Content.{Inode}
use csci_315_operating_sytem.FileSystem.Content.Slots.{slot, byte_at, IsFile}

abbrev pub with_bytes : Volume → Inode → ℕ → (ℕ → ℕ) → Volume
with_bytes v ip n bytes = record v { block = update v.block (slot v ip n) bytes }

-- New bytes in block `n` of a file.
module _ (v : Volume) (ip : Inode) (n : ℕ) (bytes : ℕ → ℕ) (f : IsFile v ip) (lt : n < maxfile)
    (there : slot v ip n ≢ 0) where
  abbrev patched : Volume
  patched = with_bytes v ip n bytes

  other_block :
      (k : ℕ)
      → k ≤ maxfile
      → k ≢ n
      → slot v ip k ≢ 0
      → patched.block (slot v ip k) ≡ v.block (slot v ip k)
  other_block k le ne full =
      update_ne v.block (slot v ip n) (slot v ip k) bytes
        (λ e. ne (f.apart k n le (omega arith) full e))

  same_indirect :
      ip.addrs ndirect ≢ 0 → patched.block (ip.addrs ndirect) ≡ v.block (ip.addrs ndirect)
  unfolding slot
  same_indirect ne = other_block maxfile (omega arith) (omega arith) ne

  pub put-slot : (k : ℕ) → slot patched ip k ≡ slot v ip k
  put-slot k = elim (Bool-cases (ip.addrs ndirect == 0)) [
    | inl no_block ↦ unfold slot in (ground arith)
    | inr block ↦ unfold slot in (rw (same_indirect (ground arith)) refl)
  ]

  pub put-IsFile : IsFile patched ip
  unfolding is_used
  put-IsFile = record {
    volume = record { boot = f.volume.boot; uint_blocks = f.volume.uint_blocks };
    marked = λ k le ne. ap (is_used v) (put-slot k) ∙ f.marked k le (λ z. ne (put-slot k ∙ z));
    apart = λ k m lk lm ne e.
        f.apart k m lk lm (λ z. ne (put-slot k ∙ z)) (sym (put-slot k) ∙ e ∙ put-slot m);
  }

  pub put-byte_at :
      (a : ℕ)
      → a < maxfile * bsize
      → byte_at patched ip a ≡ (if a / bsize == n then bytes (a % bsize) else byte_at v ip a)
  unfolding byte_at
  put-byte_at a la = elim (Bool-cases (a / bsize == n)) [
    | inl here ↦
        (let e : a / bsize ≡ n = ground arith in
          ground (
            arith,
            ap (slot patched ip) e ∙ put-slot n,
            there,
            ap (λ (d : ℕ → ℕ). d (a % bsize)) (update_self v.block (slot v ip n) bytes),
          ))
    | inr elsewhere ↦ elim (Bool-cases (slot v ip (a / bsize) == 0)) [
      | inl hole ↦ ground (arith, put-slot (a / bsize))
      | inr full ↦ ground (
        arith,
        put-slot (a / bsize),
        ap (λ (d : ℕ → ℕ). d (a % bsize))
            (other_block (a / bsize) (omega arith) (ground arith) (ground arith)),
      )
    ]
  ]
