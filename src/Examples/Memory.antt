-- ===== src/Examples/Memory.antt =====
-- A process of two pages, of which the second is not mapped, in a file that is kept as bytes.
use csci_315_operating_sytem.Prelude.{
  ℕ, ◌+◌, ◌-◌, ◌^◌, ◌<◌, ◌≤◌, ◌≡◌, refl, ◌⊎◌, arith, Bool, true, false, ◌&&◌, none, some, ◌==◌, ltb,
  leb, if◌then◌else◌, inl, inr,
}
use csci_315_operating_sytem.Checkpoint.Memory.Defs.{
  FileOps, HasWritten, IsFileOps, Pages, page_rounds, checkpoint_addr_space, restore_addr_space,
  checkpoint_pages, save_page,
}
use csci_315_operating_sytem.Checkpoint.Memory.RoundTrip.{Loaded, restore_addr_space-Loaded}

abbrev decided : (b : Bool) → (b ≡ true) ⊎ (b ≡ false)
decided true = inl refl
decided false = inr refl

record ByteFile : Type 0 where
  size : ℕ
  small : size < 2 ^ 32
  byte : ℕ → ℕ

abbrev stored : ByteFile → (off n : ℕ) → (ℕ → ℕ) → off + n ≤ 100000 → ByteFile
stored f off n content fits = record {
  size = if ltb f.size (off + n) then off + n else f.size;
  small = ground (arith, f.small);
  byte = λ a. if leb off a && ltb a (off + n) then content (a - off) else f.byte a;
}

abbrev write_case :
    (f : ByteFile) (off n : ℕ)
    → (ℕ → ℕ)
    → (leb (off + n) 100000 ≡ true) ⊎ (leb (off + n) 100000 ≡ false)
    → ℕ × ByteFile
write_case f off n content (inl fits) = (n, stored f off n content (ground arith))
write_case f off n content (inr full) = (0, f)

abbrev byte_files : FileOps ByteFile
byte_files = record {
  size = λ f. f.size;
  byte = λ f. f.byte;
  readi = λ f off n. if leb (off + n) f.size then (n, λ k. f.byte (off + k)) else (0, λ k. 0);
  writei = λ f off n content. write_case f off n content (decided (leb (off + n) 100000));
}

stored-HasWritten :
    (f : ByteFile) (off n : ℕ) (content : ℕ → ℕ) (fits : off + n ≤ 100000)
    → HasWritten byte_files (λ _. Unit {0}) f off n content (stored f off n content fits)
stored-HasWritten f off n content fits = record {
  good = tt;
  longer = ground arith;
  reaches = ground arith;
  stored = λ k lt. here k (off + k) refl lt;
  before = λ a lt. ground arith;
}
  where
    back : (k a : ℕ) → a ≡ off + k → a - off ≡ k
    back k a e = omega arith

    here :
        (k a : ℕ)
        → a ≡ off + k
        → k < n
        → (if leb off a && ltb a (off + n) then content (a - off) else f.byte a) ≡ content k
    here k a e lt = ground (arith, back k a e)

write_case-HasWritten :
    (f : ByteFile) (off n : ℕ) (content : ℕ → ℕ)
    (c : (leb (off + n) 100000 ≡ true) ⊎ (leb (off + n) 100000 ≡ false))
    → 0 < n
    → (write_case f off n content c).0 ≡ n
    → HasWritten byte_files (λ _. Unit {0}) f off n content (write_case f off n content c).1
write_case-HasWritten f off n content (inl fits) some_bytes whole =
    stored-HasWritten f off n content (ground arith)
write_case-HasWritten f off n content (inr full) some_bytes whole = absurd (omega arith)

byte_files-IsFileOps : IsFileOps byte_files (λ _. Unit {0})
byte_files-IsFileOps = record {
  small = λ f good. f.small;
  writes = λ f off n content good some_bytes uint whole.
      write_case-HasWritten f off n content (decided (leb (off + n) 100000)) some_bytes whole;
  reads = λ f off n good fits.
      (let e : leb (off + n) f.size ≡ true = ground arith in rw e (refl, λ k lt. refl));
}

abbrev empty_file : ByteFile
empty_file = record { size = 0; small = omega arith; byte = λ _. 0 }

abbrev two_pages : Pages
two_pages i = if i == 0 then some (λ k. k + 1) else none

abbrev mapped_pages : Pages
mapped_pages i = some (λ _. 5)

checkpoint-two_pages : (checkpoint_addr_space byte_files two_pages 8000 empty_file 60).0 ≡ true
unfolding checkpoint_addr_space checkpoint_pages page_rounds save_page
checkpoint-two_pages = refl

restore_addr_space_example :
    (new : Pages) × (restore_addr_space byte_files mapped_pages 8000
        (checkpoint_addr_space byte_files two_pages 8000 empty_file 60).1
        60
      ≡ (true, new))
    × Loaded byte_files
        (λ _. Unit {0})
        byte_files-IsFileOps
        two_pages
        mapped_pages
        new
        (page_rounds 8000)
        0
restore_addr_space_example =
    restore_addr_space-Loaded byte_files (λ _. Unit {0}) byte_files-IsFileOps two_pages mapped_pages
      8000 60 empty_file tt checkpoint-two_pages (λ j lt. (_, refl))
