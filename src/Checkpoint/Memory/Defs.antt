-- ===== src/Checkpoint/Memory/Defs.antt =====
-- `checkpoint_addr_space` and `restore_addr_space` (kernel/vm.c), over a file that `readi` and `writei`
-- act on.
use csci_315_operating_sytem.Prelude.{
  ℕ, zero, suc, ◌+◌, ◌-◌, ◌/◌, ◌^◌, ◌<◌, ◌≤◌, ◌≡◌, Bool, true, false, Option, none, some, ◌==◌, ltb,
  if◌then◌else◌, u32, update,
}
use csci_315_operating_sytem.Proc.Defs.{pgsize}

-- The file calls on an inode: a count of bytes, with the file or the content.
pub record FileOps (F : Type 0) : Type 0 where
  pub size : F → ℕ
  pub byte : F → ℕ → ℕ
  pub readi : F → (off n : ℕ) → ℕ × (ℕ → ℕ)
  pub writei : F → (off n : ℕ) → (ℕ → ℕ) → ℕ × F

-- What a whole `writei` leaves; `IsGood` is the invariant of a file.
pub record HasWritten {F : Type 0} (fs : FileOps F) (IsGood : F → Type 0) (f : F) (off n : ℕ)
    (content : ℕ → ℕ) (g : F) : Type 0 where
  pub good : IsGood g
  pub longer : fs.size f ≤ fs.size g
  pub reaches : off + n ≤ fs.size g
  pub stored : (k : ℕ) → k < n → fs.byte g (off + k) ≡ content k
  pub before : (a : ℕ) → a < off → fs.byte g a ≡ fs.byte f a

-- What the code relies on: whole writes are in the file, reads within the file are whole, and an
-- offset in a file is a `uint`.
pub record IsFileOps {F : Type 0} (fs : FileOps F) (IsGood : F → Type 0) : Type 0 where
  pub small : (f : F) → IsGood f → fs.size f < 2 ^ 32
  pub writes :
      (f : F) (off n : ℕ) (content : ℕ → ℕ)
      → IsGood f
      → 0 < n
      → n < 2 ^ 32
      → (fs.writei f off n content).0 ≡ n
      → HasWritten fs IsGood f off n content (fs.writei f off n content).1
  pub reads :
      (f : F) (off n : ℕ)
      → IsGood f
      → off + n ≤ fs.size f
      → ((fs.readi f off n).0 ≡ n)
        × ((k : ℕ) → k < n → (fs.readi f off n).1 k ≡ fs.byte f (off + k))

-- A page's bytes, and the user pages by number: `none` where `walk` finds no valid entry.
abbrev pub Page : Type 0
Page = ℕ → ℕ

abbrev pub Pages : Type 0
Pages = ℕ → Option Page

-- The rounds of `for(i = 0; i < sz; i += PGSIZE)`.
unfoldable pub page_rounds : ℕ → ℕ
page_rounds sz = (sz + (pgsize - 1)) / pgsize

-- A round's result: whether the loop goes on, the next offset, and what it has changed.
pub record Progress (A : Type 0) : Type 0 where
  pub going : Bool
  pub off : ℕ
  pub state : A

module _ {F : Type 0} (fs : FileOps F) where
  abbrev pub put_page : Page → ℕ → F → Progress F
  put_page page off f =
      let (w, g) = fs.writei f off pgsize page in
      record { going = w == pgsize; off = u32 (off + pgsize); state = g }

  unfoldable pub save_page : Option Page → ℕ → F → Progress F
  save_page none off f =
      let (w, g) = fs.writei f off 1 (λ _. 0) in
      record { going = w == 1; off = u32 (off + 1); state = g }
  save_page (some page) off f =
      let (w, g) = fs.writei f off 1 (λ _. 1) in
      elim (w == 1) [
        | false ↦ record { going = false; off = off; state = g }
        | true ↦ put_page page (u32 (off + 1)) g
      ]

  unfoldable pub checkpoint_pages : Pages → (rounds i off : ℕ) → F → Bool × F
  checkpoint_pages pages zero i off f = (true, f)
  checkpoint_pages pages (suc r) i off f =
      let s = save_page (pages i) off f in
      elim s.going [
        | false ↦ (false, s.state)
        | true ↦ checkpoint_pages pages r (i + 1) s.off s.state
      ]

  unfoldable pub checkpoint_addr_space : Pages → (sz : ℕ) → F → (off : ℕ) → Bool × F
  checkpoint_addr_space pages sz f off = checkpoint_pages pages (page_rounds sz) 0 off f

  -- `readi` to the page itself, which keeps what a short read does not reach.
  abbrev pub get_page : F → ℕ → Page → Progress (Option Page)
  get_page f off old =
      let (r, content) = fs.readi f off pgsize in
      record {
        going = r == pgsize;
        off = u32 (off + pgsize);
        state = some (λ k. if ltb k r then content k else old k);
      }

  unfoldable pub load_page : F → ℕ → Option Page → Progress (Option Page)
  load_page f off none = record { going = false; off = off; state = none }
  load_page f off (some old) =
      let (r, content) = fs.readi f off 1 in
      elim (r == 1) [
        | false ↦ record { going = false; off = off; state = some old }
        | true ↦ elim (content 0 == 0) [
          | true ↦ record { going = true; off = u32 (off + 1); state = some (λ _. 0) }
          | false ↦ get_page f (u32 (off + 1)) old
        ]
      ]

  unfoldable pub restore_pages : F → (rounds i off : ℕ) → Pages → Bool × Pages
  restore_pages f zero i off pages = (true, pages)
  restore_pages f (suc r) i off pages =
      let s = load_page f off (pages i) in
      elim s.going [
        | false ↦ (false, update pages i s.state)
        | true ↦ restore_pages f r (i + 1) s.off (update pages i s.state)
      ]

  unfoldable pub restore_addr_space : Pages → (sz : ℕ) → F → (off : ℕ) → Bool × Pages
  restore_addr_space pages sz f off = restore_pages f (page_rounds sz) 0 off pages
