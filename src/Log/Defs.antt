-- ===== src/Log/Defs.antt =====
-- The state of kernel/log.c and its functions. A disk write may be the one at which power fails.
use csci_315_operating_sytem.Prelude.{
  ℕ, zero, suc, ◌+◌, ◌-◌, ◌*◌, ◌^◌, Bool, true, false, ltb, leb, ◌==◌, if◌then◌else◌, u32, update,
}

-- A block of BSIZE bytes, as 32-bit words.
abbrev pub Block : Type 0
Block = ℕ → ℕ

abbrev pub Disk : Type 0
Disk = ℕ → Block

abbrev pub max_op_blocks : ℕ
max_op_blocks = 10

abbrev pub log_blocks : ℕ
log_blocks = max_op_blocks * 3

-- `struct logheader`.
pub record LogHeader : Type 0 where
  pub n : ℕ
  pub block : ℕ → ℕ

-- `struct log`, with the disk, the buffers and the pins that it works on.
pub record Log : Type 0 where
  pub start : ℕ
  pub outstanding : ℕ
  pub committing : Bool
  pub lh : LogHeader
  pub disk : Disk
  pub buf : Disk
  pub pins : ℕ → ℕ
  pub power : ℕ

-- A call returns, panics, or is cut off by a power failure that leaves a disk behind.
pub data Run : Type 0 where
  done : Log → Run
  panic : Run
  crash : Disk → Run

infixl 5 ◌>>◌
abbrev pub ◌>>◌ : Run → (Log → Run) → Run
done s >> k = k s
panic >> k = panic
crash d >> k = crash d

-- bio.c: write a buffer's contents to disk.
unfoldable pub bwrite : ℕ → Log → Run
bwrite b s =
    if s.power == 0
    then crash s.disk
    else done (record s { disk = update s.disk b (s.buf b); power = s.power - 1 })

unfoldable pub bpin : ℕ → Log → Log
bpin b s = record s { pins = update s.pins b (u32 (s.pins b + 1)) }

unfoldable pub bunpin : ℕ → Log → Log
bunpin b s = record s { pins = update s.pins b (u32 (s.pins b + 2 ^ 32 - 1)) }

-- `memmove(to->data, from->data, BSIZE)` between two buffers.
unfoldable pub copy_block : ℕ → ℕ → Log → Log
copy_block to from s = record s { buf = update s.buf to (s.buf from) }

-- One round of `install_trans`.
unfoldable pub install_block : Bool → ℕ → Log → Run
unfolding bwrite bunpin copy_block
install_block recovering tail s =
    bwrite (s.lh.block tail) (copy_block (s.lh.block tail) (s.start + tail + 1) s) >> λ t.
    done (if recovering then t else bunpin (t.lh.block tail) t)

-- `rounds` is `log.lh.n - tail`.
unfoldable pub install_loop : Bool → (rounds tail : ℕ) → Log → Run
install_loop recovering zero tail s = done s
install_loop recovering (suc k) tail s =
    install_block recovering tail s >> λ t. install_loop recovering k (tail + 1) t

unfoldable pub install_trans : Bool → Log → Run
install_trans recovering s = install_loop recovering s.lh.n 0 s

unfoldable pub read_blocks : Block → (rounds i : ℕ) → (ℕ → ℕ) → ℕ → ℕ
read_blocks w zero i block = block
read_blocks w (suc k) i block = read_blocks w k (i + 1) (update block i (w (i + 1)))

unfoldable pub read_head : Log → Log
read_head s = record s {
  lh = record {
    n = s.buf s.start 0;
    block = read_blocks (s.buf s.start) (s.buf s.start 0) 0 s.lh.block;
  };
}

unfoldable pub head_words : (ℕ → ℕ) → (rounds i : ℕ) → Block → Block
head_words block zero i w = w
head_words block (suc k) i w = head_words block k (i + 1) (update w (i + 1) (block i))

unfoldable pub write_head : Log → Run
write_head s = bwrite s.start (record s {
  buf = update s.buf s.start (head_words s.lh.block s.lh.n 0 (update (s.buf s.start) 0 s.lh.n));
})

unfoldable pub clear_count : Log → Log
clear_count s = record s { lh = record { n = 0; block = s.lh.block } }

unfoldable pub recover_from_log : Log → Run
recover_from_log s = install_trans true (read_head s) >> λ t. write_head (clear_count t)

-- After a reboot every buffer is read afresh, and `struct log` is zero but for `initlog`.
unfoldable pub initlog : ℕ → Disk → ℕ → Run
initlog start d power = recover_from_log (record {
  start = start;
  outstanding = 0;
  committing = false;
  lh = record { n = 0; block = λ _. 0 };
  disk = d;
  buf = d;
  pins = λ _. 0;
  power = power;
})

unfoldable pub write_log_block : ℕ → Log → Run
write_log_block tail s =
    bwrite (s.start + tail + 1) (copy_block (s.start + tail + 1) (s.lh.block tail) s)

unfoldable pub write_log_loop : (rounds tail : ℕ) → Log → Run
write_log_loop zero tail s = done s
write_log_loop (suc k) tail s = write_log_block tail s >> λ t. write_log_loop k (tail + 1) t

unfoldable pub write_log : Log → Run
write_log s = write_log_loop s.lh.n 0 s

unfoldable pub commit : Log → Run
commit s =
    if ltb 0 s.lh.n
    then (write_log s >> λ a.
        write_head a >> λ b. install_trans false b >> λ c. write_head (clear_count c))
    else done s

-- A pass of the loop in `begin_op`: it goes to sleep, or enters.
pub data Entry : Type 0 where
  sleeps : Entry
  enters : Log → Entry

unfoldable pub begin_op : Log → Entry
begin_op s =
    if s.committing
    then sleeps
    else (if ltb log_blocks (s.lh.n + (s.outstanding + 1) * max_op_blocks)
        then sleeps
        else enters (record s { outstanding = s.outstanding + 1 }))

-- `log.outstanding` counts calls of `begin_op` that have not ended, so it does not go below 0.
-- `wakeup(&log)` changes nothing here: a sleeper calls `begin_op` again whenever it likes.
unfoldable pub end_op : Log → Run
end_op s =
    if s.committing
    then panic
    else (if s.outstanding == 1
        then (commit (record s { outstanding = 0; committing = true }) >> λ t.
            done (record t { committing = false }))
        else done (record s { outstanding = s.outstanding - 1 }))

-- The index of `b` among the first `rounds` logged blocks from `i` on, or the end.
unfoldable pub find_slot : (ℕ → ℕ) → ℕ → (rounds i : ℕ) → ℕ
find_slot block b zero i = i
find_slot block b (suc k) i =
    let later = find_slot block b k (i + 1) in if block i == b then i else later

unfoldable pub log_at : ℕ → ℕ → Log → Run
log_at b i s =
    let t = record s { lh = record { n = s.lh.n; block = update s.lh.block i b } } in
    if i == s.lh.n
    then done (bpin b (record t { lh = record { n = t.lh.n + 1; block = t.lh.block } }))
    else done t

unfoldable pub log_write : ℕ → Log → Run
unfolding log_at
log_write b s =
    if leb log_blocks s.lh.n
    then panic
    else (if ltb s.outstanding 1 then panic else log_at b (find_slot s.lh.block b s.lh.n 0) s)
