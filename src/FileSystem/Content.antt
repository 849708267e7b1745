-- ===== src/FileSystem/Content.antt =====
-- kernel/fs.c: the content of an inode (bmap, itrunc, readi, writei, iupdate).
pub mod Slots
pub mod Grow
pub mod Map
pub mod Pieces
pub mod Read
pub mod Put
pub mod Round
pub mod Write
pub mod File
pub mod Freed
pub mod Trunc
use csci_315_operating_sytem.Prelude.{
  ℕ, zero, suc, ◌+◌, ◌-◌, ◌*◌, ◌/◌, ◌%◌, ◌^◌, Bool, true, false, ◌&&◌, ◌||◌, not, Option, none,
  some, ◌==◌, ltb, leb, if◌then◌else◌, u32, update,
}
use csci_315_operating_sytem.FileSystem.Words.{get_word, put_word}
use csci_315_operating_sytem.FileSystem.Volume.{
  bsize, ndirect, nindirect, maxfile, Dinode, Volume, balloc, bfree,
}

-- `struct inode`, locked and read from disk.
pub record Inode : Type 0 where
  pub inum : ℕ
  pub type : ℕ
  pub major : ℕ
  pub minor : ℕ
  pub nlink : ℕ
  pub size : ℕ
  pub addrs : ℕ → ℕ

-- `bmap`: the address, 0 if there is no space.
pub record Mapped : Type 0 where
  pub addr : ℕ
  pub vol : Volume
  pub ip : Inode

unfoldable pub bmap_direct : Volume → Inode → ℕ → Mapped
bmap_direct v ip bn =
    if ip.addrs bn == 0
    then (let (a, w) = balloc v in
        if a == 0
        then record { addr = 0; vol = w; ip = ip }
        else record { addr = a; vol = w; ip = record ip { addrs = update ip.addrs bn a } })
    else record { addr = ip.addrs bn; vol = v; ip = ip }

-- The entry `bn` of the indirect block at `addr`.
unfoldable pub bmap_entry : Volume → Inode → (addr bn : ℕ) → Mapped
bmap_entry v ip addr bn =
    if get_word (v.block addr) bn == 0
    then (let (a, w) = balloc v in
        if a == 0 then record { addr = 0; vol = w; ip = ip } else record {
          addr = a;
          vol = record w { block = update w.block addr (put_word (w.block addr) bn a) };
          ip = ip;
        })
    else record { addr = get_word (v.block addr) bn; vol = v; ip = ip }

unfoldable pub bmap_indirect : Volume → Inode → ℕ → Mapped
unfolding bmap_direct bmap_entry
bmap_indirect v ip bn =
    let m = bmap_direct v ip ndirect in if m.addr == 0 then m else bmap_entry m.vol m.ip m.addr bn

-- `none` is the panic.
unfoldable pub bmap : Volume → Inode → ℕ → Option Mapped
bmap v ip bn =
    if ltb bn ndirect
    then some (bmap_direct v ip bn)
    else (if ltb (bn - ndirect) nindirect then some (bmap_indirect v ip (bn - ndirect)) else none)

unfoldable pub iupdate : Volume → Inode → Volume
iupdate v ip = record v {
  dinodes = update v.dinodes ip.inum (record {
    type = ip.type;
    major = ip.major;
    minor = ip.minor;
    nlink = ip.nlink;
    size = ip.size;
    addrs = ip.addrs;
  });
}

-- `for(i = 0; i < NDIRECT; i++) if(ip->addrs[i])`; `none` is the panic of `bfree`.
unfoldable pub trunc_direct : (rounds i : ℕ) → Volume → Inode → Option (Volume × Inode)
trunc_direct zero i v ip = some (v, ip)
trunc_direct (suc r) i v ip = elim (ip.addrs i == 0) [
  | true ↦ trunc_direct r (i + 1) v ip
  | false ↦ elim (bfree (ip.addrs i) v) [
    | none ↦ none
    | some w ↦ trunc_direct r (i + 1) w (record ip { addrs = update ip.addrs i 0 })
  ]
]

unfoldable pub trunc_entries : (ℕ → ℕ) → (rounds j : ℕ) → Volume → Option Volume
trunc_entries a zero j v = some v
trunc_entries a (suc r) j v = elim (get_word a j == 0) [
  | true ↦ trunc_entries a r (j + 1) v
  | false ↦ elim (bfree (get_word a j) v) [ none ↦ none | some w ↦ trunc_entries a r (j + 1) w ]
]

unfoldable pub trunc_indirect : Volume → Inode → Option (Volume × Inode)
trunc_indirect v ip = elim (ip.addrs ndirect == 0) [
  | true ↦ some (v, ip)
  | false ↦ elim (trunc_entries (v.block (ip.addrs ndirect)) nindirect 0 v) [
    | none ↦ none
    | some w ↦ elim (bfree (ip.addrs ndirect) w) [
      | none ↦ none
      | some x ↦ some (x, record ip { addrs = update ip.addrs ndirect 0 })
    ]
  ]
]

unfoldable pub itrunc : Volume → Inode → Option (Volume × Inode)
itrunc v ip = elim (trunc_direct ndirect 0 v ip) [
  | none ↦ none
  | some (w, jp) ↦ elim (trunc_indirect w jp) [
    | none ↦ none
    | some (x, kp) ↦ (let lp = record kp { size = 0 } in some (iupdate x lp, lp))
  ]
]

-- The bytes that a round of `readi` or `writei` moves.
unfoldable pub piece : (n tot off : ℕ) → ℕ
piece n tot off = if ltb (n - tot) (bsize - off % bsize) then n - tot else bsize - off % bsize

-- What a loop of `readi` or `writei` ends with: `tot`, or -1 for `none`.
pub record Moved : Type 0 where
  pub count : Option ℕ
  pub vol : Volume
  pub ip : Inode
  pub off : ℕ
  pub got : ℕ → ℕ

-- `copyout k m` says whether `either_copyout` can store the `m` bytes from `dst + k` on, which stand in
-- `got`. A round moves a byte at least, so `fuel` is at most `n - tot`. A panic of `bmap` is `none`.
unfoldable pub read_loop :
    (copyout : ℕ → ℕ → Bool) → (n fuel tot off : ℕ) → (ℕ → ℕ) → Volume → Inode → Option Moved
unfolding piece
read_loop copyout n zero tot off got v ip =
    some (record { count = some tot; vol = v; ip = ip; off = off; got = got })
read_loop copyout n (suc f) tot off got v ip = elim (ltb tot n) [
  | false ↦ some (record { count = some tot; vol = v; ip = ip; off = off; got = got })
  | true ↦ elim (bmap v ip (off / bsize)) [
    | none ↦ none
    | some m ↦ elim (m.addr == 0) [
      | true ↦ some (record { count = some tot; vol = m.vol; ip = m.ip; off = off; got = got })
      | false ↦ elim (copyout tot (piece n tot off)) [
        | false ↦ some (record { count = none; vol = m.vol; ip = m.ip; off = off; got = got })
        | true ↦
            read_loop copyout n f (tot + piece n tot off) (off + piece n tot off)
              (λ k.
                if leb tot k && ltb k (tot + piece n tot off)
                then m.vol.block m.addr (off % bsize + (k - tot))
                else got k)
              m.vol m.ip
      ]
    ]
  ]
]

unfoldable pub readi : (copyout : ℕ → ℕ → Bool) → Volume → Inode → (off n : ℕ) → Option Moved
readi copyout v ip off n =
    if ltb ip.size off || ltb (u32 (off + n)) off
    then some (record { count = some 0; vol = v; ip = ip; off = off; got = λ _. 0 })
    else (let m = (if ltb ip.size (u32 (off + n)) then ip.size - off else n) in
        read_loop copyout m m 0 off (λ _. 0) v ip)

-- `copyin k m` says whether `either_copyin` can fetch the `m` bytes from `src + k` on.
unfoldable pub write_loop :
    (copyin : ℕ → ℕ → Bool) → (src : ℕ → ℕ) → (n fuel tot off : ℕ) → Volume → Inode → Option Moved
unfolding piece
write_loop copyin src n zero tot off v ip =
    some (record { count = some tot; vol = v; ip = ip; off = off; got = src })
write_loop copyin src n (suc f) tot off v ip = elim (ltb tot n) [
  | false ↦ some (record { count = some tot; vol = v; ip = ip; off = off; got = src })
  | true ↦ elim (bmap v ip (off / bsize)) [
    | none ↦ none
    | some m ↦ elim (m.addr == 0) [
      | true ↦ some (record { count = some tot; vol = m.vol; ip = m.ip; off = off; got = src })
      | false ↦ elim (copyin tot (piece n tot off)) [
        | false ↦ some (record { count = some tot; vol = m.vol; ip = m.ip; off = off; got = src })
        | true ↦
            write_loop copyin src n f (tot + piece n tot off) (off + piece n tot off)
              (record m.vol {
                block = update m.vol.block m.addr (λ a.
                    if leb (off % bsize) a && ltb a (off % bsize + piece n tot off)
                    then src (tot + (a - off % bsize))
                    else m.vol.block m.addr a);
              })
              m.ip
      ]
    ]
  ]
]

-- From the loop's end on: the size, and the inode on disk.
unfoldable pub write_size : Moved → Moved
unfolding iupdate
write_size m =
    let ip = (if ltb m.ip.size m.off then record m.ip { size = m.off } else m.ip) in
    record m { vol = iupdate m.vol ip; ip = ip }

unfoldable pub writei :
    (copyin : ℕ → ℕ → Bool) → (src : ℕ → ℕ) → Volume → Inode → (off n : ℕ) → Option Moved
writei copyin src v ip off n =
    if ltb ip.size off || ltb (u32 (off + n)) off
    then some (record { count = none; vol = v; ip = ip; off = off; got = src })
    else (if ltb (maxfile * bsize) (u32 (off + n))
        then some (record { count = none; vol = v; ip = ip; off = off; got = src })
        else elim (write_loop copyin src n n 0 off v ip) [
          | none ↦ none
          | some m ↦ some (write_size m)
        ])
