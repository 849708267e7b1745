-- ===== src/Pipe/Defs.antt =====
-- The functions of kernel/pipe.c under the pipe's lock. A call runs until it returns or sleeps; what
-- others do in between is a sequence of such calls. The user memory is what `copyin` and `copyout`
-- answer byte by byte, and `killed` answers before each byte.
use csci_315_operating_sytem.Prelude.{
  ℕ, zero, suc, ◌+◌, ◌-◌, ◌%◌, Bool, true, false, ◌&&◌, ◌||◌, not, Option, none, some, List, [],
  ◌∷◌, ◌==◌, if◌then◌else◌, u32, update,
}

abbrev pub pipesize : ℕ
pipesize = 512

-- `struct pipe`.
pub record Pipe : Type 0 where
  pub bytes : ℕ → ℕ
  pub nread : ℕ
  pub nwrite : ℕ
  pub readopen : Bool
  pub writeopen : Bool

-- What `pipealloc` makes of a new page.
abbrev pub new_pipe : Pipe
new_pipe = record { bytes = λ _. 0; nread = 0; nwrite = 0; readopen = true; writeopen = true }

-- The channels `&pi->nread`, on which readers sleep, and `&pi->nwrite`, on which writers do.
pub data Channel : Type 0 where
  readers writers : Channel

-- `pipeclose`: the pipe, who is woken, and whether its page is freed.
pub record Closed : Type 0 where
  pub pipe : Pipe
  pub woken : Channel
  pub freed : Bool

unfoldable pub shut : Pipe → Bool → Pipe × Channel
shut pi writable =
    if writable
    then (record pi { writeopen = false }, readers)
    else (record pi { readopen = false }, writers)

unfoldable pub pipeclose : Pipe → Bool → Closed
unfolding shut
pipeclose pi writable =
    let (p, c) = shut pi writable in
    record { pipe = p; woken = c; freed = not p.readopen && not p.writeopen }

-- How a call ends: with a count, with -1, or asleep after `i` bytes.
pub data Outcome : Type 0 where
  returned : ℕ → Outcome
  failed : Outcome
  asleep : ℕ → Outcome

-- `pi->data[pi->nwrite++ % PIPESIZE] = ch`
unfoldable pub store : Pipe → ℕ → Pipe
store pi ch = record pi {
  bytes = update pi.bytes (pi.nwrite % pipesize) ch;
  nwrite = u32 (pi.nwrite + 1);
}

module _ (copyin : ℕ → Option ℕ) (killed : ℕ → Bool) (addr : ℕ) where
  -- The loop of `pipewrite` with `rounds` = n - i bytes to go.
  unfoldable pub write_loop : (rounds i : ℕ) → Pipe → Outcome × Pipe
  write_loop zero i pi = (returned i, pi)
  write_loop (suc r) i pi =
      if not pi.readopen || killed i
      then (failed, pi)
      else (if pi.nwrite == u32 (pi.nread + pipesize)
          then (asleep i, pi)
          else (elim (copyin (addr + i)) [
            | none ↦ (returned i, pi)
            | some ch ↦ write_loop r (i + 1) (store pi ch)
          ]))

  -- `pipewrite` from byte `i` on: from 0 at the call, from where it slept when it is woken.
  unfoldable pub pipewrite : (n i : ℕ) → Pipe → Outcome × Pipe × List Channel
  pipewrite n i pi =
      let (o, p) = write_loop (n - i) i pi in (o, p, elim o [ failed ↦ [] | _ ↦ readers ∷ [] ])

module _ (copyout : ℕ → Bool) (addr : ℕ) where
  -- The copying loop of `piperead`: the count, and the bytes that reached the user. A byte is taken
  -- from the ring before `copyout` is tried.
  unfoldable pub read_loop : (rounds i : ℕ) → Pipe → ℕ × List ℕ × Pipe
  read_loop zero i pi = (i, [], pi)
  read_loop (suc r) i pi =
      if pi.nread == pi.nwrite then (i, [], pi) else (elim (copyout (addr + i)) [
        | false ↦ (i, [], record pi { nread = u32 (pi.nread + 1) })
        | true ↦
            (let (count, out, p) = read_loop r (i + 1) (record pi { nread = u32 (pi.nread + 1) }) in
              (count, pi.bytes (pi.nread % pipesize) ∷ out, p))
      ])

  -- `piperead`, again from the start when it is woken.
  unfoldable pub piperead : (killed : Bool) (n : ℕ) → Pipe → Outcome × List ℕ × Pipe × List Channel
  piperead killed n pi =
      if (pi.nread == pi.nwrite) && pi.writeopen
      then (if killed then (failed, [], pi, []) else (asleep 0, [], pi, []))
      else (let (count, out, p) = read_loop n 0 pi in (returned count, out, p, writers ∷ []))
