-- ===== src/Proc/Defs.antt =====
-- `struct proc`, the process table with its locks, and the monad of kernel code that may panic.
-- The state of the other parts of the kernel is the world `W`, which `Services` acts on.
use csci_315_operating_sytem.Prelude.{
  ℕ, ◌+◌, ◌-◌, Bool, true, false, Option, List, ltb, if◌then◌else◌, update,
}

abbrev pub nproc : ℕ
nproc = 64

abbrev pub nofile : ℕ
nofile = 16

abbrev pub pgsize : ℕ
pgsize = 4096

-- `enum procstate`.
pub data ProcState : Type 0 where
  unused used sleeping runnable running zombie : ProcState

-- Equality of process states, as a test.
abbrev pub is_unused : ProcState → Bool
is_unused unused = true
is_unused _ = false

abbrev pub is_sleeping : ProcState → Bool
is_sleeping sleeping = true
is_sleeping _ = false

abbrev pub is_runnable : ProcState → Bool
is_runnable runnable = true
is_runnable _ = false

abbrev pub is_running : ProcState → Bool
is_running running = true
is_running _ = false

abbrev pub is_zombie : ProcState → Bool
is_zombie zombie = true
is_zombie _ = false

-- `struct proc`. A pointer is an address, 0 for null; a pointer into the table is an index.
pub record Proc : Type 0 where
  pub lock : Bool
  pub state : ProcState
  pub chan : ℕ
  pub killed : Bool
  pub xstate : ℕ
  pub pid : ℕ
  pub parent : Option ℕ
  pub kstack : ℕ
  pub sz : ℕ
  pub pagetable : ℕ
  pub trapframe : ℕ
  pub context_ra : ℕ
  pub context_sp : ℕ
  pub ofile : ℕ → ℕ
  pub cwd : ℕ
  pub name : List ℕ

-- The table and the globals of proc.c. A lock is `true` while the running code holds it.
pub record Kernel (W : Type 0) : Type 0 where
  pub proc : ℕ → Proc
  pub nextpid : ℕ
  pub pid_lock : Bool
  pub wait_lock : Bool
  pub noff : ℕ
  pub initproc : Option ℕ
  pub world : W

pub data Run (W : Type 0) (A : Type 0) : Type 0 where
  ok : A → Kernel W → Run W A
  panic : Run W A

abbrev pub M : Type 0 → Type 0 → Type 0
M W A = Kernel W → Run W A

module _ {W : Type 0} where
  abbrev pub pure : {A : Type 0} → A → M W A
  pure a k = ok a k

  abbrev pub and_then : {A B : Type 0} → Run W A → (A → M W B) → Run W B
  and_then (ok a k) f = f a k
  and_then panic f = panic

  infixl 5 ◌>>=◌ ◌>>◌
  abbrev pub ◌>>=◌ : {A B : Type 0} → M W A → (A → M W B) → M W B
  ◌>>=◌ m f k = and_then (m k) f

  abbrev pub ◌>>◌ : {B : Type 0} → M W (Unit {0}) → M W B → M W B
  ◌>>◌ m n k = and_then (m k) (λ _. n)

  abbrev pub fails : {A : Type 0} → M W A
  fails k = panic

  -- `proc[i]`.
  unfoldable pub get : ℕ → M W Proc
  get i k = ok (k.proc i) k

  unfoldable pub put : ℕ → Proc → M W (Unit {0})
  put i p k = ok tt (record k { proc = update k.proc i p })

  -- A change of the world by a call into another part of the kernel.
  unfoldable pub call : {A : Type 0} → (W → A × W) → M W A
  call f k = let (a, w) = f k.world in ok a (record k { world = w })

  unfoldable pub run : (W → W) → M W (Unit {0})
  run f k = ok tt (record k { world = f k.world })

  -- `push_off` and `pop_off` around the locks that are held.
  unfoldable pub push_off : Kernel W → Kernel W
  push_off k = record k { noff = k.noff + 1 }

  unfoldable pub pop_off : M W (Unit {0})
  pop_off k = if ltb k.noff 1 then panic else ok tt (record k { noff = k.noff - 1 })

  -- `acquire(&p->lock)`: no other CPU runs, so the lock is free unless this code holds it.
  unfoldable pub acquire : ℕ → M W (Unit {0})
  unfolding push_off
  acquire i k =
      if (k.proc i).lock
      then panic
      else ok tt
          (push_off (record k { proc = update k.proc i (record (k.proc i) { lock = true }) }))

  unfoldable pub release : ℕ → M W (Unit {0})
  unfolding pop_off
  release i k =
      if (k.proc i).lock
      then pop_off (record k { proc = update k.proc i (record (k.proc i) { lock = false }) })
      else panic

  unfoldable pub acquire_wait_lock : M W (Unit {0})
  unfolding push_off
  acquire_wait_lock k =
      if k.wait_lock then panic else ok tt (push_off (record k { wait_lock = true }))

  unfoldable pub release_wait_lock : M W (Unit {0})
  unfolding pop_off
  release_wait_lock k = if k.wait_lock then pop_off (record k { wait_lock = false }) else panic

  -- Between `acquire(&pid_lock)` and its release no call is made. `nextpid` is taken not to overflow.
  unfoldable pub allocpid : M W ℕ
  allocpid k = if k.pid_lock then panic else ok k.nextpid (record k { nextpid = k.nextpid + 1 })
