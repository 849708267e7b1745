-- ===== src/Proc/Services.antt =====
-- What proc.c calls in the rest of the kernel: kalloc.c, vm.c, file.c, fs.c and log.c.
use csci_315_operating_sytem.Prelude.{ℕ, Bool}

-- A call takes the world and returns it with its result. A pointer is an address, 0 for null; a
-- result of 0 or -1 is a Bool, `true` for success.
pub record Services (W : Type 0) : Type 0 where
  pub kalloc : W → ℕ × W
  pub kfree : ℕ → W → W
  pub uvmcreate : W → ℕ × W
  pub mappages : (pagetable va size pa perm : ℕ) → W → Bool × W
  pub uvmunmap : (pagetable va npages do_free : ℕ) → W → W
  pub uvmfree : (pagetable sz : ℕ) → W → W
  pub uvmalloc : (pagetable oldsz newsz perm : ℕ) → W → ℕ × W
  pub uvmdealloc : (pagetable oldsz newsz : ℕ) → W → ℕ × W
  pub uvmcopy : (old new sz : ℕ) → W → Bool × W
  -- `copyout` of an `int`.
  pub copyout_int : (pagetable dst value : ℕ) → W → Bool × W
  -- `*to = *from` on trapframes, and a store to the `a0` of one.
  pub copy_trapframe : (to from : ℕ) → W → W
  pub set_a0 : (trapframe value : ℕ) → W → W
  pub filedup : ℕ → W → W
  pub fileclose : ℕ → W → W
  pub idup : ℕ → W → W
  pub iput : ℕ → W → W
  pub begin_op : W → W
  pub end_op : W → W
  -- Addresses that the linker sets.
  pub trampoline : ℕ
  pub forkret : ℕ
