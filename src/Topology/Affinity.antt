-- ===== src/Topology/Affinity.antt =====
-- src/archTopology.c: the core that a process runs on.
pub mod Pinning
use numafac.Config.{max_cpus}
use numafac.Prelude.{
  ℕ, zero, suc, ◌+◌, Bool, false, ◌&&◌, Option, none, some, ltb, ◌==◌, if◌then◌else◌, ℤ, pos,
  negsuc, indeterminate, Run, ok, fault,
}

-- `cpu_set_t`, of 1024 bits.
abbrev pub Mask : Type 0
Mask = ℕ → Bool

-- CPU_ZERO(&mask); CPU_SET(core, &mask); a core outside of the mask sets nothing.
unfoldable pub cpu_set : ℤ → Mask
cpu_set (pos core) i = i == core && ltb core 1024
cpu_set (negsuc n) i = false

-- The system calls of the scheduler, over a state of the kernel; none is the result -1.
pub record Kernel : Type 1 where
  pub State : Type 0
  pub sched_setaffinity : State → ℤ → Mask → Option State
  pub sched_getaffinity : State → ℤ → Option Mask

-- for (i = 0; i < num_cpus; i++) if (CPU_ISSET(i, &mask)) return i; and no `return` behind it.
unfoldable pub first_set : ℕ → ℕ → Mask → Run ℤ
first_set zero i mask = fault indeterminate
first_set (suc n) i mask =
    let next = first_set n (i + 1) mask in if mask i then ok (pos i) else next

-- What `sched_getaffinity` returned decides: an error is -1.
unfoldable pub core_of : Option Mask → Run ℤ
core_of none = ok (negsuc 0)
core_of (some mask) = first_set max_cpus 0 mask

module _ (k : Kernel) where
  open k use {State, sched_setaffinity, sched_getaffinity}

  -- The new state and the result.
  unfoldable pub set_result : State → Option State → State × ℤ
  set_result s none = (s, negsuc 0)
  set_result s (some s') = (s', pos 0)

  unfoldable pub na_set_core : State → ℤ → ℤ → State × ℤ
  na_set_core s id core = set_result s (sched_setaffinity s id (cpu_set core))

  unfoldable pub na_get_core : State → ℤ → Run ℤ
  na_get_core s id = core_of (sched_getaffinity s id)
