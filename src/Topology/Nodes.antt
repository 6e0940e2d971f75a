-- ===== src/Topology/Nodes.antt =====
-- src/archTopology.c: which node a CPU belongs to, and the table of that, `HashCpuNode`.
pub mod Home
pub mod Hash
use numafac.Config.{is_numa_machine}
use numafac.Libc.{TextBytes, codes, sprintf_i, strcpy, strcat, same_text}
use numafac.Os.{Os}
use numafac.Topology.Counts.{na_get_maxnodes, na_get_maxcpus}
use numafac.Prelude.{
  ℕ, zero, suc, ◌+◌, Bool, false, ◌||◌, Option, none, some, List, [], ◌∷◌, ltb, if◌then◌else◌, ℤ,
  pos, negsuc, Run, ok, ◌>>=◌, ◌>>◌, deref, Array, malloc, load, fill,
}

-- The path of a node's directory, in `char dirnamep[256]`.
unfoldable pub node_path : ℕ → Run TextBytes
node_path i = do
  dirnamep ← strcpy 256 (codes "/sys/devices/system/node/node")
  let temp = sprintf_i (pos i)
  strcat 256 dirnamep temp

-- The `while` over `readdir`: whether an entry has the name.
unfoldable pub has_entry : TextBytes → List TextBytes → Bool
has_entry cpuid [] = false
has_entry cpuid (d_name ∷ names) = same_text cpuid d_name || has_entry cpuid names

-- The rounds of the `for` over the nodes from `i` on.
unfoldable pub find_node : Os → TextBytes → ℕ → ℕ → Run ℤ
find_node os cpuid zero i = ok (negsuc 0)
find_node os cpuid (suc n) i = do
  dirnamep ← node_path i
  elim (os.opendir dirnamep) [
    | none ↦ ok (pos 0)
    | some names ↦
        let next = find_node os cpuid n (i + 1) in
        if has_entry cpuid names then ok (pos i) else next
  ]

-- "cpu" and the number, in `char cpuid[7]`.
unfoldable pub cpu_name : ℕ → Run TextBytes
cpu_name cpu = do
  cpuid ← strcpy 7 (codes "cpu")
  let temp = sprintf_i (pos cpu)
  cpuid ← strcat 7 cpuid temp
  strcat 7 cpuid []

unfoldable pub get_nodeidcpu : Os → ℕ → Run ℤ
unfolding cpu_name find_node na_get_maxnodes
get_nodeidcpu os cpu =
    if ltb 1 na_get_maxnodes
    then (do cpuid ← cpu_name cpu; find_node os cpuid na_get_maxnodes 0)
    else ok (pos 0)

-- The global `int *HashCpuNode`, which is NULL before `load_hash`.
abbrev pub Hash : Type 0
Hash = Option (Array ℤ)

unfoldable pub load_hash : Os → Run Hash
unfolding na_get_maxcpus fill
load_hash os = do
  table ← fill (get_nodeidcpu os) na_get_maxcpus 0 (malloc na_get_maxcpus)
  ok (some table)

unfoldable pub na_init : Os → Run Hash
unfolding load_hash
na_init os = load_hash os

-- It loads the table as well.
unfoldable pub na_is_numa : Os → Run (Hash × ℕ)
unfolding load_hash
na_is_numa os = do table ← load_hash os; ok (table, is_numa_machine)

unfoldable pub na_get_nodeidcpu : Hash → ℕ → Run ℤ
unfolding load
na_get_nodeidcpu h cpu = do table ← deref h; load table cpu
