-- ===== src/Topology/Directories.antt =====
-- src/archTopology.c: the functions that print the directories of nodes, CPUs and caches.
pub mod Names
use numafac.Libc.{TextBytes, codes, strcpy, strcat, starts_with}
use numafac.Os.{Os}
use numafac.Topology.Counts.{na_get_maxnodes, na_get_numcaches}
use numafac.Topology.Nodes.{node_path}
use numafac.Prelude.{
  ℕ, zero, suc, ◌+◌, true, false, none, some, List, [], ◌∷◌, ◌++◌, indeterminate, Run, ok, fault,
  ◌>>=◌, ◌>>◌, deref,
}

-- What a function that prints has printed, line by line, and whether it came to its end. A `return`
-- in the middle counts as an end.
abbrev pub Printed : Type 0
Printed = List TextBytes

-- printf("dir %s\n", name)
unfoldable pub dir_line : TextBytes → TextBytes
dir_line name = codes "dir " ++ name

-- The loop of na_list_allnodes from `i` on. `closedir` of a directory that did not open is a fault.
unfoldable pub list_nodes : Os → ℕ → ℕ → Printed → Run Printed
list_nodes os zero i out = ok out
list_nodes os (suc n) i out = do
  dirnamep ← node_path i
  _ ← deref (os.opendir dirnamep)
  list_nodes os n (i + 1) (out ++ dir_line dirnamep ∷ [])

unfoldable pub na_list_allnodes : Os → Run Printed
na_list_allnodes os = list_nodes os na_get_maxnodes 0 []

-- The `while` over `readdir`, with what `char dirnamec[256]` holds: a name that begins with "cpu"
-- is appended to it.
unfoldable pub list_entries : List TextBytes → TextBytes → Printed → Run Printed
list_entries [] dirnamec out = ok out
list_entries (d_name ∷ names) dirnamec out = elim (starts_with (codes "cpu") d_name) [
  | true ↦ do
    dirnamec ← strcat 256 dirnamec d_name
    list_entries names dirnamec (out ++ dir_line dirnamec ∷ [])
  | false ↦ list_entries names dirnamec out
]

-- The loop of na_list_allcpus from node `i` on; it returns at a directory that does not open.
unfoldable pub list_cpus : Os → ℕ → ℕ → Printed → Run Printed
list_cpus os zero i out = ok out
list_cpus os (suc n) i out = do
  dirnamep ← node_path i
  elim (os.opendir dirnamep) [
    | none ↦ ok out
    | some names ↦ do out ← list_entries names dirnamep out; list_cpus os n (i + 1) out
  ]

unfoldable pub na_list_allcpus : Os → Run Printed
na_list_allcpus os = list_cpus os na_get_maxnodes 0 []

-- The `while` of na_list_allcaches, whose `dirnamec` was never written.
unfoldable pub list_unwritten : List TextBytes → Printed → Run Printed
list_unwritten [] out = ok out
list_unwritten (d_name ∷ names) out = elim (starts_with (codes "cpu") d_name) [
  | true ↦ fault indeterminate
  | false ↦ list_unwritten names out
]

-- The loop of na_list_allcaches, which opens the same directory in each round.
unfoldable pub list_caches : Os → ℕ → Printed → Run Printed
list_caches os zero out = ok out
list_caches os (suc n) out = do
  dirnamep ← strcpy 256 (codes "/sys/devices/system/node/node0/cpu0")
  elim (os.opendir dirnamep) [
    | none ↦ ok out
    | some names ↦ do out ← list_unwritten names out; list_caches os n out
  ]

unfoldable pub na_list_allcaches : Os → Run Printed
na_list_allcaches os = do _ ← na_get_numcaches os; list_caches os na_get_maxnodes []
