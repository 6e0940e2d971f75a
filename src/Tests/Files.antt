-- ===== src/Tests/Files.antt =====
-- The theorems on the files of the benchmarks and on the directories of src/archTopology.c, each at
-- an input.
use numafac.Libc.{TextBytes, codes}
use numafac.Topology.Nodes.{get_nodeidcpu, na_init, na_get_nodeidcpu}
use numafac.Topology.Nodes.Home.{path_of, name_of, IsHome, get_nodeidcpu-IsHome}
use numafac.Topology.Nodes.Hash.{na_get_nodeidcpu-na_init}
use numafac.Topology.Matrix.{
  na_latency, na_fill_numa_latency_matrix, na_fill_multicore_latency_matrix,
}
use numafac.Topology.Matrix.Rounded.{convert, na_fill_latency_matrix_lem}
use numafac.Topology.Neighbors.{na_get_nneighbors}
use numafac.Topology.Neighbors.Rows.{na_get_nneighbors_lem}
use numafac.Topology.Directories.{list_entries}
use numafac.Topology.Directories.Names.{cpu_names, grown, total, list_entries_lem}
use numafac.Tests.Machine.{
  machine, listing, node_digit, filed, sevens, sevens-Scans, sevens-ScansInts, whole, fine,
  numerals,
}
use numafac.Prelude.{
  ℕ, ◌+◌, ◌≤◌, ◌<◌, ◌≡◌, refl, none, some, List, [], ◌∷◌, map, arith, length, replicate, ℤ, pos,
  Fault, overflow, ok, fault, ◌>>=◌, Returns, malloc, filled,
}

dirs : ℕ → List TextBytes
dirs j = listing (node_digit (path_of j))

get_nodeidcpu-IsHome_example : Returns (get_nodeidcpu machine 5) (IsHome dirs (name_of 5) 0 8)
unfolding dirs
get_nodeidcpu-IsHome_example = get_nodeidcpu-IsHome machine dirs 5 (omega arith) (λ j p. refl)

na_get_nodeidcpu-na_init_example :
    (na_init machine >>= λ h. na_get_nodeidcpu h 5) ≡ get_nodeidcpu machine 5
unfolding dirs
na_get_nodeidcpu-na_init_example = na_get_nodeidcpu-na_init machine dirs (λ j p. refl) 5

rows : List (List ℤ)
rows = replicate 8 (replicate 8 (pos 7))

na_fill_latency_matrix_lem_example :
    (na_fill_numa_latency_matrix fine filed (replicate 8 (malloc 8))
      ≡ ok (map filled (convert (λ n. (n, 0)) rows)))
    × (na_fill_multicore_latency_matrix fine filed (replicate 16 (malloc 16))
        ≡ ok (map filled (convert (λ n. (n, 0)) (replicate 16 (replicate 16 (pos 7))))))
    × (na_latency whole filed (pos 3) (pos 4) ≡ ok (pos 7))
unfolding rows
na_fill_latency_matrix_lem_example =
    na_fill_latency_matrix_lem whole fine numerals filed rows (replicate 16 (replicate 16 (pos 7)))
      (sevens 64) (sevens 256) 2 3 (replicate 8 (pos 7)) (pos 7) (omega arith) (omega arith) refl
      (sevens-Scans 64) refl (sevens-Scans 256) refl refl

na_get_nneighbors_lem_example :
    (filed.fopen (codes "/tmp/output/numaneighbor.minas") ≡ some (sevens 64)
      → na_get_nneighbors filed (pos 3) ≡ ok (filled (replicate 7 (pos 7))))
    × (filed.fopen (codes "/tmp/output/numaneighbor.minas") ≡ none
        → (f : Fault) × (na_get_nneighbors filed (pos 3) ≡ fault f))
na_get_nneighbors_lem_example =
    na_get_nneighbors_lem filed 3 7 (replicate 9 (replicate 7 (pos 7))) (replicate 7 (pos 7))
      (sevens 64) refl (omega arith) (sevens-ScansInts 64) refl

entries : List TextBytes
entries = codes "meminfo" ∷ codes "cpu0" ∷ codes "cpu1" ∷ []

node0 : TextBytes
node0 = codes "/sys/devices/system/node/node0"

list_entries_lem_example :
    (length node0 + total (cpu_names entries) < 256
      → list_entries entries node0 [] ≡ ok (grown node0 (cpu_names entries)))
    × (256 ≤ length node0 + total (cpu_names entries)
        → list_entries entries node0 [] ≡ fault overflow)
list_entries_lem_example = list_entries_lem entries node0 [] short
  where
    short : length node0 < 256
    short = unfold node0 in omega arith
