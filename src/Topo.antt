-- ===== src/Topo.antt =====
-- topo/topo.c: the program that prints a distribution of threads over the cores.
pub mod Printed
use numafac.Libc.{TextBytes, codes, sprintf_i, atoi}
use numafac.Topology.Counts.{na_get_maxcpus}
use numafac.Prelude.{
  ℕ, zero, suc, ◌+◌, ◌-◌, ◌/◌, Option, none, some, List, [], ◌++◌, ◌==◌, if◌then◌else◌, get_elem?,
  ℤ, pos, eqb_ℤ, Run, ok, ◌>>=◌, ◌>>◌, deref, Array, load,
}

-- The functions that topo.c calls and the repository does not have. Each returns an array.
pub record Distributions : Type 0 where
  pub na_compute_ids_nodes : ℕ → ℤ → ℤ → Array ℤ
  pub na_compute_ids_cores : ℕ → ℤ → ℤ → Array ℤ
  pub na_max_share_ht : ℕ → Array ℤ
  pub na_min_share_ht : ℕ → Array ℤ
  pub na_work_stealing_max : ℕ → ℤ → Array ℤ
  pub na_work_stealing_min : ℕ → ℤ → Array ℤ

-- if (c) x else y, for an int c.
unfoldable pub choose {ℓ} : {A : Type ℓ} → ℤ → A → A → A
choose c x y = if eqb_ℤ c (pos 0) then y else x

-- numThreads
unfoldable pub threads_of : ℤ → ℕ
unfolding na_get_maxcpus
threads_of helper_thread = choose helper_thread (na_get_maxcpus / 2) na_get_maxcpus

-- for (i = 0; i < numThreads; i++), from `i` on, with the rounds left, at the last index.
unfoldable pub print_ids : ℕ → ℕ → ℕ → Array ℤ → Run TextBytes
print_ids last zero i cores = ok []
print_ids last (suc n) i cores = do
  c ← load cores i
  rest ← print_ids last n (i + 1) cores
  ok (sprintf_i c ++ ((if i == last then codes " \n" else codes " \t") ++ rest))

-- The array that is printed, if the switch has a case for it.
unfoldable pub selected : Distributions → ℤ → ℤ → ℤ → ℤ → Option (Array ℤ)
selected d is_numa helper_thread thread_dist vector =
    let n = threads_of helper_thread in
    if eqb_ℤ vector (pos 1)
    then some (
        choose is_numa (d.na_compute_ids_nodes n thread_dist helper_thread)
          (d.na_compute_ids_cores n thread_dist helper_thread))
    else if eqb_ℤ vector (pos 2)
    then some (choose thread_dist (d.na_max_share_ht n) (d.na_min_share_ht n))
    else if eqb_ℤ vector (pos 3)
    then some (
        choose thread_dist (d.na_work_stealing_max n helper_thread)
          (d.na_work_stealing_min n helper_thread))
    else none

-- What the loop of a case prints.
unfoldable pub print_selected : ℕ → Option (Array ℤ) → Run TextBytes
print_selected num_threads none = ok []
print_selected num_threads (some cores) = print_ids (num_threads - 1) num_threads 0 cores

unfoldable pub topo_main : Distributions → List TextBytes → Run TextBytes
topo_main d argv = do
  a1 ← deref (get_elem? argv 1)
  a2 ← deref (get_elem? argv 2)
  a3 ← deref (get_elem? argv 3)
  a4 ← deref (get_elem? argv 4)
  print_selected (threads_of (atoi a2)) (selected d (atoi a1) (atoi a2) (atoi a3) (atoi a4))
