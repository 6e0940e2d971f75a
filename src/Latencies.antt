-- ===== src/Latencies.antt =====
-- latencies/compute-latencies.c: the latencies between cores, from those of the caches and between
-- nodes. The topology that hwloc finds and the measuring functions of lmbench3 are parameters.
use numafac.Prelude.{element}
pub mod Loads
pub mod Walk
pub mod Costs
pub mod Written
use numafac.Config.{is_numa_machine}
use numafac.Libc.{TextBytes, codes}
use numafac.Os.{Os, Floats}
use numafac.Topology.Nodes.{Hash, na_init, na_get_nodeidcpu}
use numafac.Topology.Matrix.{fill_rows}
use numafac.Prelude.{
  ℕ, zero, suc, ◌+◌, ◌-◌, ◌*◌, ◌/◌, ◌%◌, ◌^◌, ◌≤◌, ◌<◌, min, ◌≡◌, refl, sym, ap, ◌∙◌, subst,
  fun_ext, ◌≢◌, ◌↔◌, ◌⊎◌, inl, inr, Bool, true, false, not, ◌&&◌, ◌||◌, Option, none, some, List,
  [], ◌∷◌, ◌++◌, map, append-nil, append_assoc, arith, dec_lt, ℕ_discrete, ltb, leb, ◌==◌,
  if◌then◌else◌, ltb→lt, lt→ltb, leb→le, ==_iff, Bool-cases, Option-cases, length, get_elem?, set,
  get_or, take, drop, replicate, length-append, length-set, get_elem?-set_self, get_elem?-set_ne,
  length-replicate, length-map, set-append, get_elem?-append, ℤ, pos, negsuc, pos_part, neg_part,
  ◌+ℤ◌, ◌-ℤ◌, ◌*ℤ◌, ◌≤ℤ◌, ltb_ℤ, eqb_ℤ, eqb_ℤ→eq, eqb_ℤ_refl, negate, ulong, low_word, sub_ℕ, Fault,
  overflow, null_pointer, indeterminate, out_of_bounds, Run, ok, exit, fault, out_of_fuel, ◌>>=◌,
  ◌>>◌, deref, determinate, Returns, Array, malloc, load, store, store-ok, store-out_of_bounds,
  filled, load-filled, fill, tabulate, get_elem?-tabulate, length-tabulate, fill-ok, Returns_mono,
  value_or, Returns-value_or, load-filled_beyond, store-filled, load-filled_at, eqb_ℤ-pos,
}

-- struct mem_state, the fields that compute_latency writes.
pub record MemState : Type 0 where
  pub width : ℕ
  pub len : ℕ
  pub maxlen : ℕ
  pub line : ℕ
  pub pagesize : ℕ

-- An object of hwloc: a cache, with its depth and its size, or anything else.
pub data HwObj : Type 0 where
  cache : ℕ → ℤ → HwObj
  other : HwObj

-- What hwloc and the functions of lmbench3 answer.
pub record Hardware (F : Type 0) : Type 1 where
  pub Core : Type 0
  -- The numbers of objects of the types NODE and PU.
  pub nb_nodes : ℕ
  pub nb_pus : ℕ
  -- The first PU, its parent, and so on up to the root.
  pub ancestors : List HwObj
  -- hwloc_get_obj_by_type (topo, HWLOC_OBJ_CORE, i), which may be NULL.
  pub core : ℕ → Option Core
  pub common_ancestor : Core → Core → HwObj
  pub getpagesize : ℕ
  -- gettime() and get_n() after benchmp.
  pub benchmp : MemState → ℕ × ℕ
  -- (1000. * (double)time) / (double)n
  pub per_load : ℕ → ℕ → F

-- p = (char **)*p, in a memory of pointers, so many times.
module _ (memory : ℕ → ℕ) where
  unfoldable pub one : ℕ → ℕ
  one p = memory p

  unfoldable pub five : ℕ → ℕ
  five p = one (one (one (one (one p))))

  unfoldable pub ten : ℕ → ℕ
  ten p = five (five p)

  unfoldable pub fifty : ℕ → ℕ
  fifty p = ten (ten (ten (ten (ten p))))

  unfoldable pub hundred : ℕ → ℕ
  hundred p = fifty (fifty p)

  -- for (i = 0; i < count; ++i) { HUNDRED; }
  unfoldable pub hundreds : ℕ → ℕ → ℕ
  hundreds zero p = p
  hundreds (suc n) p = hundreds n (hundred p)

  -- while (iterations-- > 0)
  unfoldable pub iterate_loads : ℕ → ℕ → ℕ → ℕ
  iterate_loads count zero p = p
  iterate_loads count (suc iterations) p = iterate_loads count iterations (hundreds count p)

  -- It takes state->p[0] and returns what it leaves there.
  unfoldable pub benchmark_loads : ℕ → MemState → ℕ → ℕ
  benchmark_loads iterations state p =
      iterate_loads (state.len / (state.line * 100) + 1) iterations p

-- The state that compute_latency measures.
unfoldable pub state_of : ℕ → ℕ → MemState
state_of page len = record { width = 1; len = len; maxlen = len; line = 512; pagesize = page }

-- 100 * (state.len / (state.line * 100) + 1)
unfoldable pub count_of : MemState → ℕ
count_of state = 100 * (state.len / (state.line * 100) + 1)

-- cache_sizes[level] = obj->attr->cache.size; level++, for each cache of the list.
unfoldable pub cache_walk : List HwObj → ℕ → Array ℤ → Run (Array ℤ)
cache_walk [] level cache_sizes = ok cache_sizes
cache_walk (other ∷ objs) level cache_sizes = cache_walk objs level cache_sizes
cache_walk (cache depth size ∷ objs) level cache_sizes = do
  cache_sizes ← store cache_sizes level size
  cache_walk objs (level + 1) cache_sizes

-- n / 2, towards zero.
unfoldable pub half : ℤ → ℤ
half (pos n) = pos (n / 2)
half (negsuc n) = negate ((n + 1) / 2)

-- a[i], at an index that may be negative.
unfoldable pub at_index {ℓ} : {A : Type ℓ} → List A → ℤ → Run A
at_index a (pos i) = element (get_elem? a i)
at_index a (negsuc i) = fault out_of_bounds

unfoldable pub nodes_or_one : ℕ → ℕ
nodes_or_one nb_nodes = if nb_nodes == 0 then 1 else nb_nodes

-- The array cpus_to_nodes, by ISNUMA.
unfoldable pub cpus_to_nodes_of : ℕ → Hash → ℕ → Run (Array ℤ)
cpus_to_nodes_of zero h nb_cores = ok (replicate nb_cores (some (pos 0)))
cpus_to_nodes_of (suc n) h nb_cores = fill (na_get_nodeidcpu h) nb_cores 0 (malloc nb_cores)

module _ (fl : Floats) (hw : Hardware (fl.F)) where
  open fl use {F, print}

  unfoldable pub compute_latency : ℕ → F
  unfolding state_of
  compute_latency len =
      let state = state_of (hw.getpagesize) len in
      let (time, n) = hw.benchmp state in hw.per_load time (count_of state * n % 2 ^ 64)

  module _ (cache_latencies : List F) (nodes_matrix : List (Array F))
      (cpus_to_nodes : Array ℤ) where
    -- nodes_matrix[a][b]
    unfoldable pub node_latency : ℤ → ℤ → Run F
    node_latency a b = do row ← at_index nodes_matrix a; x ← at_index row b; determinate x

    -- The latency by the type of the common ancestor; `depth - 1` is unsigned.
    unfoldable pub ancestor_latency : HwObj → ℕ → Run F
    ancestor_latency (cache depth size) i =
        element (get_elem? cache_latencies ((depth + (2 ^ 32 - 1)) % 2 ^ 32))
    ancestor_latency other i = do n ← load cpus_to_nodes i; node_latency n n

    -- coreFactor, given whether i and j are the same.
    unfoldable pub factor_of : Bool → ℕ → ℕ → Run F
    factor_of true i j = element (get_elem? cache_latencies 0)
    factor_of false i j = do
      core1 ← deref (hw.core i)
      core2 ← deref (hw.core j)
      ancestor_latency (hw.common_ancestor core1 core2) i

    unfoldable pub core_factor : ℕ → ℕ → Run F
    core_factor i j = factor_of (i == j) i j

    -- The entry of cores i and j, given whether they are of one node, and the two nodes.
    unfoldable pub entry_by : Bool → ℕ → ℕ → ℤ → ℤ → Run F
    entry_by true i j current_node n = core_factor i j
    entry_by false i j current_node n = node_latency current_node n

    unfoldable pub core_entry : ℕ → ℤ → ℕ → Run F
    core_entry i current_node j = do
      n ← load cpus_to_nodes j
      entry_by (eqb_ℤ n current_node) i j current_node n

    -- The row cores_matrix[i].
    unfoldable pub core_row : ℕ → ℕ → Run (Array F)
    core_row nb_cores i = do
      current_node ← load cpus_to_nodes i
      fill (core_entry i current_node) nb_cores 0 (malloc nb_cores)

    unfoldable pub core_rows : ℕ → Run (Array (Array F))
    core_rows nb_cores = fill (core_row nb_cores) nb_cores 0 (malloc nb_cores)

  -- The inner loop of printing from `j` on, with the rounds left.
  unfoldable pub print_row : ℕ → ℕ → Array F → Run TextBytes
  print_row zero j row = ok (codes "\n")
  print_row (suc n) j row = do
    x ← load row j
    rest ← print_row n (j + 1) row
    ok (print x ++ (codes " " ++ rest))

  -- The outer loop, from row `i` on, at rows of `width` entries.
  unfoldable pub print_rows : ℕ → ℕ → ℕ → Array (Array F) → Run TextBytes
  print_rows width zero i matrix = ok []
  print_rows width (suc n) i matrix = do
    row ← load matrix i
    line ← print_row width 0 row
    rest ← print_rows width n (i + 1) matrix
    ok (line ++ rest)

  -- The array cache_latencies, from cache_sizes.
  unfoldable pub cache_latencies_of : Array ℤ → Run (List F)
  cache_latencies_of cache_sizes = do
    size0 ← load cache_sizes 0
    size1 ← load cache_sizes 1
    size2 ← load cache_sizes 2
    ok (
        compute_latency (ulong (half size0))
        ∷ compute_latency (ulong (half (size1 -ℤ size0)))
        ∷ compute_latency (ulong (half (size2 -ℤ size1)))
        ∷ [])

  -- The rest of main once the caches are measured, with what the two calls of `fopen` return: the
  -- text of the file of the latencies, and whether the file to write could be opened. The value
  -- is what is written.
  unfoldable pub write_latencies :
      Option TextBytes → Bool → List F → ℕ → ℕ → Array ℤ → Run TextBytes
  write_latencies nodes_fp cores_fp cache_latencies nb_nodes nb_cores cpus_to_nodes = do
    text ← deref nodes_fp
    nodes_matrix ← fill_rows fl nb_nodes nb_nodes 0 (replicate nb_nodes (malloc nb_nodes)) text
    cores_matrix ← core_rows cache_latencies nodes_matrix cpus_to_nodes nb_cores
    printed ← print_rows nb_cores nb_cores 0 cores_matrix
    if cores_fp then ok printed else fault null_pointer

  unfoldable pub main : Os → Bool → Run TextBytes
  main os cores_fp = do
    h ← na_init os
    cpus_to_nodes ← cpus_to_nodes_of is_numa_machine h (hw.nb_pus)
    cache_sizes ← cache_walk (hw.ancestors) 0 (replicate 3 (some (pos 0)))
    cache_latencies ← cache_latencies_of cache_sizes
    write_latencies (os.fopen (codes "/tmp/output/latency_lmbench.minas")) cores_fp cache_latencies
        (nodes_or_one (hw.nb_nodes)) (hw.nb_pus) cpus_to_nodes
