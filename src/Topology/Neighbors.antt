-- ===== src/Topology/Neighbors.antt =====
-- src/archTopology.c: the neighbours of a node, from the file of neighbours or of NUMA factors.
pub mod Rows
use numafac.Config.{max_nodes}
use numafac.Libc.{TextBytes, codes, scan_int}
use numafac.Os.{Os}
use numafac.Prelude.{
  ℕ, zero, suc, ◌+◌, Bool, true, false, not, ◌&&◌, Option, none, some, ltb, if◌then◌else◌, length,
  set, ℤ, pos, negsuc, pos_part, ltb_ℤ, eqb_ℤ, null_pointer, indeterminate, out_of_bounds, Run, ok,
  fault, ◌>>=◌, ◌>>◌, determinate, Array, malloc, load, store,
}

-- What a variable holds after fscanf (fp, "%d", &x), given what it reads.
unfoldable pub kept : Option ℤ → Option ℤ → Option ℤ
kept x none = x
kept x (some n) = some n

-- na_get_maxneighbors, given what `fopen` returns; without a file, or without a number in it, it
-- returns a variable that was never written.
unfoldable pub neighbors_in : Option TextBytes → Run ℤ
neighbors_in none = fault indeterminate
neighbors_in (some s) = determinate (kept none (scan_int s).0)

unfoldable pub na_get_maxneighbors : Os → Run ℤ
na_get_maxneighbors os = neighbors_in (os.fopen (codes "/tmp/output/numaneighbor.minas"))

-- if (i == node) node_ids[j] = temp;
unfoldable pub put_neighbor : Bool → ℕ → Option ℤ → Array ℤ → Run (Array ℤ)
put_neighbor false j temp node_ids = ok node_ids
put_neighbor true j temp node_ids = do t ← determinate temp; store node_ids j t

-- The inner loop of na_get_nneighbors over a row of the file, from `j` on; `hit` is i == node.
unfoldable pub neighbor_row :
    Bool → ℕ → ℕ → Option ℤ → TextBytes → Array ℤ → Run (Option ℤ × TextBytes × Array ℤ)
neighbor_row hit zero j temp s node_ids = ok (temp, s, node_ids)
neighbor_row hit (suc n) j temp s node_ids = do
  node_ids' ← put_neighbor hit j (kept temp (scan_int s).0) node_ids
  neighbor_row hit n (j + 1) (kept temp (scan_int s).0) (scan_int s).1 node_ids'

-- The outer loop from row `i` on, at `width` neighbours to a row.
unfoldable pub neighbor_rows : ℤ → ℕ → ℕ → ℕ → Option ℤ → TextBytes → Array ℤ → Run (Array ℤ)
neighbor_rows node width zero i temp s node_ids = ok node_ids
neighbor_rows node width (suc n) i temp s node_ids = do
  (temp', s', node_ids') ← neighbor_row (eqb_ℤ (pos i) node) width 0 temp s node_ids
  neighbor_rows node width n (i + 1) temp' s' node_ids'

-- tmp[j] = temp, which copies a variable that may hold nothing.
unfoldable pub put_factor : ℕ → Option ℤ → Array ℤ → Run (Array ℤ)
put_factor j temp tmp = if ltb j (length tmp) then ok (set tmp j temp) else fault out_of_bounds

-- The inner loop over the file of NUMA factors, which is read only in the row of the node.
unfoldable pub factor_row :
    Bool → ℕ → ℕ → Option ℤ → TextBytes → Array ℤ → Run (Option ℤ × TextBytes × Array ℤ)
factor_row hit zero j temp s tmp = ok (temp, s, tmp)
factor_row false (suc n) j temp s tmp = do
  tmp' ← put_factor j temp tmp
  factor_row false n (j + 1) temp s tmp'
factor_row true (suc n) j temp s tmp = do
  tmp' ← put_factor j (kept temp (scan_int s).0) tmp
  factor_row true n (j + 1) (kept temp (scan_int s).0) (scan_int s).1 tmp'

unfoldable pub factor_rows : ℤ → ℕ → ℕ → ℕ → Option ℤ → TextBytes → Array ℤ → Run (Array ℤ)
factor_rows node width zero i temp s tmp = ok tmp
factor_rows node width (suc n) i temp s tmp = do
  (temp', s', tmp') ← factor_row (eqb_ℤ (pos i) node) width 0 temp s tmp
  factor_rows node width n (i + 1) temp' s' tmp'

-- for (i = 1; i <= n_neighbors; i++) if (min > tmp[i] && tmp[i] != 1) { min = tmp[i]; index = i; }
unfoldable pub nearest : ℕ → ℕ → ℤ → ℤ → Array ℤ → Run (ℤ × ℤ)
nearest zero i least index tmp = ok (least, index)
nearest (suc n) i least index tmp = do
  t ← load tmp i
  let closer = ltb_ℤ t least && not (eqb_ℤ t (pos 1))
  nearest n (i + 1) (if closer then t else least) (if closer then pos i else index) tmp

-- The last loop, whose inner loop counts with the same `i` as itself: it leaves i at
-- n_neighbors + 1, where the body then writes, and the outer loop ends.
unfoldable pub pick_neighbors : ℕ → Array ℤ → Array ℤ → Run (Array ℤ)
pick_neighbors zero tmp node_ids = ok node_ids
pick_neighbors (suc n) tmp node_ids = do
  least ← load tmp 0
  (_, index) ← nearest (suc n) 1 least (negsuc 0) tmp
  tmp' ← store tmp (suc n + 1) (pos 1)
  store node_ids (suc n + 1) (if eqb_ℤ index (negsuc 0) then pos 0 else index)

-- The branch without a file of neighbours, given what `fopen` of the NUMA factors returns.
-- `fclose` stands behind the `if`, and is called with NULL too.
unfoldable pub from_factors : Os → ℤ → Option TextBytes → Run (Array ℤ)
from_factors os node none = fault null_pointer
from_factors os node (some s) = do
  n_neighbors ← na_get_maxneighbors os
  let n = pos_part n_neighbors
  tmp ← factor_rows node (n + 1) (max_nodes + 1) 0 none s (malloc (n + 1))
  pick_neighbors n tmp (malloc n)

-- na_get_nneighbors, given what `fopen` of the file of neighbours returns.
unfoldable pub neighbors_from : Os → ℤ → Option TextBytes → Run (Array ℤ)
neighbors_from os node none =
    from_factors os node (os.fopen (codes "/tmp/output/numafactor_lmbench.minas"))
neighbors_from os node (some s) = do
  n_neighbors ← determinate (kept none (scan_int s).0)
  let n = pos_part n_neighbors
  neighbor_rows node n (max_nodes + 1) 0 none (scan_int s).1 (malloc n)

unfoldable pub na_get_nneighbors : Os → ℤ → Run (Array ℤ)
na_get_nneighbors os node =
    neighbors_from os node (os.fopen (codes "/tmp/output/numaneighbor.minas"))
