-- ===== src/Topology/Matrix.antt =====
-- src/archTopology.c: the files of measured latencies, NUMA factors and bandwidths.
use numafac.Prelude.{element}
pub mod Entries
pub mod Fill
pub mod Rounded
use numafac.Libc.{TextBytes, codes}
use numafac.Os.{Os, Floats}
use numafac.Topology.Counts.{na_get_maxnodes, na_get_maxcpus}
use numafac.Prelude.{
  ℕ, zero, suc, ◌+◌, ◌-◌, Option, none, some, List, get_elem?, set, ℤ, pos, negsuc, ◌+ℤ◌, ◌-ℤ◌,
  ◌*ℤ◌, Run, ok, exit, ◌>>=◌, Array, store,
}

-- How often the body of `do { ...; i++; } while (i < bound);` runs, from i = 0.
unfoldable pub do_rounds : ℤ → ℕ
do_rounds (pos n) = suc (n - 1)
do_rounds (negsuc n) = 1

-- ((node1-1)*maxnodes) + node2
unfoldable pub entry_bound : ℤ → ℤ → ℤ
unfolding na_get_maxnodes
entry_bound node1 node2 = (node1 -ℤ pos 1) *ℤ pos na_get_maxnodes +ℤ node2

pub data ArchMode : Type 0 where
  numa multicore : ArchMode

-- The three functions that return one entry read it by %f into a float.
module _ (single : Floats) where
  open single use {F, thousandths, scan}

  -- What `x` holds after fscanf (fp, "%f", &x), given what it reads.
  unfoldable pub scanned : F → Option F → F
  scanned x none = x
  scanned x (some y) = y

  -- The body of the `do` loop, so many times.
  unfoldable pub read_entries : ℕ → F → TextBytes → F
  read_entries zero x s = x
  read_entries (suc n) x s = read_entries n (scanned x (scan s).0) (scan s).1

  -- What the three functions below do with the file that they open.
  unfoldable pub entry_of : Option TextBytes → F → ℤ → Run F
  entry_of none x bound = exit 1
  entry_of (some s) x bound = ok (read_entries (do_rounds bound) x s)

  module _ (os : Os) where
    unfoldable pub na_latency : ℤ → ℤ → Run F
    na_latency node1 node2 =
        entry_of (os.fopen (codes "/tmp/output/latency_lmbench.minas")) (thousandths 1000)
          (entry_bound node1 node2)

    unfoldable pub na_numafactor : ℤ → ℤ → Run F
    na_numafactor node1 node2 =
        entry_of (os.fopen (codes "/tmp/output/numafactor_lmbench.minas")) (thousandths 1000)
          (entry_bound node1 node2)

    unfoldable pub na_bandwidth : ℤ → ℤ → Run F
    na_bandwidth node1 node2 =
        entry_of (os.fopen (codes "/tmp/output/bandwidth.minas")) (thousandths 0)
          (entry_bound node1 node2)

-- The functions that fill a matrix of doubles read its entries by %lf.
module _ (double : Floats) where
  open double use {F, scan}

  -- fscanf (fp, "%lf", &row[j]), given what it reads; nothing is written if it reads no number.
  unfoldable pub put_cell : Array F → ℕ → Option F → Run (Array F)
  put_cell row j none = ok row
  put_cell row j (some x) = store row j x

  -- The inner loop of na_fill_latency_matrix from `j` on, with the rounds left.
  unfoldable pub fill_row : ℕ → ℕ → Array F → TextBytes → Run (Array F × TextBytes)
  fill_row zero j row s = ok (row, s)
  fill_row (suc n) j row s = do row' ← put_cell row j (scan s).0; fill_row n (j + 1) row' (scan s).1

  -- matrix[i], of a matrix that is a list of rows.
  unfoldable pub row_at : List (Array F) → ℕ → Run (Array F)
  row_at matrix i = element (get_elem? matrix i)

  -- The outer loop from row `i` on, with the rounds left, at rows of `width` cells.
  unfoldable pub fill_rows : ℕ → ℕ → ℕ → List (Array F) → TextBytes → Run (List (Array F))
  fill_rows width zero i matrix s = ok matrix
  fill_rows width (suc n) i matrix s = do
    row ← row_at matrix i
    (row', rest) ← fill_row width 0 row s
    fill_rows width n (i + 1) (set matrix i row') rest

  -- na_fill_latency_matrix, given what the two calls of `fopen` return.
  unfoldable pub fill_from :
      Option TextBytes → Option TextBytes → ArchMode → List (Array F) → Run (List (Array F))
  fill_from none cores_fp mode matrix = exit 1
  fill_from (some nodes) none mode matrix = exit 1
  fill_from (some nodes) (some cores) numa matrix =
      fill_rows na_get_maxnodes na_get_maxnodes 0 matrix nodes
  fill_from (some nodes) (some cores) multicore matrix =
      fill_rows na_get_maxcpus na_get_maxcpus 0 matrix cores

  module _ (os : Os) where
    unfoldable pub na_fill_latency_matrix : List (Array F) → ArchMode → Run (List (Array F))
    na_fill_latency_matrix matrix mode =
        fill_from (os.fopen (codes "/tmp/output/latency_lmbench.minas"))
          (os.fopen (codes "/tmp/output/latency_lmbench_multicore.minas")) mode matrix

    unfoldable pub na_fill_numa_latency_matrix : List (Array F) → Run (List (Array F))
    na_fill_numa_latency_matrix matrix = na_fill_latency_matrix matrix numa

    unfoldable pub na_fill_multicore_latency_matrix : List (Array F) → Run (List (Array F))
    na_fill_multicore_latency_matrix matrix = na_fill_latency_matrix matrix multicore
