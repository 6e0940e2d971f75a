-- ===== src/Topology/Matrix/Rounded.antt =====
-- `na_fill_latency_matrix` fills matrices of doubles from the files of which `na_latency` reads a
-- float.
use mathlib.Core.List.{map-append}
use numafac.Libc.{TextBytes, codes}
use numafac.Os.{Os, Floats, Numerals}
use numafac.Topology.Counts.{na_get_maxnodes, na_get_maxcpus}
use numafac.Topology.Matrix.{
  fill_rows, fill_from, na_latency, na_fill_latency_matrix, na_fill_numa_latency_matrix,
  na_fill_multicore_latency_matrix,
}
use numafac.Topology.Matrix.Entries.{Scans, entry_of-Scans}
use numafac.Topology.Matrix.Fill.{flat, Width, fill_rows-square, get_elem?-flat}
use numafac.Prelude.{
  ℕ, zero, suc, ◌+◌, ◌≡◌, ap, refl, ◌∙◌, subst, some, List, [], ◌∷◌, ◌++◌, map, length, get_elem?,
  replicate, length-map, pos, ok, malloc, filled,
}

-- Rows of values, each converted.
abbrev pub convert : {V F : Type 0} → (V → F) → List (List V) → List (List F)
convert f rows = map (λ r. map f r) rows

length-convert :
    {V F : Type 0} (f : V → F) (rows : List (List V)) → length (convert f rows) ≡ length rows
length-convert f [] = refl
length-convert f (r ∷ rows) = ap suc (length-convert f rows)

Width-convert :
    {V F : Type 0} (f : V → F) (w : ℕ) (rows : List (List V))
    → Width w rows
    → Width w (convert f rows)
Width-convert f w [] h = tt
Width-convert f w (r ∷ rows) (e, h) = (length-map r f ∙ e, Width-convert f w rows h)

flat-convert :
    {V F : Type 0} (f : V → F) (rows : List (List V)) → map f (flat rows) ≡ flat (convert f rows)
flat-convert f [] = refl
flat-convert f (r ∷ rows) =
    map-append f r (flat rows) ∙ ap (λ l. map f r ++ l) (flat-convert f rows)

get_elem?-map :
    {V F : Type 0} (f : V → F) (xs : List V) (k : ℕ) (v : V)
    → get_elem? xs k ≡ some v
    → get_elem? (map f xs) k ≡ some (f v)
get_elem?-map f [] k v h = cc
get_elem?-map f (x ∷ xs) zero v h = cc
get_elem?-map f (x ∷ xs) (suc k) v h = get_elem?-map f xs k v h

module _ (single double : Floats) (n : Numerals single double) where
  open n use {Value, numeral, to_single, to_double, scan_single, scan_double}

  -- The text begins with numerals of these values.
  abbrev pub Reads : TextBytes → List Value → Type 0
  Reads s [] = Unit {0}
  Reads s (v ∷ vs) = (rest : TextBytes) × (numeral s ≡ (some v, rest)) × Reads rest vs

  Reads-single : (s : TextBytes) (vs : List Value) → Reads s vs → Scans single s (map to_single vs)
  Reads-single s [] h = tt
  Reads-single s (v ∷ vs) (rest, e, h) = (rest, scan_single s v rest e, Reads-single rest vs h)

  Reads-double : (s : TextBytes) (vs : List Value) → Reads s vs → Scans double s (map to_double vs)
  Reads-double s [] h = tt
  Reads-double s (v ∷ vs) (rest, e, h) = (rest, scan_double s v rest e, Reads-double rest vs h)

  -- A square matrix of doubles is filled with the rows of the text.
  filled_square :
      (w : ℕ) (rows : List (List Value)) (s : TextBytes)
      → length rows ≡ w
      → Width w rows
      → Reads s (flat rows)
      → fill_rows double w w 0 (replicate w (malloc w)) s ≡ ok (map filled (convert to_double rows))
  filled_square w rows s e q h =
      fill_rows-square double w (convert to_double rows) s (length-convert to_double rows ∙ e)
        (Width-convert to_double w rows q)
        (subst (Scans double s) (flat-convert to_double rows) (Reads-double s (flat rows) h))

  -- Where the latency file begins with the numerals of the rows of an 8 by 8 matrix, and the
  -- multicore file with those of a 16 by 16 matrix, the two functions fill fresh matrices of doubles
  -- with these rows, each value rounded to double; and `na_latency`, at nodes counted from 1,
  -- returns the value at their row and column of the first matrix, rounded to float.
  pub na_fill_latency_matrix_lem :
      (os : Os) (nodes cores : List (List Value)) (nodes_text cores_text : TextBytes) (i j : ℕ)
      (r : List Value) (v : Value)
      → (length nodes ≡ 8) × Width 8 nodes
      → (length cores ≡ 16) × Width 16 cores
      → os.fopen (codes "/tmp/output/latency_lmbench.minas") ≡ some nodes_text
      → Reads nodes_text (flat nodes)
      → os.fopen (codes "/tmp/output/latency_lmbench_multicore.minas") ≡ some cores_text
      → Reads cores_text (flat cores)
      → get_elem? nodes i ≡ some r
      → get_elem? r j ≡ some v
      → (na_fill_numa_latency_matrix double os (replicate 8 (malloc 8))
          ≡ ok (map filled (convert to_double nodes)))
        × (na_fill_multicore_latency_matrix double os (replicate 16 (malloc 16))
            ≡ ok (map filled (convert to_double cores)))
        × (na_latency single os (pos (i + 1)) (pos (j + 1)) ≡ ok (to_single v))
  unfolding na_fill_latency_matrix na_fill_numa_latency_matrix na_fill_multicore_latency_matrix
      fill_from na_latency na_get_maxnodes na_get_maxcpus
  na_fill_latency_matrix_lem os nodes cores nt ct i j r v wn wc on rn oc rc e k = (
    rw (on, oc) (filled_square 8 nodes nt wn.0 wn.1 rn),
    rw (on, oc) (filled_square 16 cores ct wc.0 wc.1 rc),
    rw on (
        entry_of-Scans single nt (flat (convert to_single nodes)) (single.thousandths 1000)
          (to_single v) i j
          (subst (Scans single nt) (flat-convert to_single nodes) (Reads-single nt (flat nodes) rn))
          (get_elem?-flat single 8 (convert to_single nodes) i j (map to_single r) (to_single v)
            (Width-convert to_single 8 nodes wn.1)
            (get_elem?-map (λ r. map to_single r) nodes i r e) (get_elem?-map to_single r j v k))),
  )
