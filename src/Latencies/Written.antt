-- ===== src/Latencies/Written.antt =====
-- The file of core latencies that main writes, as the library reads it.
use numafac.Libc.{TextBytes, codes, is_space}
use numafac.Libc.RoundTrip.{AllChars}
use numafac.Os.{Os, Floats}
use numafac.Topology.Counts.{na_get_maxcpus}
use numafac.Topology.Matrix.{fill_from, na_fill_latency_matrix, na_fill_multicore_latency_matrix}
use numafac.Topology.Matrix.Entries.{Scans}
use numafac.Topology.Matrix.Fill.{flat, Width, fill_rows-square}
use numafac.Latencies.{Hardware, print_row, print_rows, write_latencies}
use numafac.Latencies.Costs.{IsCost, core_rows-IsCost}
use numafac.Prelude.{
  ℕ, zero, suc, ◌+◌, ◌<◌, ◌≡◌, refl, ap, ◌∙◌, subst, true, some, List, [], ◌∷◌, ◌++◌, map,
  append_assoc, arith, length, replicate, length-append, length-map, pos, ok, ◌>>=◌, Array, malloc,
  filled, tabulate, load-filled_at,
}

-- `scanf` skips white space, and reads a number that `printf` wrote, rounded to six places, up to
-- the blank behind it.
pub record ReadsBack (fl : Floats) (rounded : fl.F → fl.F) : Type 0 where
  pub scan-print :
      (gap : TextBytes) (x : fl.F) (rest : TextBytes)
      → AllChars is_space gap
      → fl.scan (gap ++ (fl.print x ++ (codes " " ++ rest))) ≡ (some (rounded x), codes " " ++ rest)

module _ (fl : Floats) (hw : Hardware (fl.F)) where
  open fl use {F, print, scan}

  -- The entries of a row, each with a blank behind it, in front of `rest`.
  cells : List F → TextBytes → TextBytes
  cells [] rest = rest
  cells (x ∷ xs) rest = print x ++ (codes " " ++ cells xs rest)

  cells-append : (xs : List F) (s t : TextBytes) → cells xs s ++ t ≡ cells xs (s ++ t)
  unfolding cells
  cells-append [] s t = refl
  cells-append (x ∷ xs) s t =
      append_assoc (print x) (codes " " ++ cells xs s) t
      ∙ ap (λ u. print x ++ (codes " " ++ u)) (cells-append xs s t)

  -- The lines of a matrix.
  rows_text : List (List F) → TextBytes
  rows_text [] = []
  rows_text (r ∷ rows) = cells r (codes "\n" ++ rows_text rows)

  print_row-cells :
      (xs done : List F) (j : ℕ)
      → j ≡ length done
      → print_row fl hw (length xs) j (filled (done ++ xs)) ≡ ok (cells xs (codes "\n"))
  unfolding print_row cells
  print_row-cells [] done j e = refl
  print_row-cells (x ∷ xs) done j e =
      let behind : print_row fl hw (length xs) (j + 1) (filled (done ++ x ∷ xs))
          ≡ ok (cells xs (codes "\n")) =
        simp append_assoc at
          (print_row-cells xs (done ++ x ∷ []) (j + 1) (rw length-append (omega arith))) in
      rw (load-filled_at x done xs j e, behind) refl

  print_row-line :
      (w : ℕ) (r : List F)
      → length r ≡ w
      → print_row fl hw w 0 (filled r) ≡ ok (cells r (codes "\n"))
  print_row-line w r e =
      subst (λ v. print_row fl hw v 0 (filled r) ≡ ok (cells r (codes "\n"))) e
        (print_row-cells r [] 0 refl)

  print_rows-text :
      (w : ℕ) (rows : List (List F)) (done : List (Array F)) (i : ℕ)
      → i ≡ length done
      → Width w rows
      → print_rows fl hw w (length rows) i (filled (done ++ map filled rows)) ≡ ok (rows_text rows)
  unfolding print_rows rows_text
  print_rows-text w [] done i e q = refl
  print_rows-text w (r ∷ rows) done i e q =
      let behind : print_rows fl hw w (length rows) (i + 1)
            (filled (done ++ filled r ∷ map filled rows))
          ≡ ok (rows_text rows) =
        simp append_assoc at (
          print_rows-text w rows (done ++ filled r ∷ []) (i + 1) (rw length-append (omega arith))
            q.1) in
      rw
        (
          load-filled_at (filled r) done (map filled rows) i e,
          print_row-line w r q.0,
          behind,
          cells-append r (codes "\n") (rows_text rows),
        )
        refl

  module _ (rounded : F → F) (law : ReadsBack fl rounded) where
    cells-Scans :
        (xs ys : List F) (gap rest : TextBytes)
        → AllChars is_space gap
        → ((g : TextBytes) → AllChars is_space g → Scans fl (g ++ rest) ys)
        → Scans fl (gap ++ cells xs rest) (map rounded xs ++ ys)
    unfolding cells is_space
    cells-Scans [] ys gap rest a h = h gap a
    cells-Scans (x ∷ xs) ys gap rest a h = (
      codes " " ++ cells xs rest,
      law.scan-print gap x (cells xs rest) a,
      cells-Scans xs ys (codes " ") rest (refl, tt) h,
    )

    AllChars-append :
        (g t : TextBytes) → AllChars is_space g → AllChars is_space t → AllChars is_space (g ++ t)
    AllChars-append [] t a b = b
    AllChars-append (c ∷ g) t a b = (a.0, AllChars-append g t a.1 b)

    rows_text-Scans :
        (rows : List (List F)) (gap : TextBytes)
        → AllChars is_space gap
        → Scans fl (gap ++ rows_text rows) (flat (map (map rounded) rows))
    unfolding rows_text is_space
    rows_text-Scans [] gap a = tt
    rows_text-Scans (r ∷ rows) gap a =
        cells-Scans r (flat (map (map rounded) rows)) gap (codes "\n" ++ rows_text rows) a (λ g b.
          subst (λ s. Scans fl s (flat (map (map rounded) rows)))
            (append_assoc g (codes "\n") (rows_text rows))
            (rows_text-Scans rows (g ++ codes "\n") (AllChars-append g (codes "\n") b (refl, tt))))

    fill_multicore :
        (os : Os) (t : TextBytes) (rows : List (List F))
        → (length rows ≡ 16) × Width 16 rows
        → os.fopen (codes "/tmp/output/latency_lmbench.minas") ≡ some t
        → os.fopen (codes "/tmp/output/latency_lmbench_multicore.minas") ≡ some (rows_text rows)
        → na_fill_multicore_latency_matrix fl os (replicate 16 (malloc 16))
          ≡ ok (map filled (map (map rounded) rows))
    unfolding na_fill_multicore_latency_matrix na_fill_latency_matrix fill_from na_get_maxcpus
    fill_multicore os t rows q h k =
        rw (h, k)
          (fill_rows-square fl 16 (map (map rounded) rows) (rows_text rows)
            (length-map rows (map rounded) ∙ q.0) (Width-rounded 16 rows q.1)
            (rows_text-Scans rows [] tt))
      where
        Width-rounded :
            (w : ℕ) (rows : List (List F)) → Width w rows → Width w (map (map rounded) rows)
        Width-rounded w [] q = tt
        Width-rounded w (r ∷ rows) q = (length-map r rounded ∙ q.0, Width-rounded w rows q.1)

    module _ (cache_latencies : List F) (nodes : List (List F)) (node_of : List ℕ)
        (cost : ℕ → ℕ → F) where
      -- The matrix of the costs.
      abbrev pub costs : List (List F)
      costs = tabulate (λ i. tabulate (cost i) 0 16) 0 16

      costs-Width : (k n : ℕ) → Width 16 (tabulate (λ i. tabulate (cost i) 0 16) k n)
      costs-Width k zero = tt
      costs-Width k (suc n) = (refl, costs-Width (k + 1) n)

      write_latencies-text :
          (text : TextBytes) (n : ℕ)
          → (length nodes ≡ n) × Width n nodes
          → Scans fl text (flat nodes)
          → ((i j : ℕ)
              → i < 16
              → j < 16
              → IsCost fl hw cache_latencies nodes node_of i j (cost i j))
          → write_latencies fl hw (some text) true cache_latencies n 16 (filled (map pos node_of))
            ≡ ok (rows_text costs)
      unfolding write_latencies
      write_latencies-text text n q h c =
          rw
            (
              fill_rows-square fl n nodes text q.0 q.1 h,
              core_rows-IsCost fl hw cache_latencies nodes node_of cost 16 c,
              print_rows-text 16 costs [] 0 refl (costs-Width 0 16),
            )
            refl

      -- On 16 cores each two of which have a cost, by the latencies of the caches and by a square
      -- matrix of node latencies that the text begins with: what main writes, once the caches are
      -- measured, is read by na_fill_multicore_latency_matrix as the matrix of these costs, each
      -- rounded as printing does.
      pub na_fill_multicore-write_latencies :
          (text : TextBytes) (n : ℕ) (after : TextBytes → Os)
          → (length nodes ≡ n) × Width n nodes
          → Scans fl text (flat nodes)
          → ((i j : ℕ)
              → i < 16
              → j < 16
              → IsCost fl hw cache_latencies nodes node_of i j (cost i j))
          → ((out : TextBytes)
              → (after out).fopen (codes "/tmp/output/latency_lmbench.minas") ≡ some text)
          → ((out : TextBytes)
              → (after out).fopen (codes "/tmp/output/latency_lmbench_multicore.minas") ≡ some out)
          → (write_latencies fl hw (some text) true cache_latencies n 16 (filled (map pos node_of))
              >>= λ out. na_fill_multicore_latency_matrix fl (after out) (replicate 16 (malloc 16)))
            ≡ ok (map filled (map (map rounded) costs))
      na_fill_multicore-write_latencies text n after q h c f g =
          rw (write_latencies-text text n q h c) (
            fill_multicore (after (rows_text costs)) text costs (refl, costs-Width 0 16)
              (f (rows_text costs)) (g (rows_text costs)))
