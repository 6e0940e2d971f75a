-- ===== src/Topology/Matrix/Fill.antt =====
-- `na_fill_latency_matrix` fills a matrix from the file row by row.
use numafac.Libc.{TextBytes}
use numafac.Os.{Floats}
use numafac.Topology.Matrix.{put_cell, fill_row, row_at, fill_rows}
use numafac.Topology.Matrix.Entries.{Scans}
use numafac.Prelude.{
  ℕ, zero, suc, ◌+◌, ◌*◌, ◌≡◌, refl, ap, ◌∙◌, subst, none, some, List, [], ◌∷◌, ◌++◌, map,
  append_assoc, arith, length, get_elem?, set, replicate, length-append, set-append,
  get_elem?-append, ok, Array, malloc, store-ok, filled,
}

-- The rows, one after the other.
abbrev pub flat {ℓ} : {A : Type ℓ} → List (List A) → List A
flat [] = []
flat (r ∷ rs) = r ++ flat rs

-- All rows have so many entries.
abbrev pub Width {ℓ} : {A : Type ℓ} → ℕ → List (List A) → Type 0
Width w [] = Unit {0}
Width w (r ∷ rs) = (length r ≡ w) × Width w rs

module _ (fl : Floats) where
  open fl use {F, scan}

  -- The text that is left behind entries that were read.
  Scans-append :
      (fs gs : List F) (s : TextBytes)
      → Scans fl s (fs ++ gs)
      → (rest : TextBytes) × Scans fl rest gs
  Scans-append [] gs s h = (s, h)
  Scans-append (f ∷ fs) gs s (rest, e, h) = Scans-append fs gs rest h

  fill_row-Scans :
      (fs gs : List F) (s : TextBytes) (a : Array F) (k : ℕ)
      → k ≡ length a
      → (h : Scans fl s (fs ++ gs))
      → fill_row fl (length fs) k (a ++ malloc (length fs)) s
        ≡ ok (a ++ filled fs, (Scans-append fs gs s h).0)
  unfolding fill_row put_cell Scans-append
  fill_row-Scans [] gs s a k e h = refl
  fill_row-Scans (f ∷ fs) gs s a k e (rest, r, h) =
      rw
        (
          r,
          store-ok (a ++ none ∷ malloc (length fs)) k f (rw length-append (omega arith)),
          e,
          set-append a (malloc (length fs)) none (some f),
        )
        (simp append_assoc at (
          fill_row-Scans fs gs rest (a ++ some f ∷ []) (length a + 1)
            (rw length-append (omega arith)) h))

  fill_rows-Scans :
      (w : ℕ) (rows : List (List F)) (done : List (Array F)) (s : TextBytes) (k : ℕ)
      → k ≡ length done
      → Width w rows
      → Scans fl s (flat rows)
      → fill_rows fl w (length rows) k (done ++ replicate (length rows) (malloc w)) s
        ≡ ok (done ++ map filled rows)
  unfolding fill_rows
  fill_rows-Scans w [] done s k e q h = refl
  fill_rows-Scans w (r ∷ rows) done s k e q h =
      rw (row, filled_row, placed)
        (simp append_assoc at (
          fill_rows-Scans w rows (done ++ filled r ∷ []) (Scans-append r (flat rows) s h).0 (k + 1)
            (rw length-append (omega arith)) q.1 (Scans-append r (flat rows) s h).1))
    where
      row : row_at fl (done ++ malloc w ∷ replicate (length rows) (malloc w)) k ≡ ok (malloc w)
      row =
          unfold row_at in
          rw (e, get_elem?-append done (replicate (length rows) (malloc w)) (malloc w))

      filled_row : fill_row fl w 0 (malloc w) s ≡ ok (filled r, (Scans-append r (flat rows) s h).0)
      filled_row =
          subst
            (λ v. fill_row fl v 0 (malloc v) s ≡ ok (filled r, (Scans-append r (flat rows) s h).0))
            q.0 (fill_row-Scans r (flat rows) s [] 0 refl h)

      placed :
          set (done ++ malloc w ∷ replicate (length rows) (malloc w)) k (filled r)
          ≡ done ++ filled r ∷ replicate (length rows) (malloc w)
      placed =
          ap (λ j. set (done ++ malloc w ∷ replicate (length rows) (malloc w)) j (filled r)) e
          ∙ set-append done (replicate (length rows) (malloc w)) (malloc w) (filled r)

  get_elem?-left :
      (xs ys : List F) (j : ℕ) (f : F) → get_elem? xs j ≡ some f → get_elem? (xs ++ ys) j ≡ some f
  get_elem?-left [] ys j f h = cc
  get_elem?-left (x ∷ xs) ys zero f h = h
  get_elem?-left (x ∷ xs) ys (suc j) f h = get_elem?-left xs ys j f h

  get_elem?-right :
      (xs ys : List F) (j n : ℕ) → length xs ≡ n → get_elem? (xs ++ ys) (n + j) ≡ get_elem? ys j
  get_elem?-right [] ys j n e = ap (get_elem? ys) (omega arith)
  get_elem?-right (x ∷ xs) ys j zero e = absurd (omega arith)
  get_elem?-right (x ∷ xs) ys j (suc n) e =
      ap (get_elem? (x ∷ xs ++ ys)) add_suc ∙ get_elem?-right xs ys j n (omega arith)
    where
      add_suc : suc n + j ≡ suc (n + j)
      add_suc = omega arith

  -- A square matrix, fresh from `malloc`, holds the rows of the file after the two loops.
  pub fill_rows-square :
      (n : ℕ) (rows : List (List F)) (s : TextBytes)
      → length rows ≡ n
      → Width n rows
      → Scans fl s (flat rows)
      → fill_rows fl n n 0 (replicate n (malloc n)) s ≡ ok (map filled rows)
  fill_rows-square n rows s e q h =
      subst (λ m. fill_rows fl n m 0 (replicate m (malloc n)) s ≡ ok (map filled rows)) e
        (fill_rows-Scans n rows [] s 0 refl q h)

  -- Row after row, the entry of row i and column j has the index i * w + j.
  pub get_elem?-flat :
      (w : ℕ) (rows : List (List F)) (i j : ℕ) (r : List F) (f : F)
      → Width w rows
      → get_elem? rows i ≡ some r
      → get_elem? r j ≡ some f
      → get_elem? (flat rows) (i * w + j) ≡ some f
  get_elem?-flat w [] i j r f q h k = cc
  get_elem?-flat w (x ∷ rows) zero j r f q h k =
      let same : r ≡ x = cc in
      let at_j : 0 * w + j ≡ j = omega arith in
      rw at_j (get_elem?-left x (flat rows) j f (rw same at k))
  get_elem?-flat w (x ∷ rows) (suc i) j r f q h k =
      ap (get_elem? (x ++ flat rows)) index
      ∙ get_elem?-right x (flat rows) (i * w + j) w q.0
      ∙ get_elem?-flat w rows i j r f q.1 h k
    where
      index : suc i * w + j ≡ w + (i * w + j)
      index = omega arith
