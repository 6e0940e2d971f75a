-- ===== src/Topology/Neighbors/Rows.antt =====
-- `na_get_nneighbors` returns a row of the file of neighbours, and never returns without that file.
use numafac.Libc.{codes}
use numafac.Topology.Matrix.Fill.{flat, Width}
use numafac.Topology.Neighbors.{Os}
use numafac.Topology.Neighbors.{neighbors_in}
use numafac.Topology.Neighbors.{na_get_maxneighbors}
use numafac.Topology.Neighbors.{from_factors}
use numafac.Topology.Neighbors.{neighbors_from}
use numafac.Topology.Neighbors.{neighbor_rows}
use numafac.Topology.Neighbors.{na_get_nneighbors}
use numafac.Libc.{TextBytes, scan_int}
use numafac.Topology.Neighbors.{kept, put_neighbor, neighbor_row}
use numafac.Prelude.{
  ℕ, zero, suc, ◌+◌, ◌<◌, ◌≡◌, refl, ap, ◌∙◌, subst, ◌≢◌, inl, inr, true, false, Option, none, some,
  List, [], ◌∷◌, ◌++◌, append_assoc, arith, Option-cases, length, get_elem?, length-append,
  set-append, ℤ, pos, eqb_ℤ, eqb_ℤ_refl, Fault, null_pointer, indeterminate, ok, fault, Array,
  malloc, store-ok, filled,
}

-- The text begins with these integers, as `fscanf` reads them one after the other.
abbrev pub ScansInts : TextBytes → List ℤ → Type 0
ScansInts s [] = Unit {0}
ScansInts s (n ∷ ns) = (rest : TextBytes) × (scan_int s ≡ (some n, rest)) × ScansInts rest ns

left : (ns ms : List ℤ) (s : TextBytes) → ScansInts s (ns ++ ms) → (r : TextBytes) × ScansInts r ms
left [] ms s h = (s, h)
left (n ∷ ns) ms s (rest, e, h) = left ns ms rest h

-- What `temp` holds behind a row.
last_of : Option ℤ → List ℤ → Option ℤ
last_of t [] = t
last_of t (n ∷ ns) = last_of (some n) ns

neighbor_row-hit :
    (ns ms : List ℤ) (s : TextBytes) (a : Array ℤ) (k : ℕ) (t : Option ℤ)
    → k ≡ length a
    → (h : ScansInts s (ns ++ ms))
    → neighbor_row true (length ns) k t s (a ++ malloc (length ns))
      ≡ ok (last_of t ns, (left ns ms s h).0, a ++ filled ns)
unfolding neighbor_row put_neighbor kept left last_of
neighbor_row-hit [] ms s a k t e h = refl
neighbor_row-hit (n ∷ ns) ms s a k t e (rest, r, h) =
    rw
      (
        r,
        store-ok (a ++ none ∷ malloc (length ns)) k n (rw length-append (omega arith)),
        e,
        set-append a (malloc (length ns)) none (some n),
      )
      (simp append_assoc at (
        neighbor_row-hit ns ms rest (a ++ some n ∷ []) (length a + 1) (some n)
          (rw length-append (omega arith)) h))

neighbor_row-miss :
    (ns ms : List ℤ) (s : TextBytes) (a : Array ℤ) (k : ℕ) (t : Option ℤ)
    → (h : ScansInts s (ns ++ ms))
    → neighbor_row false (length ns) k t s a ≡ ok (last_of t ns, (left ns ms s h).0, a)
unfolding neighbor_row put_neighbor kept left last_of
neighbor_row-miss [] ms s a k t h = refl
neighbor_row-miss (n ∷ ns) ms s a k t (rest, r, h) =
    rw r (neighbor_row-miss ns ms rest a (k + 1) (some n) h)

-- The same at rows of a given width.
hit_row :
    (w : ℕ) (r ms : List ℤ) (s : TextBytes) (t : Option ℤ)
    → length r ≡ w
    → (h : ScansInts s (r ++ ms))
    → neighbor_row true w 0 t s (malloc w) ≡ ok (last_of t r, (left r ms s h).0, filled r)
hit_row w r ms s t e h =
    subst
      (λ v. neighbor_row true v 0 t s (malloc v) ≡ ok (last_of t r, (left r ms s h).0, filled r)) e
      (neighbor_row-hit r ms s [] 0 t refl h)

miss_row :
    (w : ℕ) (r ms : List ℤ) (s : TextBytes) (t : Option ℤ) (a : Array ℤ)
    → length r ≡ w
    → (h : ScansInts s (r ++ ms))
    → neighbor_row false w 0 t s a ≡ ok (last_of t r, (left r ms s h).0, a)
miss_row w r ms s t a e h =
    subst (λ v. neighbor_row false v 0 t s a ≡ ok (last_of t r, (left r ms s h).0, a)) e
      (neighbor_row-miss r ms s a 0 t h)

other_row : (i c : ℕ) → i ≢ c → eqb_ℤ (pos i) (pos c) ≡ false
unfolding eqb_ℤ
other_row i c ne = ground (arith, ne)

rows_after :
    (w c : ℕ) (rows : List (List ℤ)) (i : ℕ) (t : Option ℤ) (s : TextBytes) (a : Array ℤ)
    → c < i
    → Width w rows
    → ScansInts s (flat rows)
    → neighbor_rows (pos c) w (length rows) i t s a ≡ ok a
unfolding neighbor_rows
rows_after w c [] i t s a p q h = refl
rows_after w c (r ∷ rows) i t s a p q h =
    rw (other_row i c (λ e. omega arith), miss_row w r (flat rows) s t a q.0 h)
      (rows_after w c rows (i + 1) (last_of t r) (left r (flat rows) s h).0 a (omega arith) q.1
        (left r (flat rows) s h).1)

rows_to :
    (w c : ℕ) (rows : List (List ℤ)) (i k : ℕ) (t : Option ℤ) (s : TextBytes) (r : List ℤ)
    → i + k ≡ c
    → get_elem? rows k ≡ some r
    → Width w rows
    → ScansInts s (flat rows)
    → neighbor_rows (pos c) w (length rows) i t s (malloc w) ≡ ok (filled r)
unfolding neighbor_rows
rows_to w c [] i k t s r e g q h = cc
rows_to w c (x ∷ rows) i zero t s r e g q h =
    let here : i ≡ c = omega arith in
    let same : x ≡ r = cc in
    rw (here, eqb_ℤ_refl (pos c), hit_row w x (flat rows) s t q.0 h)
      (rows_after w c rows (c + 1) (last_of t x) (left x (flat rows) s h).0 (filled x) (omega arith)
          q.1 (left x (flat rows) s h).1
        ∙ ap (λ l. ok (filled l)) same)
rows_to w c (x ∷ rows) i (suc k) t s r e g q h =
    rw (other_row i c (λ p. omega arith), miss_row w x (flat rows) s t (malloc w) q.0 h)
      (rows_to w c rows (i + 1) k (last_of t x) (left x (flat rows) s h).0 r (omega arith) g q.1
        (left x (flat rows) s h).1)

-- The file of neighbours holds their number `w` and then nine rows of `w` numbers: for a node from
-- 0 to 8, `na_get_nneighbors` returns the row of that index. Without the file the function does not
-- return, be there a file of NUMA factors (then it uses a number of neighbours that it could not
-- read) or not (then it closes a file that is not open).
pub na_get_nneighbors_lem :
    (os : Os) (c w : ℕ) (rows : List (List ℤ)) (r : List ℤ) (s : TextBytes)
    → length rows ≡ 9
    → Width w rows
    → ScansInts s (pos w ∷ flat rows)
    → get_elem? rows c ≡ some r
    → (os.fopen (codes "/tmp/output/numaneighbor.minas") ≡ some s
        → na_get_nneighbors os (pos c) ≡ ok (filled r))
      × (os.fopen (codes "/tmp/output/numaneighbor.minas") ≡ none
          → (f : Fault) × (na_get_nneighbors os (pos c) ≡ fault f))
unfolding na_get_nneighbors neighbors_from from_factors na_get_maxneighbors neighbors_in kept
na_get_nneighbors_lem os c w rows r s e q (rest, h, hs) g = (
  λ o. rw (o, h) (nine rest hs),
  λ o. elim (Option-cases (os.fopen (codes "/tmp/output/numafactor_lmbench.minas"))) [
    | inl gone ↦ (null_pointer, rw (o, gone))
    | inr (t, there) ↦ (indeterminate, rw (o, there, o))
  ],
)
  where
    nine :
        (rest : TextBytes)
        → ScansInts rest (flat rows)
        → neighbor_rows (pos c) w 9 0 none rest (malloc w) ≡ ok (filled r)
    nine rest hs = rw (← e) (rows_to w c rows 0 c none rest r (omega arith) g q hs)
