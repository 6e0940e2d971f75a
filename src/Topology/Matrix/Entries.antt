-- ===== src/Topology/Matrix/Entries.antt =====
-- `na_latency`, `na_numafactor` and `na_bandwidth` return an entry of their files.

use numafac.Libc.{TextBytes, codes}
use numafac.Os.{Os, Floats}
use numafac.Topology.Matrix.{
  do_rounds, entry_bound, scanned, read_entries, entry_of, na_latency, na_numafactor, na_bandwidth,
}
use numafac.Prelude.{
  ℕ, zero, suc, ◌+◌, ◌*◌, ◌≡◌, ap, some, List, [], ◌∷◌, arith, get_elem?, pos, ◌+ℤ◌, ◌-ℤ◌, ◌*ℤ◌, ok,
}

module _ (fl : Floats) where
  open fl use {F, thousandths, scan}

  -- The text begins with these numbers, as `fscanf` reads them one after the other.
  abbrev pub Scans : TextBytes → List F → Type 0
  Scans s [] = Unit {0}
  Scans s (f ∷ fs) = (rest : TextBytes) × (scan s ≡ (some f, rest)) × Scans rest fs

  -- After k + 1 rounds the variable holds the entry of index k.
  pub read_entries-Scans :
      (fs : List F) (s : TextBytes) (k : ℕ) (x f : F)
      → Scans s fs
      → get_elem? fs k ≡ some f
      → read_entries fl (suc k) x s ≡ f
  unfolding read_entries scanned
  read_entries-Scans [] s k x f h e = cc
  read_entries-Scans (g ∷ fs) s zero x f (rest, r, h) e = rw r (cc)
  read_entries-Scans (g ∷ fs) s (suc k) x f (rest, r, h) e =
      rw r (read_entries-Scans fs rest k g f h e)

less_one : (i : ℕ) → pos (i + 1) -ℤ pos 1 ≡ pos i
unfolding ◌-ℤ◌
less_one i = ground arith

pos-* : (a b : ℕ) → pos a *ℤ pos b ≡ pos (a * b)
unfolding ◌*ℤ◌
pos-* a b = ground arith

pos-+ : (a b : ℕ) → pos a +ℤ pos b ≡ pos (a + b)
unfolding ◌+ℤ◌
pos-+ a b = ground arith

-- For nodes counted from 1, the bound is that of row node1 - 1 and column node2 - 1 of the matrix.
pub entry_bound-pos :
    (i j : ℕ) → do_rounds (entry_bound (pos (i + 1)) (pos (j + 1))) ≡ suc (i * 8 + j)
unfolding do_rounds entry_bound
entry_bound-pos i j = rw (less_one i, pos-* i 8, pos-+ (i * 8) (j + 1)) (omega arith)

module _ (fl : Floats) where
  open fl use {F, thousandths, scan}

  -- What a function answers for the nodes i + 1 and j + 1, if the file that it opens begins with
  -- these entries: the one of row i and column j.
  pub entry_of-Scans :
      (s : TextBytes) (es : List F) (x f : F) (i j : ℕ)
      → Scans fl s es
      → get_elem? es (i * 8 + j) ≡ some f
      → entry_of fl (some s) x (entry_bound (pos (i + 1)) (pos (j + 1))) ≡ ok f
  unfolding entry_of
  entry_of-Scans s es x f i j h e =
      rw (entry_bound-pos i j) (ap ok (read_entries-Scans fl es s (i * 8 + j) x f h e))

  -- The file exists, and its text begins with these numbers.
  pub record Holds (os : Os) (path : TextBytes) (es : List F) : Type 0 where
    pub text : TextBytes
    pub opened : os.fopen path ≡ some text
    pub entries : Scans fl text es

  -- With nodes counted from 1, `na_latency`, `na_numafactor` and `na_bandwidth` each return the
  -- entry of row node1 and column node2 of the 8 by 8 matrix in their own file.
  pub node_entries :
      (os : Os) (ls ns bs : List F) (i j : ℕ) (l n b : F)
      → Holds os (codes "/tmp/output/latency_lmbench.minas") ls
      → Holds os (codes "/tmp/output/numafactor_lmbench.minas") ns
      → Holds os (codes "/tmp/output/bandwidth.minas") bs
      → get_elem? ls (i * 8 + j) ≡ some l
      → get_elem? ns (i * 8 + j) ≡ some n
      → get_elem? bs (i * 8 + j) ≡ some b
      → (na_latency fl os (pos (i + 1)) (pos (j + 1)) ≡ ok l)
        × (na_numafactor fl os (pos (i + 1)) (pos (j + 1)) ≡ ok n)
        × (na_bandwidth fl os (pos (i + 1)) (pos (j + 1)) ≡ ok b)
  unfolding na_latency na_numafactor na_bandwidth
  node_entries os ls ns bs i j l n b hl hn hb el en eb = (
    rw hl.opened (entry_of-Scans hl.text ls (thousandths 1000) l i j hl.entries el),
    rw hn.opened (entry_of-Scans hn.text ns (thousandths 1000) n i j hn.entries en),
    rw hb.opened (entry_of-Scans hb.text bs (thousandths 0) b i j hb.entries eb),
  )
