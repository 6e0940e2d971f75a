-- ===== src/Lmbench/Results.antt =====
-- lmbench3/src/lib_timing.c: the measured times, in descending order of the time for an iteration.
pub mod Shifting
pub mod Insertion
pub mod Collected
use numafac.Prelude.{
  ℕ, zero, suc, ◌+◌, ◌-◌, ◌/◌, ◌%◌, ◌^◌, Bool, true, false, List, [], ◌∷◌, ◌==◌, if◌then◌else◌, ℤ,
  pos, pos_part, ltb_ℤ, Run, ok, ◌>>=◌, Array, load, store,
}

-- The TRIES cells of a result_t.
abbrev pub tries : ℕ
tries = 11

-- A time in microseconds, and the iterations that took it: a value_t.
abbrev pub Measure : Type 0
Measure = ℕ × ℕ

-- result_t: N, and the cells of v that were allocated.
pub record Results : Type 0 where
  pub count : ℕ
  pub cells : Array Measure

-- The cells of v in sizeof_result(repetitions) bytes.
unfoldable pub sizeof_result : ℤ → ℕ
sizeof_result repetitions =
    if ltb_ℤ (pos tries) repetitions then tries + (pos_part repetitions - tries) else tries

unfoldable pub insertinit : Results → Results
insertinit r = record r { count = 0 }

-- for (j = r->N; j > i; --j) r->v[j] = r->v[j - 1]; with the rounds left.
unfoldable pub shift_down : ℕ → ℕ → Array Measure → Run (Array Measure)
shift_down zero j v = ok v
shift_down (suc n) j v = do x ← load v (j - 1); v ← store v j x; shift_down n (j - 1) v

-- `above m x` is the test m.u/(double)m.n > x.u/(double)x.n, of double arithmetic.
module _ (above : Measure → Measure → Bool) where
  -- The index at which the outer loop breaks off, or N, from `i` on, with the rounds left.
  unfoldable pub find_place : ℕ → ℕ → Measure → Array Measure → Run ℕ
  find_place zero i m v = ok i
  find_place (suc n) i m v = do
    x ← load v i
    elim (above m x) [ true ↦ ok i | false ↦ find_place n (i + 1) m v ]

  -- insertsort of a time that is not 0.
  unfoldable pub insert_measure : Measure → Results → Run Results
  insert_measure m r = do
    i ← find_place (r.count) 0 m (r.cells)
    v ← shift_down (r.count - i) (r.count) (r.cells)
    v ← store v i m
    ok record { count = r.count + 1; cells = v }

  unfoldable pub insertsort : ℕ → ℕ → Results → Run Results
  insertsort u n r = if u == 0 then ok r else insert_measure (u, n) r

  -- The loop of the parent over the results of a child, and of l_overhead over its measures.
  unfoldable pub insert_all : List Measure → Results → Run Results
  insert_all [] r = ok r
  insert_all ((u, n) ∷ ms) r = do r ← insertsort u n r; insert_all ms r

-- What settime and save_n are given: the time, and the iterations.
unfoldable pub save_minimum : Results → Run Measure
save_minimum r = if r.count == 0 then ok (0, 1) else load (r.cells) (r.count - 1)

-- The mean of two cells, in uint64.
unfoldable pub mean_of : Measure → Measure → Measure
mean_of (u, n) (u', n') = ((u + u') % 2 ^ 64 / 2, (n + n') % 2 ^ 64 / 2)

unfoldable pub middle_mean : Results → ℕ → Run Measure
unfolding mean_of
middle_mean r i = do x ← load (r.cells) i; y ← load (r.cells) (i - 1); ok (mean_of x y)

unfoldable pub save_median : Results → Run Measure
unfolding middle_mean
save_median r =
    if r.count == 0
    then ok (0, 1)
    else if r.count % 2 == 0
    then middle_mean r (r.count / 2)
    else load (r.cells) (r.count / 2)
