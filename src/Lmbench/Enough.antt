-- ===== src/Lmbench/Enough.antt =====
-- lmbench3/src/lib_timing.c: how long a benchmark must run for its time to be accurate.
pub mod Accurate
pub mod Chosen
use numafac.Libc.{TextBytes, atoi}
use numafac.Lmbench.Results.{
  Measure, Results, tries, insertinit, insertsort, save_median, save_minimum,
}
use numafac.Prelude.{
  ℕ, zero, suc, ◌+◌, ◌-◌, ◌*◌, ◌%◌, ◌^◌, Bool, true, false, Option, none, some, List, [], ◌∷◌, ltb,
  ◌==◌, if◌then◌else◌, ℤ, pos, ltb_ℤ, Run, ok, ◌>>=◌, malloc,
}

-- Arithmetic of doubles: 0.98 * enough < usecs && usecs < 1.02 * enough; n / usecs * enough + 1; N
-- and a time, by a test point; diff / expected > 0.0025; and the comparison of insertsort.
pub record Points : Type 0 where
  pub near : ℕ → ℕ → Bool
  pub rescaled : ℕ → ℕ → ℕ → ℕ
  pub scaled_work : ℕ → ℕ → ℕ
  pub expected : ℕ → ℕ → ℕ
  pub differs : ℕ → ℕ → Bool
  pub above : Measure → Measure → Bool

-- The static N and usecs of find_N, and how often `duration` was called.
pub record Calibration : Type 0 where
  pub work : ℕ
  pub usecs : ℕ
  pub calls : ℕ

-- `duration i n` is what call number i of `duration` measures at N = n.
module _ (points : Points) (duration : ℕ → ℕ → ℕ) where
  -- for (i = 1; i < TRIES; ++i), with the rounds left.
  unfoldable pub time_rounds : ℕ → ℕ → ℕ → Results → Run Results
  time_rounds zero calls n r = ok r
  time_rounds (suc rounds) calls n r = do
    r ← insertsort points.above (duration calls n) n r
    time_rounds rounds (calls + 1) n r

  -- time_N; set_results calls save_median.
  unfoldable pub time_n : ℕ → ℕ → Run ℕ
  unfolding insertinit save_median save_minimum
  time_n calls n = do
    r ← time_rounds (tries - 1) calls n (insertinit record { count = 0; cells = malloc tries })
    middle ← save_median r
    least ← save_minimum r
    ok (least.0)

  -- usecs = time_N(N).
  unfoldable pub timed_at : ℕ → ℕ → Run Calibration
  timed_at n calls = do
    u ← time_n calls n
    ok record { work = n; usecs = u; calls = calls + (tries - 1) }

  -- The next N.
  unfoldable pub next_work : ℕ → Calibration → ℕ
  next_work enough c =
      if ltb (c.usecs) 1000 then c.work * 10 % 2 ^ 64 else points.rescaled (c.work) (c.usecs) enough

  -- for (tries = 0; tries < 10; ++tries), with the rounds left.
  unfoldable pub find_rounds : ℕ → ℕ → Calibration → Run (ℕ × Calibration)
  find_rounds zero enough c = ok (0, c)
  find_rounds (suc rounds) enough c =
      if points.near enough (c.usecs)
      then ok (c.work, c)
      else (timed_at (next_work enough c) (c.calls) >>= λ c'. find_rounds rounds enough c')

  unfoldable pub find_n : ℕ → Calibration → Run (ℕ × Calibration)
  find_n enough c =
      if c.usecs == 0
      then (timed_at (c.work) (c.calls) >>= λ c'. find_rounds 10 enough c')
      else find_rounds 10 enough c

  -- for (i = 0; i < sizeof(test_points) / sizeof(double); ++i), with the rounds left.
  unfoldable pub test_rounds : ℕ → ℕ → ℕ → ℕ → Calibration → Run (Bool × Calibration)
  test_rounds zero i n baseline c = ok (true, c)
  test_rounds (suc rounds) i n baseline c = do
    usecs ← time_n (c.calls) (points.scaled_work i n)
    let expected = points.expected i baseline
    let diff = if ltb usecs expected then expected - usecs else usecs - expected
    let c' : Calibration = record c { calls = c.calls + (tries - 1) }
    let rest = test_rounds rounds (i + 1) n baseline c'
    if points.differs diff expected then ok (false, c') else rest

  -- test_time, behind find_N.
  unfoldable pub test_work : ℕ → Calibration → Run (Bool × Calibration)
  test_work n c =
      if n == 0
      then ok (false, c)
      else (time_n (c.calls) n >>= λ baseline.
          test_rounds 3 0 n baseline record c { calls = c.calls + (tries - 1) })

  unfoldable pub test_time : ℕ → Calibration → Run (Bool × Calibration)
  test_time enough c = do (n, c) ← find_n enough c; test_work n c

  -- The loop over the possibilities, from one on.
  unfoldable pub first_accurate : List ℕ → Calibration → Run (ℤ × Calibration)
  first_accurate [] c = ok (pos 1_000_000, c)
  first_accurate (p ∷ ps) c = do
    (accurate, c) ← test_time p c
    elim accurate [ true ↦ ok (pos p, c) | false ↦ first_accurate ps c ]

abbrev pub possibilities : List ℕ
possibilities = 5000 ∷ 10_000 ∷ 50_000 ∷ 100_000 ∷ []

abbrev pub uncalibrated : Calibration
uncalibrated = record { work = 10_000; usecs = 0; calls = 0 }

-- compute_enough, with what getenv("ENOUGH") gives, when it is first called.
unfoldable pub compute_enough : Points → (ℕ → ℕ → ℕ) → Option TextBytes → Run (ℤ × Calibration)
compute_enough points duration (some text) = ok (atoi text, uncalibrated)
compute_enough points duration none = first_accurate points duration possibilities uncalibrated

-- get_enough, with long_enough.
unfoldable pub get_enough : ℤ → ℤ → ℤ
get_enough long_enough e = if ltb_ℤ e long_enough then long_enough else e
