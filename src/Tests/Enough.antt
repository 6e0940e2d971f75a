-- ===== src/Tests/Enough.antt =====
-- The theorem on compute_enough at a clock, and a run.
use numafac.Lmbench.Results.{
  insertinit, insertsort, insert_measure, find_place, shift_down, save_median, save_minimum,
  middle_mean, mean_of,
}
use numafac.Lmbench.Enough.{
  Points, time_rounds, time_n, timed_at, next_work, find_rounds, find_n, test_rounds, test_work,
  test_time, first_accurate, possibilities, uncalibrated, compute_enough,
}
use numafac.Lmbench.Enough.Chosen.{IsChosen, compute_enough-IsChosen}
use numafac.Tests.Timing.{slower, slower-IsStrict}
use numafac.Prelude.{
  ℕ, zero, suc, ◌+◌, ◌*◌, ◌/◌, ◌≤◌, ◌≡◌, refl, ◌&&◌, none, ltb, pos, ok, Returns, load, store,
}

-- N scaled by test_points[i], in thousandths.
abbrev at_point : ℕ → ℕ → ℕ
at_point zero n = n * 1015 / 1000
at_point (suc zero) n = n * 1020 / 1000
at_point (suc (suc i)) n = n * 1035 / 1000

-- Points in whole numbers.
abbrev thousandths : Points
thousandths = record {
  near = λ e u. ltb (98 * e) (100 * u) && ltb (100 * u) (102 * e);
  rescaled = λ n u e. n * e / u + 1;
  scaled_work = at_point;
  expected = at_point;
  differs = λ d e. ltb (25 * e) (10_000 * d);
  above = slower;
}

-- A machine that takes 3 microseconds for 4 rounds.
abbrev machine : ℕ → ℕ → ℕ
machine i n = n * 3 / 4

compute_enough-IsChosen_example :
    Returns
      (compute_enough thousandths machine none)
      (λ (e, c). IsChosen thousandths machine slower-IsStrict possibilities e c × (c.calls ≤ 600))
compute_enough-IsChosen_example = compute_enough-IsChosen thousandths machine slower-IsStrict

-- The work that takes 5000 microseconds on it, and the calls of `duration` so far.
machine_work :
    find_n thousandths machine 5000 uncalibrated
    ≡ ok (6667, record { work = 6667; usecs = 5000; calls = 20 })
unfolding find_n find_rounds next_work timed_at time_n time_rounds insertsort insert_measure
    find_place shift_down save_median save_minimum insertinit middle_mean mean_of load store
machine_work = refl

-- Its times are in proportion, and so this is enough.
machine_enough :
    compute_enough thousandths machine none
    ≡ ok (pos 5000, record { work = 6667; usecs = 5000; calls = 60 })
unfolding compute_enough first_accurate test_time test_work test_rounds find_n find_rounds next_work
    timed_at time_n time_rounds insertsort insert_measure find_place shift_down save_median
    save_minimum insertinit middle_mean mean_of load store
machine_enough = refl
