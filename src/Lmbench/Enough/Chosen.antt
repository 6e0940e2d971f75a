-- ===== src/Lmbench/Enough/Chosen.antt =====
-- The interval that compute_enough chooses was met in a measurement.
use numafac.Lmbench.Enough.{uncalibrated}
use numafac.Lmbench.Enough.{possibilities}
use mathlib.Core.List.{mem-cons_self}
use numafac.Lmbench.Enough.{compute_enough}
use mathlib.Core.List.{mem-cons_of_mem}
use mathlib.Core.List.{Mem}
use numafac.Lmbench.Enough.{test_work}
use numafac.Lmbench.Enough.{find_n}
use numafac.Lmbench.Enough.{test_time}
use numafac.Lmbench.Enough.{first_accurate}
use numafac.Lmbench.Enough.{test_rounds}
use numafac.Lmbench.Results.Collected.{IsStrict}
use numafac.Lmbench.Enough.{Points, Calibration, time_n}
use numafac.Prelude.{
  ℕ, zero, suc, ◌+◌, ◌*◌, ◌≤◌, ◌≡◌, refl, ◌≢◌, ◌⊎◌, inl, inr, Bool, true, false, none, List, [],
  ◌∷◌, arith, ◌==◌, Bool-cases, length, ℤ, pos, Run, ok, Returns, Returns_mono, Returns-bind,
  if_holds,
}
use numafac.Lmbench.Enough.Accurate.{
  IsFastest, IsMeasured, Spent, Finds, IsReady, time_n-IsFastest, find_n-Finds,
}

module _ (points : Points) (duration : ℕ → ℕ → ℕ) (strict : IsStrict points.above) where
  -- The same statics, after some calls.
  abbrev Keeps : ℕ → Calibration → Calibration → Type 0
  Keeps k c c' = (c'.work ≡ c.work) × (c'.usecs ≡ c.usecs) × Spent points duration strict k c c'

  test_rounds-Keeps :
      (rounds i n baseline : ℕ) (c : Calibration)
      → Returns
          (test_rounds points duration rounds i n baseline c)
          (λ o. Keeps (rounds * 10) c (o.1))
  unfolding test_rounds
  test_rounds-Keeps zero i n baseline c = (refl, refl, omega arith)
  test_rounds-Keeps (suc rounds) i n baseline c =
      let d : Calibration = record c { calls = c.calls + 10 } in
      Returns-bind (IsFastest points duration strict (c.calls) (points.scaled_work i n)) _
        (time_n points duration (c.calls) (points.scaled_work i n)) _
        (time_n-IsFastest points duration strict (c.calls) (points.scaled_work i n))
        (λ u h.
          if_holds
            (λ (r : Run (Bool × Calibration)). Returns r (λ o. Keeps (suc rounds * 10) c (o.1)))
            (points.differs _ _) (λ _. (refl, refl, omega arith))
            (λ _.
              Returns_mono (test_rounds points duration rounds (i + 1) n baseline d)
                (λ o (w, u, s). (w, u, omega (arith, s)))
                (test_rounds-Keeps rounds (i + 1) n baseline d)))

  test_work-Keeps :
      (n : ℕ) (c : Calibration)
      → Returns (test_work points duration n c) (λ o. Keeps 40 c (o.1) × ((o.0 ≡ false) ⊎ (n ≢ 0)))
  unfolding test_work
  test_work-Keeps n c = elim (Bool-cases (n == 0)) [
    | inl e ↦ rw e ((refl, refl, omega arith), inl refl)
    | inr e ↦
        let d : Calibration = record c { calls = c.calls + 10 } in
        rw e (
          Returns-bind (IsFastest points duration strict (c.calls) n) _
            (time_n points duration (c.calls) n) _
            (time_n-IsFastest points duration strict (c.calls) n)
            (λ baseline h.
              Returns_mono (test_rounds points duration 3 0 n baseline d)
                (λ o (w, u, s). ((w, u, omega (arith, s)), inr (λ z. ground (arith, e, z))))
                (test_rounds-Keeps 3 0 n baseline d)))
  ]

  IsMeasured-Keeps :
      (k : ℕ) (c d : Calibration)
      → IsMeasured points duration strict c
      → Keeps k c d
      → IsMeasured points duration strict d
  IsMeasured-Keeps k c d (i, l, f) (w, u, s) = (i, omega (arith, l, s), rw (w, u) f)

  -- What test_time gives.
  abbrev Tests : ℕ → Bool → Calibration → Type 0
  Tests enough b c =
      IsMeasured points duration strict c × ((b ≡ false) ⊎ (points.near enough (c.usecs) ≡ true))

  test_time-Tests :
      (enough : ℕ) (c : Calibration)
      → IsReady points duration strict c
      → Returns
          (test_time points duration enough c)
          (λ o. Tests enough (o.0) (o.1) × Spent points duration strict 150 c (o.1))
  unfolding test_time
  test_time-Tests enough c h =
      Returns-bind
        (λ o.
          Finds points duration strict enough (o.0) (o.1)
          × Spent points duration strict 110 c (o.1))
        _ (find_n points duration enough c) _ (find_n-Finds points duration strict enough c h)
        (λ (n, d) ((m, f), s).
          Returns_mono (test_work points duration n d)
            (λ o (k, t). (
              (IsMeasured-Keeps 40 d (o.1) m k, near_or_not enough n d o f k t),
              omega (arith, s, k),
            ))
            (test_work-Keeps n d))
    where
      near_or_not :
          (enough n : ℕ) (d : Calibration) (o : Bool × Calibration)
          → (n ≡ 0) ⊎ ((n ≡ d.work) × (points.near enough (d.usecs) ≡ true))
          → Keeps 40 d (o.1)
          → (o.0 ≡ false) ⊎ (n ≢ 0)
          → (o.0 ≡ false) ⊎ (points.near enough (o.1.usecs) ≡ true)
      near_or_not enough n d o f k (inl b) = inl b
      near_or_not enough n d o (inl z) k (inr p) = elim (p z) [ ]
      near_or_not enough n d o (inr (w, e)) (x, u, s) (inr p) = inr (rw u e)

  -- A possibility near to which an interval was measured, or the default.
  abbrev pub IsChosen : List ℕ → ℤ → Calibration → Type 0
  IsChosen ps e c =
      (e ≡ pos 1_000_000)
      ⊎ ((p : ℕ) × Mem p ps
          × (e ≡ pos p)
          × (points.near p (c.usecs) ≡ true)
          × IsMeasured points duration strict c)

  IsChosen-later :
      (p : ℕ) (ps : List ℕ) (e : ℤ) (c : Calibration) → IsChosen ps e c → IsChosen (p ∷ ps) e c
  IsChosen-later p ps e c (inl d) = inl d
  IsChosen-later p ps e c (inr (q, m, x, y, z)) = inr (q, mem-cons_of_mem p m, x, y, z)

  -- At the first possibility.
  first-IsChosen :
      (p : ℕ) (ps : List ℕ) (c : Calibration)
      → ((d : Calibration)
          → IsReady points duration strict d
          → Returns (first_accurate points duration ps d) (λ o.
            IsChosen ps (o.0) (o.1) × Spent points duration strict (length ps * 150) d (o.1)))
      → (a : Bool × Calibration) → Tests p (a.0) (a.1) × Spent points duration strict 150 c (a.1)
      → Returns {A = ℤ × Calibration}
          (elim (a.0) [ true ↦ ok (pos p, a.1) | false ↦ first_accurate points duration ps (a.1) ])
          (λ o.
            IsChosen (p ∷ ps) (o.0) (o.1)
            × Spent points duration strict (suc (length ps) * 150) c (o.1))
  first-IsChosen p ps c rest (true, d) ((m, inl f), s) = cc
  first-IsChosen p ps c rest (true, d) ((m, inr e), s) =
      (inr (p, mem-cons_self, refl, e, m), omega (arith, s))
  first-IsChosen p ps c rest (false, d) ((m, t), s) =
      Returns_mono (first_accurate points duration ps d)
        (λ o (x, u). (IsChosen-later p ps (o.0) (o.1) x, omega (arith, s, u))) (rest d (inr m))

  first_accurate-IsChosen :
      (ps : List ℕ) (c : Calibration)
      → IsReady points duration strict c
      → Returns
          (first_accurate points duration ps c)
          (λ o. IsChosen ps (o.0) (o.1) × Spent points duration strict (length ps * 150) c (o.1))
  unfolding first_accurate
  first_accurate-IsChosen [] c h = (inl refl, omega arith)
  first_accurate-IsChosen (p ∷ ps) c h =
      Returns-bind (λ o. Tests p (o.0) (o.1) × Spent points duration strict 150 c (o.1)) _
        (test_time points duration p c) _ (test_time-Tests p c h)
        (first-IsChosen p ps c (first_accurate-IsChosen ps))

  -- If the comparison of measures is a strict weak order, and ENOUGH is not set: whatever the clock
  -- gives, compute_enough returns after at most 600 measurements, and stores nothing past its
  -- results. It returns 1000000, or one of its possibilities, and then the least time of ten
  -- measurements with the work that find_N ended with was within 2 percent of that.
  pub compute_enough-IsChosen :
      Returns
        (compute_enough points duration none)
        (λ (e, c). IsChosen possibilities e c × (c.calls ≤ 600))
  unfolding compute_enough
  compute_enough-IsChosen =
      Returns_mono (first_accurate points duration possibilities uncalibrated)
        (λ o (x, s). (x, omega (arith, s)))
        (first_accurate-IsChosen possibilities uncalibrated (inl refl))
