-- ===== src/Lmbench/Enough/Accurate.antt =====
-- The work that find_N finds takes the time that it looks for.
use numafac.Lmbench.Enough.{find_n}
use mathlib.Core.List.Perm
use numafac.Lmbench.Results.{Measure, Results, insertinit, insertsort, insert_all, save_minimum}
use numafac.Lmbench.Results.Collected.{
  IsStrict, IsMinimum, nonzero, CollectsWith, insert_all-Collects, save_minimum-Collects,
}
use numafac.Lmbench.Parent.Merging.{save_median-median}
use numafac.Lmbench.Enough.{
  Points, Calibration, time_rounds, time_n, timed_at, next_work, find_rounds,
}
use numafac.Prelude.{
  ℕ, zero, suc, ◌+◌, ◌*◌, ◌≤◌, ◌≡◌, refl, ◌⊎◌, inl, inr, true, false, List, [], ◌∷◌, ◌++◌,
  append-nil, arith, ◌==◌, Bool-cases, Returns, malloc, Returns_mono, Returns-bind, bind_cong,
}

module _ (points : Points) (duration : ℕ → ℕ → ℕ) where
  -- What so many calls of `duration` at n give, from this call on.
  abbrev pub measures : ℕ → ℕ → ℕ → List Measure
  measures zero calls n = []
  measures (suc k) calls n = (duration calls n, n) ∷ measures k (calls + 1) n

  time_rounds-insert_all :
      (k calls n : ℕ) (r : Results)
      → time_rounds points duration k calls n r ≡ insert_all points.above (measures k calls n) r
  unfolding time_rounds insert_all
  time_rounds-insert_all zero calls n r = refl
  time_rounds-insert_all (suc k) calls n r =
      bind_cong (insertsort points.above (duration calls n) n r) _ _
        (λ r'. time_rounds-insert_all k (calls + 1) n r')

  module _ (strict : IsStrict points.above) where
    -- The least time that is not 0 of the ten calls from i on, or 0 if all are.
    abbrev pub IsFastest : ℕ → ℕ → ℕ → Type 0
    IsFastest i n u = (k : ℕ) × IsMinimum points.above strict (nonzero (measures 10 i n)) (u, k)

    -- The static usecs of find_N is the time of its static N.
    abbrev pub IsMeasured : Calibration → Type 0
    IsMeasured c = (i : ℕ) × (i + 10 ≤ c.calls) × IsFastest i (c.work) (c.usecs)

    pub time_n-IsFastest :
        (calls n : ℕ) → Returns (time_n points duration calls n) (IsFastest calls n)
    unfolding time_n insertinit
    time_n-IsFastest calls n =
        let ms = measures 10 calls n in
        let empty : Results = record { count = 0; cells = malloc 11 } in
        Returns-bind (CollectsWith points.above strict 1 (nonzero ms ++ [])) (IsFastest calls n)
          (time_rounds points duration 10 calls n empty) _
          (rw time_rounds-insert_all (
            insert_all-Collects points.above strict ms empty [] 1 11
              record {
                list = [];
                held = record { counted = refl; held = refl };
                descending = tt;
                same = Perm.refl [];
              }
              (omega arith)))
          (λ r (k, c, l). rw (save_median-median points.above r (c.list) k (c.held)) (
            Returns-bind (IsMinimum points.above strict (nonzero ms)) (IsFastest calls n)
              (save_minimum r) _
              (rw append-nil at
                (save_minimum-Collects points.above strict (nonzero ms ++ []) r (k, c)))
              (λ m h. (m.1, h))))

    -- After some calls of `duration`.
    abbrev pub Spent : ℕ → Calibration → Calibration → Type 0
    Spent k c c' = (c.calls ≤ c'.calls) × (c'.calls ≤ c.calls + k)

    timed_at-IsMeasured :
        (n calls : ℕ)
        → Returns (timed_at points duration n calls) (λ c. IsMeasured c × (c.calls ≡ calls + 10))
    unfolding timed_at
    timed_at-IsMeasured n calls =
        Returns-bind (IsFastest calls n) _ (time_n points duration calls n) _
          (time_n-IsFastest calls n) (λ u h. ((calls, omega arith, h), refl))

    -- What find_N gives.
    abbrev pub Finds : ℕ → ℕ → Calibration → Type 0
    Finds enough n c =
        IsMeasured c × ((n ≡ 0) ⊎ ((n ≡ c.work) × (points.near enough (c.usecs) ≡ true)))

    find_rounds-Finds :
        (rounds enough : ℕ) (c : Calibration)
        → IsMeasured c
        → Returns
            (find_rounds points duration rounds enough c)
            (λ o. Finds enough (o.0) (o.1) × Spent (rounds * 10) c (o.1))
    unfolding find_rounds
    find_rounds-Finds zero enough c h = ((h, inl refl), omega arith)
    find_rounds-Finds (suc rounds) enough c h = elim (Bool-cases (points.near enough (c.usecs))) [
      | inl e ↦ rw e ((h, inr (refl, e)), omega arith)
      | inr e ↦ rw e (
          Returns-bind (λ d. IsMeasured d × (d.calls ≡ c.calls + 10)) _
            (timed_at points duration (next_work points duration enough c) (c.calls)) _
            (timed_at-IsMeasured (next_work points duration enough c) (c.calls))
            (λ d (m, s).
              Returns_mono (find_rounds points duration rounds enough d)
                (λ o (f, t). (f, omega (arith, s, t))) (find_rounds-Finds rounds enough d m)))
    ]

    -- Before find_N: nothing was measured, or its statics are measured.
    abbrev pub IsReady : Calibration → Type 0
    IsReady c = (c.usecs ≡ 0) ⊎ IsMeasured c

    pub find_n-Finds :
        (enough : ℕ) (c : Calibration)
        → IsReady c
        → Returns
            (find_n points duration enough c)
            (λ o. Finds enough (o.0) (o.1) × Spent 110 c (o.1))
    unfolding find_n
    find_n-Finds enough c h = elim (Bool-cases (c.usecs == 0)) [
      | inl e ↦ rw e (
          Returns-bind (λ d. IsMeasured d × (d.calls ≡ c.calls + 10)) _
            (timed_at points duration (c.work) (c.calls)) _ (timed_at-IsMeasured (c.work) (c.calls))
            (λ d (m, s).
              Returns_mono (find_rounds points duration 10 enough d)
                (λ o (f, t). (f, omega (arith, s, t))) (find_rounds-Finds 10 enough d m)))
      | inr e ↦ rw e (
          Returns_mono (find_rounds points duration 10 enough c) (λ o (f, t). (f, omega (arith, t)))
            (find_rounds-Finds 10 enough c (measured-before c e h)))
    ]
      where
        measured-before : (c : Calibration) → (c.usecs == 0) ≡ false → IsReady c → IsMeasured c
        measured-before c e (inl z) = let f : ⊥ = ground (arith, e, z) in elim f [ ]
        measured-before c e (inr m) = m
