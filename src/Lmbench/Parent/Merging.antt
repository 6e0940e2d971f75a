-- ===== src/Lmbench/Parent/Merging.antt =====
-- benchmp_parent merges what its children report, without a store past its results.
use mathlib.Core.List.Perm
use numafac.Lmbench.Results.{Measure, Results, save_median, middle_mean, mean_of}
use numafac.Lmbench.Results.Insertion.{Holds}
use numafac.Lmbench.Results.Collected.{nonzero, IsStrict, Collects}
use numafac.Lmbench.Parent.{Ending, merged, error_exit, still_waiting}
use numafac.Lmbench.Child.Room.{goal}
use numafac.Prelude.{
  ℕ, zero, suc, ◌+◌, ◌-◌, ◌/◌, ◌%◌, ◌≤◌, ◌<◌, ◌≡◌, refl, inl, inr, Bool, List, [], ◌∷◌, ◌++◌, arith,
  ◌==◌, if◌then◌else◌, Bool-cases, length, get_or, ℤ, ok, Array, malloc, load, filled,
}

-- A cell that was written.
load-held :
    (xs : List Measure) (rest : Array Measure) (i : ℕ)
    → i < length xs
    → load (filled xs ++ rest) i ≡ ok (get_or xs i (0, 1))
unfolding load
load-held [] rest i h = let f : ⊥ = omega (arith, h) in elim f [ ]
load-held (x ∷ xs) rest zero h = refl
load-held (x ∷ xs) rest (suc i) h = load-held xs rest i (omega (arith, h))

-- The measure in the middle, or the mean of the two there.
abbrev pub median : List Measure → Measure
median xs =
    if length xs == 0
    then (0, 1)
    else if length xs % 2 == 0
    then mean_of (get_or xs (length xs / 2) (0, 1)) (get_or xs (length xs / 2 - 1) (0, 1))
    else get_or xs (length xs / 2) (0, 1)

module _ (above : Measure → Measure → Bool) where
  pub save_median-median :
      (r : Results) (xs : List Measure) (room : ℕ)
      → Holds above r xs room
      → save_median r ≡ ok (median xs)
  unfolding save_median middle_mean
  save_median-median r xs room h =
      rw (h.counted, h.held)
        (elim (Bool-cases (length xs == 0)) [
          | inl e ↦ rw e refl
          | inr e ↦
              let some_left : 0 < length xs = ground (arith, e) in
              rw e (elim (Bool-cases (length xs % 2 == 0)) [
                | inl f ↦
                    rw
                      (
                        f,
                        load-held xs (malloc room) (length xs / 2) (omega (arith, some_left)),
                        load-held xs (malloc room) (length xs / 2 - 1) (omega (arith, some_left)),
                      )
                      refl
                | inr f ↦
                    rw f (load-held xs (malloc room) (length xs / 2) (omega (arith, some_left)))
              ])
        ])

-- What a report holds: as many measures as a child keeps that was asked for `repetitions`.
pub record Fits (above : Measure → Measure → Bool) (repetitions : ℤ) (r : Results)
    (xs : List Measure) : Type 0 where
  pub room : ℕ
  pub held : Holds above r xs room
  pub few : length xs ≤ goal repetitions

abbrev pub AllFit : (Measure → Measure → Bool) → ℤ → List Results → List (List Measure) → Type 0
AllFit above repetitions [] [] = Unit {0}
AllFit above repetitions [] (xs ∷ xss) = ⊥
AllFit above repetitions (r ∷ rs) [] = ⊥
AllFit above repetitions (r ∷ rs) (xs ∷ xss) =
    Fits above repetitions r xs × AllFit above repetitions rs xss

-- The measures with a time that is not 0, of all reports.
abbrev pub all_of : List (List Measure) → List Measure
all_of [] = []
all_of (xs ∷ xss) = all_of xss ++ nonzero xs

abbrev total : List (List Measure) → ℕ
total [] = 0
total (xs ∷ xss) = length xs + total xss

module _ (above : Measure → Measure → Bool) (strict : IsStrict above) where
  -- The parent ends with a descending list of these measures and with the median of them, or
  -- without results.
  abbrev pub Merges : List Measure → Ending → Type 0
  Merges ms (merged r m) = (k : ℕ) × (c : Collects above strict r ms k) × (m ≡ median (c.list))
  Merges ms error_exit = Unit {0}
  Merges ms still_waiting = Unit {0}
