-- ===== src/Tests/Statistics.antt =====
-- The theorem on the medians of lib_stats.c at an array, and runs of its functions.
use mathlib.Core.List.{Perm, perm_middle}
use mathlib.Core.List.Perm
use numafac.Lmbench.Statistics.{
  int, uint64, quotient, compare, middle, median, sum_from, mean, min_from, minimum, max_from,
  maximum, int_median, uint64_median, plus_int, fits_int,
}
use numafac.Lmbench.Statistics.Middle.{
  IsWrappedMedian, uint64_median-IsWrappedMedian, IsCheckedMedian, int_median-IsCheckedMedian,
}
use numafac.Lmbench.Statistics.Sorted.{IsAscending, Sorts}
use numafac.Prelude.{
  ℕ, ◌^◌, ◌≡◌, refl, List, [], ◌∷◌, arith, if◌then◌else◌, ℤ, pos, negsuc, ◌+ℤ◌, ltb_ℤ,
  signed_overflow, Run, ok, fault, ◌>>=◌, Returns,
}

-- Insertion sort.
abbrev insert_by : {A : Type 0} → (A → A → ℤ) → A → List A → List A
insert_by cmp x [] = x ∷ []
insert_by cmp x (y ∷ ys) =
    let rest = insert_by cmp x ys in if ltb_ℤ (pos 0) (cmp x y) then y ∷ rest else x ∷ y ∷ ys

abbrev sort_by : {A : Type 0} → (A → A → ℤ) → List A → List A
sort_by cmp [] = []
sort_by cmp (x ∷ xs) = insert_by cmp x (sort_by cmp xs)

abbrev times : List ℕ
times = 5 ∷ 1 ∷ 3 ∷ 2 ∷ []

times-Sorts : Sorts uint64 sort_by (compare uint64) times
unfolding compare
times-Sorts = (
  Perm.trans (perm_middle (1 ∷ 2 ∷ 3 ∷ []) []) (Perm.cons 5 (Perm.cons 1 (Perm.swap 3 2 []))),
  (refl, (refl, (refl, tt))),
)

uint64_median-IsWrappedMedian_example :
    Returns
      (uint64_median sort_by times)
      (λ (ys, m). Perm ys times × IsAscending uint64 (compare uint64) ys × IsWrappedMedian times m)
uint64_median-IsWrappedMedian_example =
    uint64_median-IsWrappedMedian sort_by times times-Sorts (omega arith)

abbrev changes : List ℤ
changes = pos 3 ∷ negsuc 9 ∷ []

changes-Sorts : Sorts int sort_by (compare int) changes
unfolding compare
changes-Sorts = (Perm.swap (pos 3) (negsuc 9) [], (refl, tt))

int_median-IsCheckedMedian_example :
    (ys : List ℤ) × (r : Run ℤ) × Perm ys changes
    × IsAscending int (compare int) ys
    × IsCheckedMedian changes r
    × (int_median sort_by changes ≡ (r >>= λ m. ok (ys, m)))
int_median-IsCheckedMedian_example =
    int_median-IsCheckedMedian sort_by changes changes-Sorts (omega arith)

-- The sum of two ints in the middle does not fit.
overflowing_median : median int sort_by (pos (2 ^ 30) ∷ pos (2 ^ 30) ∷ []) ≡ fault signed_overflow
unfolding compare median middle plus_int fits_int ◌+ℤ◌
overflowing_median = refl

-- The sum of the two elements in the middle wraps around.
wrapped_median : uint64_median sort_by (2 ^ 63 ∷ 2 ^ 63 ∷ []) ≡ ok (2 ^ 63 ∷ 2 ^ 63 ∷ [], 0)
unfolding uint64_median compare median middle
wrapped_median = refl

some_means :
    (mean int (pos 3 ∷ negsuc 9 ∷ []) ≡ ok (negsuc 2))
    × (minimum int (pos 3 ∷ negsuc 9 ∷ []) ≡ ok (negsuc 9))
    × (maximum int (pos 3 ∷ negsuc 9 ∷ []) ≡ ok (pos 3))
unfolding mean sum_from quotient minimum min_from maximum max_from plus_int fits_int ◌+ℤ◌
some_means = (refl, refl, refl)
