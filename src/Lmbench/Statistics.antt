-- ===== src/Lmbench/Statistics.antt =====
-- lmbench3/src/lib_stats.c: medians, means, minima and maxima of arrays of numbers.
pub mod Sorted
pub mod Middle
use numafac.Prelude.{
  ℕ, ◌-◌, ◌+◌, ◌/◌, ◌%◌, ◌^◌, suc, Bool, ◌&&◌, List, [], ◌∷◌, ltb, leb, ◌==◌, if◌then◌else◌, length,
  get_elem?, ℤ, pos, negsuc, pos_part, neg_part, ◌+ℤ◌, ltb_ℤ, negate, out_of_bounds,
  division_by_zero, signed_overflow, Run, ok, fault, ◌>>=◌, element,
}

-- Numbers of one of the types of lib_stats.c: a < b, 0, a + b, which may overflow, a / 2, and the
-- quotient by a number of elements.
pub record Numbers (A : Type 0) : Type 0 where
  pub less : A → A → Bool
  pub zero_of : A
  pub plus : A → A → Run A
  pub half : A → A
  pub over : A → ℕ → A

-- Division of an int, towards 0.
unfoldable pub quotient : ℤ → ℕ → ℤ
quotient (pos a) n = pos (a / n)
quotient (negsuc a) n = negate (suc a / n)

-- Whether an int can hold it.
unfoldable pub fits_int : ℤ → Bool
fits_int n = ltb (pos_part n) (2 ^ 31) && leb (neg_part n) (2 ^ 31)

-- a + b of two ints, which is undefined where it leaves their range.
unfoldable pub plus_int : ℤ → ℤ → Run ℤ
plus_int a b = if fits_int (a +ℤ b) then ok (a +ℤ b) else fault signed_overflow

abbrev pub int : Numbers ℤ
int = record {
  less = ltb_ℤ;
  zero_of = pos 0;
  plus = plus_int;
  half = λ a. quotient a 2;
  over = quotient;
}

abbrev pub uint64 : Numbers ℕ
uint64 = record {
  less = ltb;
  zero_of = 0;
  plus = λ a b. ok ((a + b) % 2 ^ 64);
  half = λ a. a / 2;
  over = λ a n. a / n;
}

module _ {A : Type 0} (numbers : Numbers A) where
  -- int_compare, uint64_compare and double_compare.
  unfoldable pub compare : A → A → ℤ
  compare a b = if numbers.less a b then negsuc 0 else if numbers.less b a then pos 1 else pos 0

  -- What follows qsort in int_median, uint64_median and double_median.
  unfoldable pub middle : List A → Run A
  middle values =
      if length values == 0
      then ok (numbers.zero_of)
      else if length values % 2 == 1
      then element (get_elem? values (length values / 2))
      else (element (get_elem? values (length values / 2 - 1)) >>= λ a.
          element (get_elem? values (length values / 2)) >>= λ b.
          numbers.plus a b >>= λ sum. ok (numbers.half sum))

  -- int_median, uint64_median and double_median, which sort the array: the array and the median.
  unfoldable pub median : ((A → A → ℤ) → List A → List A) → List A → Run (List A × A)
  median qsort values = let sorted = qsort compare values in middle sorted >>= λ m. ok (sorted, m)

  -- for (i = 0; i < size; ++i) sum += values[i];
  unfoldable pub sum_from : A → List A → Run A
  sum_from sum [] = ok sum
  sum_from sum (x ∷ values) = numbers.plus sum x >>= λ sum. sum_from sum values

  -- int_mean and uint64_mean; an array without elements is a division by 0.
  unfoldable pub mean : List A → Run A
  mean values =
      if length values == 0
      then fault division_by_zero
      else (sum_from (numbers.zero_of) values >>= λ sum. ok (numbers.over sum (length values)))

  -- for (i = 1; i < size; ++i) if (values[i] < min) min = values[i];
  unfoldable pub min_from : A → List A → A
  min_from least [] = least
  min_from least (x ∷ values) = min_from (if numbers.less x least then x else least) values

  -- int_min, uint64_min and double_min.
  unfoldable pub minimum : List A → Run A
  minimum [] = fault out_of_bounds
  minimum (x ∷ values) = ok (min_from x values)

  -- for (i = 1; i < size; ++i) if (values[i] > max) max = values[i];
  unfoldable pub max_from : A → List A → A
  max_from greatest [] = greatest
  max_from greatest (x ∷ values) = max_from (if numbers.less greatest x then x else greatest) values

  -- int_max, uint64_max and double_max.
  unfoldable pub maximum : List A → Run A
  maximum [] = fault out_of_bounds
  maximum (x ∷ values) = ok (max_from x values)

-- int_median, which returns an int, and uint64_median.
unfoldable pub int_median : ((ℤ → ℤ → ℤ) → List ℤ → List ℤ) → List ℤ → Run (List ℤ × ℤ)
int_median qsort values = median int qsort values

unfoldable pub uint64_median : ((ℕ → ℕ → ℤ) → List ℕ → List ℕ) → List ℕ → Run (List ℕ × ℕ)
uint64_median qsort values = median uint64 qsort values
