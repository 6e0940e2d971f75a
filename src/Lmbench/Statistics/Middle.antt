-- ===== src/Lmbench/Statistics/Middle.antt =====
-- The medians of lib_stats.c stand in the middle of the array.
use mathlib.Core.List.{Mem, Perm}
use mathlib.Core.List.Perm
use numafac.Prelude.{
  ℕ, zero, suc, ◌+◌, ◌-◌, ◌*◌, ◌/◌, ◌%◌, ◌^◌, ◌≤◌, ◌<◌, ◌≡◌, refl, sym, ◌∙◌, ◌⊎◌, inl, inr, true,
  false, List, [], ◌∷◌, arith, ltb, ◌==◌, if◌then◌else◌, Bool-cases, length, ℤ, pos, negsuc,
  pos_part, neg_part, ◌+ℤ◌, ltb_ℤ, negate, signed_overflow, Run, ok, fault, ◌>>=◌, Returns,
}
use numafac.Lmbench.System.Counting.{tally}
use numafac.Lmbench.Statistics.{
  Numbers, int, uint64, quotient, fits_int, plus_int, compare, middle, median, int_median,
  uint64_median,
}
use numafac.Lmbench.Statistics.Sorted.{
  tally-Perm, IsOrder, IsAscending, Sorts, below, above, placed,
}

module _ {A : Type 0} (numbers : Numbers A) where
  -- Two elements in the middle: fewer than half of the elements are less than the first, and at most
  -- half greater; and the other way round for the second.
  pub record Central (values : List A) (a b : A) : Type 0 where
    pub first : Mem a values
    pub second : Mem b values
    pub few_below : 2 * below numbers a values < length values
    pub few_above : 2 * above numbers b values < length values
    pub above_first : 2 * above numbers a values ≤ length values
    pub below_second : 2 * below numbers b values ≤ length values

  -- What a median is made of these: for an odd number of elements they are the same, and it is
  -- this one; otherwise it is half their sum.
  abbrev pub IsMiddle : List A → Run A → Type 0
  IsMiddle values r =
      (a b : A) × Central values a b
      × (((length values % 2 ≡ 1) × (a ≡ b) × (r ≡ ok a))
          ⊎ ((length values % 2 ≡ 0) × (r ≡ (numbers.plus a b >>= λ s. ok (numbers.half s)))))

  length-ones : (xs : List A) → length xs ≡ tally (λ x. 1) xs
  unfolding tally
  length-ones [] = refl
  length-ones (x ∷ xs) = omega (arith, length-ones xs)

  length-Perm : (xs ys : List A) → Perm xs ys → length xs ≡ length ys
  length-Perm xs ys p = length-ones xs ∙ tally-Perm (λ x. 1) p ∙ sym (length-ones ys)

  Central-Perm : (xs ys : List A) (a b : A) → Perm xs ys → Central xs a b → Central ys a b
  Central-Perm xs ys a b p c =
      let same = length-Perm xs ys p in
      let less = λ (e : A). tally-Perm (λ x. if numbers.less x e then 1 else 0) p in
      let more = λ (e : A). tally-Perm (λ x. if numbers.less e x then 1 else 0) p in
      record {
        first = (Perm.mem_iff p).0 c.first;
        second = (Perm.mem_iff p).0 c.second;
        few_below = omega (arith, c.few_below, same, less a);
        few_above = omega (arith, c.few_above, same, more b);
        above_first = omega (arith, c.above_first, same, more a);
        below_second = omega (arith, c.below_second, same, less b);
      }

  module _ (order : IsOrder numbers.less) where
    middle-IsMiddle :
        (ys : List A)
        → IsAscending numbers (compare numbers) ys
        → 0 < length ys
        → IsMiddle ys (middle numbers ys)
    unfolding middle
    middle-IsMiddle ys h l =
        let empty : (length ys == 0) ≡ false = ground (arith, l) in
        let p = placed numbers order (length ys / 2) ys h (omega (arith, l)) in
        elim (Bool-cases (length ys % 2 == 1)) [
          | inl e ↦
              let odd : length ys % 2 ≡ 1 = ground (arith, e) in
              (
                p.element_at,
                p.element_at,
                record {
                  first = p.member;
                  second = p.member;
                  few_below = omega (arith, p.few_below, odd);
                  few_above = omega (arith, p.few_above, odd);
                  above_first = omega (arith, p.few_above, odd);
                  below_second = omega (arith, p.few_below, odd);
                },
                inl (odd, refl, rw (empty, e, p.there) refl),
              )
          | inr e ↦
              let even : length ys % 2 ≡ 0 = ground (arith, e) in
              let q = placed numbers order (length ys / 2 - 1) ys h (omega (arith, l)) in
              (
                q.element_at,
                p.element_at,
                record {
                  first = q.member;
                  second = p.member;
                  few_below = omega (arith, q.few_below, even);
                  few_above = omega (arith, p.few_above, even);
                  above_first = omega (arith, q.few_above, even, l);
                  below_second = omega (arith, p.few_below, even);
                },
                inr (even, rw (empty, e, p.there, q.there) refl),
              )
        ]

    -- The array is sorted, and the median made of its middle.
    median-IsMiddle :
        (qsort : (A → A → ℤ) → List A → List A) (values : List A)
        → Sorts numbers qsort (compare numbers) values
        → 0 < length values
        → (ys : List A) × (r : Run A) × Perm ys values
          × IsAscending numbers (compare numbers) ys
          × IsMiddle values r
          × (median numbers qsort values ≡ (r >>= λ m. ok (ys, m)))
    unfolding median
    median-IsMiddle qsort values (p, h) l =
        let ys = qsort (compare numbers) values in
        let same = length-Perm ys values p in
        let (a, b, c, d) = middle-IsMiddle ys h (omega (arith, same, l)) in
        (ys, middle numbers ys, p, h, (a, b, Central-Perm ys values a b p c, rw same at d), refl)

ltb-IsOrder : IsOrder ltb
ltb-IsOrder = record {
  irreflexive = λ a. ground arith;
  asymmetric = λ a b h. ground (arith, h);
  transitive = λ a b c h k. ground (arith, h, k);
}

ltb_ℤ-IsOrder : IsOrder ltb_ℤ
ltb_ℤ-IsOrder = record {
  irreflexive = λ a. ground arith;
  asymmetric = λ a b h. ground (arith, h);
  transitive = λ a b c h k. ground (arith, h, k);
}

-- The median of an array of uint64: an element in the middle, or half the sum of two there, which
-- has wrapped around.
abbrev pub IsWrappedMedian : List ℕ → ℕ → Type 0
IsWrappedMedian values m =
    (a b : ℕ) × Central uint64 values a b
    × (((length values % 2 ≡ 1) × (a ≡ b) × (m ≡ a))
        ⊎ ((length values % 2 ≡ 0) × (2 * m ≤ (a + b) % 2 ^ 64) × ((a + b) % 2 ^ 64 ≤ 2 * m + 1)))

-- If qsort does what is documented for uint64_compare, and the array is not empty: uint64_median
-- returns, with the array sorted. For an odd number of elements its result is an element of which
-- fewer than half of the elements are less, and fewer than half greater. For an even number it is
-- half, rounded down, of the sum modulo 2 ^ 64 of two elements: fewer than half are less than the
-- first of these and at most half greater, and at most half are less than the second and fewer than
-- half greater.
pub uint64_median-IsWrappedMedian :
    (qsort : (ℕ → ℕ → ℤ) → List ℕ → List ℕ) (values : List ℕ)
    → Sorts uint64 qsort (compare uint64) values
    → 0 < length values
    → Returns (uint64_median qsort values) (λ (ys, m).
      Perm ys values × IsAscending uint64 (compare uint64) ys × IsWrappedMedian values m)
unfolding uint64_median
uint64_median-IsWrappedMedian qsort values s l =
    let (ys, r, p, h, (a, b, c, d), e) = median-IsMiddle uint64 ltb-IsOrder qsort values s l in
    rw e (elim d [
      | inl (odd, same, f) ↦ rw f (p, h, (a, b, c, inl (odd, same, refl)))
      | inr (even, f) ↦ rw f (p, h, (a, b, c, inr (even, omega arith, omega arith)))
    ])

-- Half of an integer, rounded towards 0.
abbrev pub IsHalf : ℤ → ℤ → Type 0
IsHalf s m =
    (2 * pos_part m ≤ pos_part s)
    × (pos_part s ≤ 2 * pos_part m + 1)
    × (2 * neg_part m ≤ neg_part s)
    × (neg_part s ≤ 2 * neg_part m + 1)

quotient-IsHalf : (s : ℤ) → IsHalf s (quotient s 2)
unfolding quotient
quotient-IsHalf (pos n) = (omega arith, omega arith, omega arith, omega arith)
quotient-IsHalf (negsuc n) = by_value (suc n / 2) (omega arith) (omega arith)
  where
    by_value : (k : ℕ) → 2 * k ≤ suc n → suc n ≤ 2 * k + 1 → IsHalf (negsuc n) (negate k)
    by_value zero a b = (omega arith, omega arith, omega arith, omega arith)
    by_value (suc k) a b = (omega arith, omega arith, omega arith, omega arith)

-- The range of an int.
abbrev pub InRange : ℤ → Type 0
InRange s = (pos_part s < 2 ^ 31) × (neg_part s ≤ 2 ^ 31)

-- The median of an array of int: an element in the middle, or half the sum of two there, unless
-- that sum overflows.
abbrev pub IsCheckedMedian : List ℤ → Run ℤ → Type 0
IsCheckedMedian values r =
    (a b : ℤ) × Central int values a b
    × (((length values % 2 ≡ 1) × (a ≡ b) × (r ≡ ok a))
        ⊎ ((length values % 2 ≡ 0) × InRange (a +ℤ b) × ((m : ℤ) × (r ≡ ok m) × IsHalf (a +ℤ b) m))
        ⊎ ((length values % 2 ≡ 0) × (¬ InRange (a +ℤ b)) × (r ≡ fault signed_overflow)))

fits_int-InRange : (s : ℤ) → fits_int s ≡ true → InRange s
unfolding fits_int
fits_int-InRange s h = (ground (arith, h), ground (arith, h))

fits_int-out : (s : ℤ) → fits_int s ≡ false → ¬ InRange s
unfolding fits_int
fits_int-out s h (a, b) = ground (arith, h, a, b)

-- If qsort does what is documented for int_compare, and the array is not empty: int_median sorts
-- the array. For an odd number of elements it returns an element of which fewer than half of the
-- elements are less, and fewer than half greater. For an even number it adds two elements: fewer
-- than half are less than the first of these and at most half greater, and at most half are less
-- than the second and fewer than half greater. If an int can hold their sum, it returns half of it,
-- rounded towards 0; if not, the addition overflows.
pub int_median-IsCheckedMedian :
    (qsort : (ℤ → ℤ → ℤ) → List ℤ → List ℤ) (values : List ℤ)
    → Sorts int qsort (compare int) values
    → 0 < length values
    → (ys : List ℤ) × (r : Run ℤ) × Perm ys values
      × IsAscending int (compare int) ys
      × IsCheckedMedian values r
      × (int_median qsort values ≡ (r >>= λ m. ok (ys, m)))
unfolding int_median
int_median-IsCheckedMedian qsort values s l =
    let (ys, r, p, h, (a, b, c, d), e) = median-IsMiddle int ltb_ℤ-IsOrder qsort values s l in
    (ys, r, p, h, (a, b, c, halved a b r d), e)
  where
    halved :
        (a b : ℤ) (r : Run ℤ)
        → ((length values % 2 ≡ 1) × (a ≡ b) × (r ≡ ok a))
          ⊎ ((length values % 2 ≡ 0) × (r ≡ (plus_int a b >>= λ s. ok (quotient s 2))))
        → ((length values % 2 ≡ 1) × (a ≡ b) × (r ≡ ok a))
          ⊎ ((length values % 2 ≡ 0)
              × InRange (a +ℤ b)
              × ((m : ℤ) × (r ≡ ok m) × IsHalf (a +ℤ b) m))
          ⊎ ((length values % 2 ≡ 0) × (¬ InRange (a +ℤ b)) × (r ≡ fault signed_overflow))
    halved a b r (inl odd) = inl odd
    halved a b r (inr (even, f)) =
        unfold plus_int in
        elim (Bool-cases (fits_int (a +ℤ b))) [
          | inl t ↦ inr (
              inl (
                even,
                fits_int-InRange (a +ℤ b) t,
                (quotient (a +ℤ b) 2, rw t at f, quotient-IsHalf (a +ℤ b)),
              ))
          | inr t ↦ inr (inr (even, fits_int-out (a +ℤ b) t, rw t at f))
        ]
