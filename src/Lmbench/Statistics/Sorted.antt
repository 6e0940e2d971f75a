-- ===== src/Lmbench/Statistics/Sorted.antt =====
-- Where the elements of a sorted array stand.
use mathlib.Core.List.{Mem, Perm, Permᴰ, mem-cons_self, mem-cons_of_mem}
use mathlib.Core.Logic.{∥∥₁_elim}
use numafac.Prelude.{
  ℕ, zero, suc, ◌+◌, ◌≤◌, ◌<◌, ◌≡◌, refl, sym, ap, ◌∙◌, subst, inl, inr, Bool, true, false, some,
  List, [], ◌∷◌, ◌++◌, arith, if◌then◌else◌, Bool-cases, length, get_elem?, length-append,
  get_elem?-append, ℤ, pos, ltb_ℤ,
}
use numafac.Lmbench.Child.Progress.{Each}
use numafac.Lmbench.System.Counting.{tally}
use numafac.Lmbench.Statistics.{Numbers, compare}

-- The sum over a list does not depend on its order.
tally-permᴰ : {A : Type 0} (w : A → ℕ) {xs ys : List A} → Permᴰ xs ys → tally w xs ≡ tally w ys
unfolding tally
tally-permᴰ w Permᴰ.nil = refl
tally-permᴰ w (Permᴰ.cons e p) = omega (arith, ap w e, tally-permᴰ w p)
tally-permᴰ w (Permᴰ.swap e f) = omega (arith, ap w e, ap w f)
tally-permᴰ w (Permᴰ.trans p q) = tally-permᴰ w p ∙ tally-permᴰ w q

pub tally-Perm : {A : Type 0} (w : A → ℕ) {xs ys : List A} → Perm xs ys → tally w xs ≡ tally w ys
tally-Perm w p = ∥∥₁_elim p (hlevel) (tally-permᴰ w)

-- What the comparison of numbers obeys.
pub record IsOrder {A : Type 0} (less : A → A → Bool) : Type 0 where
  pub irreflexive : (a : A) → less a a ≡ false
  pub asymmetric : (a b : A) → less a b ≡ true → less b a ≡ false
  pub transitive : (a b c : A) → less b a ≡ false → less c b ≡ false → less c a ≡ false

module _ {A : Type 0} (numbers : Numbers A) where
  -- No element is less than the one in front of it, by a comparison function.
  abbrev pub IsAscending : (A → A → ℤ) → List A → Type 0
  IsAscending cmp [] = Unit
  IsAscending cmp (x ∷ []) = Unit
  IsAscending cmp (x ∷ y ∷ zs) = (ltb_ℤ (pos 0) (cmp x y) ≡ false) × IsAscending cmp (y ∷ zs)

  -- What the documentation of qsort says of this comparison function and this array.
  abbrev pub Sorts : ((A → A → ℤ) → List A → List A) → (A → A → ℤ) → List A → Type 0
  Sorts qsort cmp xs = Perm (qsort cmp xs) xs × IsAscending cmp (qsort cmp xs)

  -- How many elements are less than one, and how many are greater.
  abbrev pub below : A → List A → ℕ
  below a xs = tally (λ x. if numbers.less x a then 1 else 0) xs

  abbrev pub above : A → List A → ℕ
  above a xs = tally (λ x. if numbers.less a x then 1 else 0) xs

  module _ (order : IsOrder numbers.less) where
    compare-less :
        (x y : A) → ltb_ℤ (pos 0) (compare numbers x y) ≡ false → numbers.less y x ≡ false
    unfolding compare
    compare-less x y h = elim (Bool-cases (numbers.less x y)) [
      | inl e ↦ order.asymmetric x y e
      | inr e ↦ elim (Bool-cases (numbers.less y x)) [
        | inl f ↦ let g = rw (e, f) at h in cc
        | inr f ↦ f
      ]
    ]

    Each-later :
        (x y : A) (zs : List A)
        → numbers.less y x ≡ false
        → Each (λ z. numbers.less z y ≡ false) zs
        → Each (λ z. numbers.less z x ≡ false) zs
    Each-later x y [] h k = tt
    Each-later x y (z ∷ zs) h (e, k) = (order.transitive x y z h e, Each-later x y zs h k)

    -- No element behind the first one is less than it.
    IsAscending-least :
        (x : A) (xs : List A)
        → IsAscending (compare numbers) (x ∷ xs)
        → Each (λ y. numbers.less y x ≡ false) xs
    IsAscending-least x [] h = tt
    IsAscending-least x (y ∷ xs) (h, k) =
        let e = compare-less x y h in (e, Each-later x y xs e (IsAscending-least y xs k))

    IsAscending-tail :
        (x : A) (xs : List A)
        → IsAscending (compare numbers) (x ∷ xs)
        → IsAscending (compare numbers) xs
    IsAscending-tail x [] h = tt
    IsAscending-tail x (y ∷ xs) (h, k) = k

    least-below : (x : A) (xs : List A) → Each (λ y. numbers.less y x ≡ false) xs → below x xs ≡ 0
    unfolding tally
    least-below x [] h = refl
    least-below x (y ∷ xs) (h, k) = rw h (omega (arith, least-below x xs k))

    Each-at : (P : A → Type 0) (xs : List A) (a : A) (zs : List A) → Each P (xs ++ a ∷ zs) → P a
    Each-at P [] a zs h = h.0
    Each-at P (x ∷ xs) a zs h = Each-at P xs a zs (h.1)

    at_most : (b : Bool) → (if b then 1 else 0) ≤ 1
    at_most true = omega arith
    at_most false = omega arith

    above-length : (a : A) (xs : List A) → above a xs ≤ length xs
    unfolding tally
    above-length a [] = omega arith
    above-length a (x ∷ xs) = omega (arith, above-length a xs, at_most (numbers.less a x))

    -- As many elements are less as stand in front, at most.
    below-at :
        (xs : List A) (a : A) (zs : List A)
        → IsAscending (compare numbers) (xs ++ a ∷ zs)
        → below a (xs ++ a ∷ zs) ≤ length xs
    unfolding tally
    below-at [] a zs h =
        rw (order.irreflexive a) (omega (arith, least-below a zs (IsAscending-least a zs h)))
    below-at (x ∷ xs) a zs h =
        omega (
          arith,
          below-at xs a zs (IsAscending-tail x (xs ++ a ∷ zs) h),
          at_most (numbers.less x a),
        )

    -- As many are greater as stand behind, at most.
    above-at :
        (xs : List A) (a : A) (zs : List A)
        → IsAscending (compare numbers) (xs ++ a ∷ zs)
        → above a (xs ++ a ∷ zs) ≤ length zs
    unfolding tally
    above-at [] a zs h = rw (order.irreflexive a) (omega (arith, above-length a zs))
    above-at (x ∷ xs) a zs h =
        let e =
          Each-at (λ y. numbers.less y x ≡ false) xs a zs (IsAscending-least x (xs ++ a ∷ zs) h) in
        rw e (omega (arith, above-at xs a zs (IsAscending-tail x (xs ++ a ∷ zs) h)))

    -- An element of an array in ascending order.
    pub record Placed (values : List A) (k : ℕ) : Type 0 where
      pub element_at : A
      pub there : get_elem? values k ≡ some element_at
      pub member : Mem element_at values
      pub few_below : below element_at values ≤ k
      pub few_above : above element_at values + suc k ≤ length values

    mem-middle : (xs : List A) (a : A) (zs : List A) → Mem a (xs ++ a ∷ zs)
    mem-middle [] a zs = mem-cons_self
    mem-middle (x ∷ xs) a zs = mem-cons_of_mem x (mem-middle xs a zs)

    split_at :
        (k : ℕ) (ys : List A)
        → k < length ys
        → (xs : List A) × (a : A) × (zs : List A) × (ys ≡ xs ++ a ∷ zs) × (length xs ≡ k)
    split_at k [] h = let f : ⊥ = omega (arith, h) in elim f [ ]
    split_at zero (y ∷ ys) h = ([], y, ys, refl, refl)
    split_at (suc k) (y ∷ ys) h =
        let (xs, a, zs, e, l) = split_at k ys (omega (arith, h)) in
        (y ∷ xs, a, zs, ap (λ l. y ∷ l) e, ap suc l)

    pub placed :
        (k : ℕ) (ys : List A) → IsAscending (compare numbers) ys → k < length ys → Placed ys k
    placed k ys h l =
        let (xs, a, zs, e, n) = split_at k ys l in
        let ascends = subst (IsAscending (compare numbers)) e h in
        record {
          element_at = a;
          there = rw (e, sym n) (get_elem?-append xs zs a);
          member = subst (Mem a) (sym e) (mem-middle xs a zs);
          few_below = rw e (omega (arith, n, below-at xs a zs ascends));
          few_above = rw e (omega (arith, n, above-at xs a zs ascends, length-append xs (a ∷ zs)));
        }
