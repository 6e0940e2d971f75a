-- ===== src/Lmbench/Results/Shifting.antt =====
-- The loop of insertsort that moves the smaller results up.
use numafac.Lmbench.Results.{Measure, shift_down}
use numafac.Prelude.{
  ℕ, suc, ◌+◌, ◌-◌, ◌≡◌, refl, sym, ap, ◌∙◌, subst, Option, none, some, List, [], ◌∷◌, ◌++◌,
  append_assoc, arith, length, length-append, ok, Array, load, store, filled, onto, onto-append,
  length-onto, onto-onto, load-append, store-append,
}

-- The cell that is left free by moving the cells of `rs` up.
abbrev last_of : Array Measure → Option Measure → Option Measure
last_of [] c = c
last_of (r ∷ rs) c = last_of rs r

-- The cells in front of those that are moved.
regroup :
    (rs : List Measure) (done zs : Array Measure)
    → done ++ onto (filled rs) zs ≡ (done ++ onto (filled rs) []) ++ zs
regroup rs done zs =
    ap (λ l. done ++ l) (onto-append (filled rs) [] zs)
    ∙ sym (append_assoc done (onto (filled rs) []) zs)

-- As many cells as numbers.
pub length-filled : (xs : List Measure) → length (filled xs) ≡ length xs
length-filled [] = refl
length-filled (x ∷ xs) = ap suc (length-filled xs)

length-front :
    (rs : List Measure) (done : Array Measure)
    → length (done ++ onto (filled rs) []) ≡ length done + length rs
length-front rs done =
    rw (length-append done (onto (filled rs) []), length-onto (filled rs) [], length-filled rs)
      (omega arith)

-- A round of the loop: the last of the cells is read, and written one further.
load-onto :
    (r : Measure) (rs : List Measure) (j : ℕ) (done zs : Array Measure)
    → j ≡ length done + length rs
    → load (done ++ onto (filled rs) (some r ∷ zs)) j ≡ ok r
load-onto r rs j done zs e =
    rw (regroup rs done (some r ∷ zs))
      (load-append (done ++ onto (filled rs) []) zs j r (e ∙ sym (length-front rs done)))

store-second :
    (r : Measure) (j : ℕ) (c : Option Measure) (front free : Array Measure)
    → j ≡ suc (length front)
    → store (front ++ some r ∷ c ∷ free) j r ≡ ok (front ++ some r ∷ some r ∷ free)
store-second r j c front free e =
    simp append_assoc at
      (store-append (front ++ some r ∷ []) free c j r (rw length-append (omega arith)))

store-onto :
    (r : Measure) (rs : List Measure) (j : ℕ) (c : Option Measure) (done free : Array Measure)
    → j ≡ length done + suc (length rs)
    → store (done ++ onto (filled rs) (some r ∷ c ∷ free)) j r
      ≡ ok (done ++ onto (filled rs) (some r ∷ some r ∷ free))
store-onto r rs j c done free e =
    rw (regroup rs done (some r ∷ c ∷ free), regroup rs done (some r ∷ some r ∷ free))
      (store-second r j c (done ++ onto (filled rs) []) free (omega (arith, length-front rs done)))

shift_down-step :
    (n j : ℕ) (x : Measure) (a b : Array Measure)
    → load a (j - 1) ≡ ok x
    → store a j x ≡ ok b
    → shift_down (suc n) j a ≡ shift_down n (j - 1) b
unfolding shift_down
shift_down-step n j x a b h k = rw (h, k) refl

shift_down-onto :
    (rs : List Measure) (j : ℕ) (c : Option Measure) (done free : Array Measure)
    → j ≡ length done + length rs
    → shift_down (length rs) j (done ++ onto (filled rs) (c ∷ free))
      ≡ ok (done ++ last_of (filled rs) c ∷ onto (filled rs) free)
shift_down-onto [] j c done free e = unfold shift_down in refl
shift_down-onto (r ∷ rs) j c done free e =
    shift_down-step (length rs) j r (done ++ onto (filled rs) (some r ∷ c ∷ free))
      (done ++ onto (filled rs) (some r ∷ some r ∷ free))
      (load-onto r rs (j - 1) done (c ∷ free) (omega arith)) (store-onto r rs j c done free e)
    ∙ shift_down-onto rs (j - 1) (some r) done (some r ∷ free) (omega arith)

onto-filled : (xs ys : List Measure) → filled (onto xs ys) ≡ onto (filled xs) (filled ys)
onto-filled [] ys = refl
onto-filled (x ∷ xs) ys = onto-filled xs (x ∷ ys)

-- The same with the cells that are moved in their own order.
pub shift_down-moves :
    (zs : List Measure) (j : ℕ) (done free : Array Measure)
    → j ≡ length done + length zs
    → (c : Option Measure) × (shift_down (length zs) j (done ++ (filled zs ++ none ∷ free))
        ≡ ok (done ++ c ∷ (filled zs ++ free)))
shift_down-moves zs j done free e = (
  last_of (filled (onto zs [])) none,
  subst
      (λ n.
        shift_down n j (done ++ (filled zs ++ none ∷ free))
        ≡ ok (done ++ last_of (filled (onto zs [])) none ∷ (filled zs ++ free)))
      turned
      (rw (← again (none ∷ free), ← again free)
        (shift_down-onto (onto zs []) j none done free (omega (arith, turned)))),
)
  where
    turned : length (onto zs []) ≡ length zs
    turned = omega (arith, length-onto zs [])

    again : (ys : Array Measure) → onto (filled (onto zs [])) ys ≡ filled zs ++ ys
    again ys = ap (λ l. onto l ys) (onto-filled zs []) ∙ onto-onto (filled zs) [] ys
