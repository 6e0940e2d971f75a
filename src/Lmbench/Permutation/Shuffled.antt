-- ===== src/Lmbench/Permutation/Shuffled.antt =====
-- permutation gives each multiple of the scale once, whatever the random numbers are.
use mathlib.Core.List.{Perm, perm_middle}
use mathlib.Core.List.Perm
use numafac.Lmbench.Permutation.{xor, scaled_to, swap, randomize, permutation}
use numafac.Prelude.{
  ℕ, zero, suc, ◌+◌, ◌-◌, ◌*◌, ◌%◌, ◌^◌, ◌≤◌, ◌<◌, ◌≡◌, refl, sym, ap, ◌∙◌, subst, some, List, [],
  ◌∷◌, ◌++◌, append_assoc, arith, dec_lt, ◌==◌, if◌then◌else◌, length, length-append, ℤ, ok,
  Returns, Array, malloc, load, store, filled, tabulate, length-tabulate, fill-ok, Returns_mono,
  store-filled, load-filled_at, Returns-bind,
}

-- The element at an index inside.
split_at :
    (xs : List ℕ) (k : ℕ)
    → k < length xs
    → (ps : List ℕ) × (x : ℕ) × (qs : List ℕ) × (xs ≡ ps ++ x ∷ qs) × (k ≡ length ps)
split_at [] k h = let f : ⊥ = omega (arith, h) in elim f [ ]
split_at (x ∷ xs) zero h = ([], x, xs, refl, refl)
split_at (x ∷ xs) (suc k) h =
    let (ps, y, qs, e, l) = split_at xs k (omega (arith, h)) in
    (x ∷ ps, y, qs, ap (λ t. x ∷ t) e, ap suc l)

swap-same :
    (ps qs : List ℕ) (x k : ℕ)
    → k ≡ length ps
    → swap k k (filled (ps ++ x ∷ qs)) ≡ ok (filled (ps ++ x ∷ qs))
unfolding swap
swap-same ps qs x k e =
    rw (load-filled_at x ps qs k e, store-filled x x ps qs k e) (store-filled x x ps qs k e)

swap-distinct :
    (ps qs rs : List ℕ) (x y k i : ℕ)
    → k ≡ length ps
    → i ≡ length (ps ++ x ∷ qs)
    → swap k i (filled (ps ++ x ∷ (qs ++ y ∷ rs))) ≡ ok (filled (ps ++ y ∷ (qs ++ x ∷ rs)))
unfolding swap
swap-distinct ps qs rs x y k i e f =
    let i_load : load (filled (ps ++ x ∷ (qs ++ y ∷ rs))) i ≡ ok y =
      subst (λ l. load (filled l) i ≡ ok y) (append_assoc ps (x ∷ qs) (y ∷ rs))
        (load-filled_at y (ps ++ x ∷ qs) rs i f) in
    let g : i ≡ length (ps ++ y ∷ qs) =
      omega (arith, f, length-append ps (x ∷ qs), length-append ps (y ∷ qs)) in
    let i_store : store (filled (ps ++ y ∷ (qs ++ y ∷ rs))) i x
        ≡ ok (filled (ps ++ y ∷ (qs ++ x ∷ rs))) =
      subst (λ l. store (filled l) i x ≡ ok (filled (ps ++ y ∷ (qs ++ x ∷ rs))))
        (append_assoc ps (y ∷ qs) (y ∷ rs))
        (store-filled y x (ps ++ y ∷ qs) rs i g
          ∙ ap (λ l. ok (filled l)) (append_assoc ps (y ∷ qs) (x ∷ rs))) in
    rw (load-filled_at x ps (qs ++ y ∷ rs) k e, i_load, store-filled x y ps (qs ++ y ∷ rs) k e)
      i_store

-- Two elements in front, and then the others.
to_front :
    (ps qs rs : List ℕ) (x y : ℕ) → Perm (ps ++ y ∷ (qs ++ x ∷ rs)) (y ∷ x ∷ ((ps ++ qs) ++ rs))
to_front ps qs rs x y = Perm.trans (perm_middle ps (qs ++ x ∷ rs)) (
    Perm.cons y (
      subst (λ l. Perm l (x ∷ ((ps ++ qs) ++ rs))) (append_assoc ps qs (x ∷ rs))
        (perm_middle (ps ++ qs) rs)))

exchanged :
    (ps qs rs : List ℕ) (x y : ℕ) → Perm (ps ++ y ∷ (qs ++ x ∷ rs)) (ps ++ x ∷ (qs ++ y ∷ rs))
exchanged ps qs rs x y =
    Perm.trans (to_front ps qs rs x y)
      (Perm.trans (Perm.swap _ _ _) (Perm.symm (to_front ps qs rs y x)))

exchanged-length :
    (ps qs rs : List ℕ) (x y : ℕ)
    → length (ps ++ y ∷ (qs ++ x ∷ rs)) ≡ length (ps ++ x ∷ (qs ++ y ∷ rs))
exchanged-length ps qs rs x y = omega (
  arith,
  length-append ps (y ∷ (qs ++ x ∷ rs)),
  length-append ps (x ∷ (qs ++ y ∷ rs)),
  length-append qs (x ∷ rs),
  length-append qs (y ∷ rs),
)

-- The cells are those of a permutation.
abbrev pub Permutes : List ℕ → Array ℕ → Type 0
Permutes xs result = (ys : List ℕ) × (result ≡ filled ys) × Perm ys xs × (length ys ≡ length xs)

swap-Permutes :
    (xs : List ℕ) (k i : ℕ) → k ≤ i → i < length xs → Returns (swap k i (filled xs)) (Permutes xs)
swap-Permutes xs k i l h =
    let (ps, x, zs, e, a) = split_at xs k (omega (arith, l, h)) in
    elim (dec_lt k i) [
      | no p ↦
          let together : k ≡ i = omega (arith, l, p) in
          let kept : swap k i (filled xs) ≡ ok (filled xs) =
            subst (λ j. swap k j (filled xs) ≡ ok (filled xs)) together
              (subst (λ t. swap k k (filled t) ≡ ok (filled t)) (sym e) (swap-same ps zs x k a)) in
          rw kept (xs, refl, Perm.refl xs, refl)
      | yes p ↦
          let inside : i - k - 1 < length zs =
            omega (arith, h, a, p, ap length e, length-append ps (x ∷ zs)) in
          let (qs, y, rs, f, b) = split_at zs (i - k - 1) inside in
          let whole : xs ≡ ps ++ x ∷ (qs ++ y ∷ rs) = e ∙ ap (λ t. ps ++ x ∷ t) f in
          let at_i : i ≡ length (ps ++ x ∷ qs) =
            omega (arith, a, b, p, length-append ps (x ∷ qs)) in
          rw whole (
            rw (swap-distinct ps qs rs x y k i a at_i) (
              ps ++ y ∷ (qs ++ x ∷ rs),
              refl,
              exchanged ps qs rs x y,
              exchanged-length ps qs rs x y,
            ))
    ]

randomize-Permutes :
    (rand : ℕ → ℕ) (i r : ℕ) (xs : List ℕ)
    → i < length xs
    → Returns (randomize rand i r (filled xs)) (λ o. Permutes xs (o.1))
unfolding randomize
randomize-Permutes rand zero r xs h = (xs, refl, Perm.refl xs, refl)
randomize-Permutes rand (suc i) r xs h =
    let next = xor 64 (r * 2 % 2 ^ 64) (rand (suc i)) in
    Returns-bind (Permutes xs) (λ o. Permutes xs (o.1))
      (swap (next % (suc i + 1)) (suc i) (filled xs)) _
      (swap-Permutes xs (next % (suc i + 1)) (suc i) (omega arith) h)
      (λ v (ys, e, p, m). rw e (
        Returns_mono (randomize rand i next (filled ys))
          (λ o (zs, f, q, k). (zs, f, Perm.trans q p, k ∙ m))
          (randomize-Permutes rand i next ys (omega (arith, h, m)))))

-- Where malloc gives a block of max cells, and max is not 0: whatever rand gives and r was before,
-- permutation returns, and its result has each of the multiples of the scale from 0 to max - 1,
-- below 2 ^ 64, once.
pub permutation-Permutes :
    (rand : ℕ → ℕ) (seed n : ℕ) (scale : ℤ) (r : ℕ)
    → Returns (permutation rand seed (some (malloc (suc n))) (suc n) scale r) (λ o.
      (result : Array ℕ) × (o.1 ≡ some result)
      × Permutes (tabulate (scaled_to scale) 0 (suc n)) result)
unfolding permutation
permutation-Permutes rand seed n scale r =
    let xs = tabulate (scaled_to scale) 0 (suc n) in
    let r' = if r == 0 then seed else r in
    rw (fill-ok (λ i. ok (scaled_to scale i)) (scaled_to scale) (suc n) 0 [] refl (λ i h. refl)) (
      Returns-bind (λ o. Permutes xs (o.1)) _ (randomize rand n r' (filled xs)) _
        (randomize-Permutes rand n r' xs
          (omega (arith, length-tabulate (scaled_to scale) 0 (suc n))))
        (λ o p. (o.1, refl, p)))
