-- ===== src/Prelude/Arrays.antt =====
-- Arrays from `malloc`: a cell holds nothing until it is written, and an access outside is a fault.
use numafac.Prelude.Tests.{Bool-cases}
use mathlib.Core.Logic.{inl, inr}
use numafac.Prelude.Tests.{lt→ltb}
use numafac.Prelude.Tests.{ltb→lt}
use mathlib.Core.Bool.{true, false}
use mathlib.Core.Path.{ap, sym}
use Prim.Native.Nat.{ℕ, zero, suc, ◌<◌}
use mathlib.Core.Path.{◌≡◌}
use mathlib.Core.List.{List, [], ◌∷◌, map}
use mathlib.Core.Option.{Option, none, some}
use Prim.Native.Nat.{◌+◌}
use mathlib.Core.List.{◌++◌, append_assoc}
use mathlib.Core.Path.{◌∙◌, refl}
use numafac.Prelude.Lists.{length-append, length-set, set-append}
use numafac.Prelude.Runs.{◌>>=◌}
use native.Mathlib.Omega.{arith}
use numafac.Prelude.Tests.{ltb, if◌then◌else◌}
use numafac.Prelude.Lists.{length, get_elem?, set, replicate}
use numafac.Prelude.Runs.{Run, ok, fault, out_of_bounds, determinate}

abbrev pub Array {ℓ} : Type ℓ → Type ℓ
Array A = List (Option A)

module _ {ℓ} {A : Type ℓ} where
  abbrev pub malloc : ℕ → Array A
  malloc n = replicate n none

  -- a[i], as a value.
  unfoldable pub load : Array A → ℕ → Run A
  load a i = elim (get_elem? a i) [ none ↦ fault out_of_bounds | some c ↦ determinate c ]

  -- a[i] = v.
  unfoldable pub store : Array A → ℕ → A → Run (Array A)
  store a i v = if ltb i (length a) then ok (set a i (some v)) else fault out_of_bounds

  pub store-ok : (a : Array A) (i : ℕ) (v : A) → i < length a → store a i v ≡ ok (set a i (some v))
  unfolding store
  store-ok a i v h = ground arith

  pub store-out_of_bounds :
      (a : Array A) (i : ℕ) (v : A) → ¬ (i < length a) → store a i v ≡ fault out_of_bounds
  unfolding store
  store-out_of_bounds a i v h = ground arith

  -- An array all of whose cells are written.
  abbrev pub filled : List A → Array A
  filled xs = map some xs

  pub load-filled :
      (xs : List A) (i : ℕ) {x : A} → get_elem? xs i ≡ some x → load (filled xs) i ≡ ok x
  unfolding load
  load-filled [] i h = ground arith
  load-filled (y ∷ xs) zero h = ground arith
  load-filled (y ∷ xs) (suc i) h = load-filled xs i h

module _ {ℓ} {A : Type ℓ} where
  -- for (i = k; i < k + n; i++) a[i] = f(i);
  unfoldable pub fill : (ℕ → Run A) → ℕ → ℕ → Array A → Run (Array A)
  fill f zero i a = ok a
  fill f (suc n) i a = do v ← f i; a' ← store a i v; fill f n (i + 1) a'

  -- g(k), ..., g(k + n - 1).
  abbrev pub tabulate : (ℕ → A) → ℕ → ℕ → List A
  tabulate g k zero = []
  tabulate g k (suc n) = g k ∷ tabulate g (k + 1) n

  pub get_elem?-tabulate :
      (g : ℕ → A) (n k i : ℕ) → i < n → get_elem? (tabulate g k n) i ≡ some (g (k + i))
  get_elem?-tabulate g zero k i h = absurd (omega arith)
  get_elem?-tabulate g (suc n) k zero h = ap (λ j. some (g j)) (omega arith)
  get_elem?-tabulate g (suc n) k (suc i) h =
      get_elem?-tabulate g n (k + 1) i (omega arith) ∙ ap (λ j. some (g j)) (omega arith)

  pub length-tabulate : (g : ℕ → A) (k n : ℕ) → length (tabulate g k n) ≡ n
  length-tabulate g k zero = refl
  length-tabulate g k (suc n) = ap suc (length-tabulate g (k + 1) n)

  -- The loop writes the cells behind a written prefix, in order.
  pub fill-ok :
      (f : ℕ → Run A) (g : ℕ → A) (n k : ℕ) (a : Array A)
      → length a ≡ k
      → ((i : ℕ) → i < k + n → f i ≡ ok (g i))
      → fill f n k (a ++ malloc n) ≡ ok (a ++ filled (tabulate g k n))
  unfolding fill
  fill-ok f g zero k a e h = refl
  fill-ok f g (suc n) k a e h =
      rw (h k (omega arith), written, placed)
        (simp append_assoc at (
          fill-ok f g n (k + 1) (a ++ some (g k) ∷ []) (rw length-append (omega arith))
            (λ i p. h i (omega arith))))
    where
      written :
          store (a ++ none ∷ malloc n) k (g k) ≡ ok (set (a ++ none ∷ malloc n) k (some (g k)))
      written = store-ok (a ++ none ∷ malloc n) k (g k) (rw length-append (omega arith))

      placed : set (a ++ none ∷ malloc n) k (some (g k)) ≡ a ++ some (g k) ∷ malloc n
      placed =
          ap (λ j. set (a ++ none ∷ malloc n) j (some (g k))) (sym e)
          ∙ set-append a (malloc n) none (some (g k))

module _ {ℓ} {A : Type ℓ} where
  pub load-filled_beyond :
      (xs : List A) (i : ℕ) → ¬ (i < length xs) → load (filled xs) i ≡ fault out_of_bounds
  unfolding load
  load-filled_beyond [] i h = ground arith
  load-filled_beyond (x ∷ xs) zero h = absurd (h (omega arith))
  load-filled_beyond (x ∷ xs) (suc i) h = load-filled_beyond xs i (λ p. h (omega arith))

module _ {ℓ} {A : Type ℓ} (y v : A) where
  set-filled :
      (xs ys : List A) → set (filled (xs ++ y ∷ ys)) (length xs) (some v) ≡ filled (xs ++ v ∷ ys)
  set-filled [] ys = refl
  set-filled (x ∷ xs) ys = ap (λ l. some x ∷ l) (set-filled xs ys)

  inside : (xs ys : List A) → length xs < length (filled (xs ++ y ∷ ys))
  inside [] ys = omega arith
  inside (x ∷ xs) ys = omega (arith, inside xs ys)

  -- A write to a written cell, named by the list in front of it.
  pub store-filled :
      (xs ys : List A) (i : ℕ)
      → i ≡ length xs
      → store (filled (xs ++ y ∷ ys)) i v ≡ ok (filled (xs ++ v ∷ ys))
  store-filled xs ys i e = rw e (
      rw (store-ok (filled (xs ++ y ∷ ys)) (length xs) v (inside xs ys)) (ap ok (set-filled xs ys)))

module _ {ℓ} {A : Type ℓ} (y : A) where
  get_elem?-append_at : (xs ys : List A) → get_elem? (xs ++ y ∷ ys) (length xs) ≡ some y
  get_elem?-append_at [] ys = refl
  get_elem?-append_at (x ∷ xs) ys = get_elem?-append_at xs ys

  -- A read of the cell that the list in front names.
  pub load-filled_at :
      (xs ys : List A) (i : ℕ) → i ≡ length xs → load (filled (xs ++ y ∷ ys)) i ≡ ok y
  load-filled_at xs ys i e = load-filled (xs ++ y ∷ ys) i (rw e (get_elem?-append_at xs ys))

module _ {ℓ} {A : Type ℓ} where
  -- A write that succeeds is inside, and keeps the length.
  pub store-eq-ok :
      (a : Array A) (i : ℕ) (v : A) (b : Array A)
      → store a i v ≡ ok b
      → (i < length a) × (length b ≡ length a)
  unfolding store
  store-eq-ok a i v b h = elim (Bool-cases (ltb i (length a))) [
    | inl e ↦ (ltb→lt i (length a) e, ap length (written e) ∙ length-set a i (some v))
    | inr e ↦ cc (refused e)
  ]
    where
      written : ltb i (length a) ≡ true → b ≡ set a i (some v)
      written e = cc (store-ok a i v (ltb→lt i (length a) e), h)

      refused : ltb i (length a) ≡ false → store a i v ≡ fault out_of_bounds
      refused e = store-out_of_bounds a i v (λ p. cc (lt→ltb i (length a) p, e))

module _ {ℓ} {A : Type ℓ} where
  length-middle : (xs ys : Array A) (c : Option A) → length xs < length (xs ++ c ∷ ys)
  length-middle xs ys c = rw (length-append xs (c ∷ ys)) (omega arith)

  load-middle : (xs ys : Array A) (v : A) → load (xs ++ some v ∷ ys) (length xs) ≡ ok v
  unfolding load
  load-middle [] ys v = refl
  load-middle (x ∷ xs) ys v = load-middle xs ys v

  -- A read and a write of the cell that the part in front names, whatever the other cells hold.
  pub load-append :
      (xs ys : Array A) (i : ℕ) (v : A) → i ≡ length xs → load (xs ++ some v ∷ ys) i ≡ ok v
  load-append xs ys i v e = rw e (load-middle xs ys v)

  pub store-append :
      (xs ys : Array A) (c : Option A) (i : ℕ) (v : A)
      → i ≡ length xs
      → store (xs ++ c ∷ ys) i v ≡ ok (xs ++ some v ∷ ys)
  store-append xs ys c i v e = rw e (
      store-ok (xs ++ c ∷ ys) (length xs) v (length-middle xs ys c)
      ∙ ap ok (set-append xs ys c (some v)))
