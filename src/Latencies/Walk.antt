-- ===== src/Latencies/Walk.antt =====
-- The sizes of the caches above the first PU.
use numafac.Latencies.{HwObj, cache, other, cache_walk}
use numafac.Prelude.{
  ℕ, suc, ◌+◌, ◌≤◌, ◌<◌, ◌≡◌, refl, ap, some, List, [], ◌∷◌, ◌++◌, append-nil, append_assoc, arith,
  length, drop, replicate, length-append, ℤ, pos, out_of_bounds, ok, fault, store-out_of_bounds,
  filled, store-filled,
}

-- The sizes of the caches among the objects, in order.
abbrev pub sizes : List HwObj → List ℤ
sizes [] = []
sizes (cache depth size ∷ objs) = size ∷ sizes objs
sizes (other ∷ objs) = sizes objs

cache_walk-behind :
    (objs : List HwObj) (done free : List ℤ) (level : ℕ)
    → level ≡ length done
    → length (sizes objs) ≤ length free
    → cache_walk objs level (filled (done ++ free))
      ≡ ok (filled (done ++ (sizes objs ++ drop (length (sizes objs)) free)))
unfolding cache_walk
cache_walk-behind [] done free level e h = refl
cache_walk-behind (other ∷ objs) done free level e h = cache_walk-behind objs done free level e h
cache_walk-behind (cache depth size ∷ objs) done [] level e h = elim h [ ]
cache_walk-behind (cache depth size ∷ objs) done (y ∷ free) level e h =
    rw (store-filled y size done free level e) (
      simp append_assoc at (
        cache_walk-behind objs (done ++ size ∷ []) free (level + 1) (rw length-append (omega arith))
          (omega (arith, h))))

length-filled : (xs : List ℤ) → length (filled xs) ≡ length xs
length-filled [] = refl
length-filled (x ∷ xs) = ap suc (length-filled xs)

cache_walk-beyond :
    (objs : List HwObj) (done free : List ℤ) (level : ℕ)
    → level ≡ length done
    → length free < length (sizes objs)
    → cache_walk objs level (filled (done ++ free)) ≡ fault out_of_bounds
unfolding cache_walk
cache_walk-beyond [] done free level e h = elim h [ ]
cache_walk-beyond (other ∷ objs) done free level e h = cache_walk-beyond objs done free level e h
cache_walk-beyond (cache depth size ∷ objs) done [] level e h =
    rw
      (store-out_of_bounds (filled (done ++ [])) level size
        (λ p. absurd (omega (arith, e, rw (append-nil done, length-filled done) at p))))
      refl
cache_walk-beyond (cache depth size ∷ objs) done (y ∷ free) level e h =
    rw (store-filled y size done free level e) (
      simp append_assoc at (
        cache_walk-beyond objs (done ++ size ∷ []) free (level + 1) (rw length-append (omega arith))
          (omega (arith, h))))

-- With at most three caches above the first PU, `cache_sizes` holds their sizes in order and zeros
-- behind them; with more, the walk writes past its end.
pub cache_walk-sizes :
    (objs : List HwObj)
    → (length (sizes objs) ≤ 3
        → cache_walk objs 0 (replicate 3 (some (pos 0)))
          ≡ ok (filled (sizes objs ++ drop (length (sizes objs)) (replicate 3 (pos 0)))))
      × (3 < length (sizes objs)
          → cache_walk objs 0 (replicate 3 (some (pos 0))) ≡ fault out_of_bounds)
cache_walk-sizes objs = (
  λ h. cache_walk-behind objs [] (replicate 3 (pos 0)) 0 refl h,
  λ h. cache_walk-beyond objs [] (replicate 3 (pos 0)) 0 refl h,
)
