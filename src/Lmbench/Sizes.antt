-- ===== src/Lmbench/Sizes.antt =====
-- The loop over the sizes ends, and leaves no gap larger than a factor of two.
use numafac.Lmbench.{Timer, doubled, step_large, step, loads_count, loads, sweep, sweep_megabytes}
use numafac.Prelude.{
  ℕ, zero, suc, ◌+◌, ◌*◌, ◌/◌, ◌%◌, ◌^◌, ◌≤◌, ◌<◌, ◌≡◌, refl, ◌⊎◌, inl, inr, true, false, Option,
  none, some, List, [], ◌∷◌, arith, ltb, leb, ◌==◌, leb→le, ltb→lt, Bool-cases, ℤ, pos, Run, ok,
  exit, fault, out_of_fuel, ◌>>=◌, Returns, value_or, Returns-value_or,
}

doubled-more :
    (fuel s k : ℕ)
    → leb s k ≡ true
    → s * 2 < 2 ^ 64
    → doubled (suc fuel) s k ≡ doubled fuel (s * 2) k
unfolding doubled
doubled-more fuel s k h b =
    let same : s * 2 % 2 ^ 64 ≡ s * 2 = omega arith in rw (h, doubled, same) refl

doubled-last : (fuel s k : ℕ) → leb s k ≡ false → doubled (suc fuel) s k ≡ ok s
unfolding doubled
doubled-last fuel s k h = rw (h, doubled) refl

-- s ends above k, and was not more than k before it was last doubled.
doubled-Returns :
    (fuel s k : ℕ)
    → 4096 ≤ s
    → s ≤ 2 * k
    → 2 * k < 2 ^ 64
    → k < s + fuel
    → Returns (doubled (suc fuel) s k) (λ r. (k < r) × (r ≤ 2 * k))
doubled-Returns zero s k a b c d =
    let large : leb s k ≡ false = ground arith in rw (doubled-last zero s k large) (omega arith, b)
doubled-Returns (suc fuel) s k a b c d = elim (Bool-cases (leb s k)) [
  | inl e ↦
      let small : s ≤ k = leb→le s k e in
      rw (doubled-more (suc fuel) s k e (omega arith))
        (doubled-Returns fuel (s * 2) k (omega arith) (omega arith) c (omega arith))
  | inr e ↦ rw (doubled-last (suc fuel) s k e) (ground arith, b)
]

-- The next size is larger, and at most twice as large.
abbrev pub Grows : ℕ → ℕ → Type 0
Grows k r = (k < r) × (r ≤ 2 * k)

step_large-Grows : (k : ℕ) → 4096 ≤ k → 2 * k < 2 ^ 63 → Returns (step_large k) (Grows k)
unfolding step_large
step_large-Grows zero a b = absurd (omega arith)
step_large-Grows (suc k) a b =
    after (doubled (suc k) (4 * 1024) (suc k))
      (doubled-Returns k 4096 (suc k) (omega arith) (omega arith) (omega arith) (omega arith))
  where
    after :
        (r : Run ℕ)
        → Returns r (λ s. (suc k < s) × (s ≤ 2 * suc k))
        → Returns (r >>= λ s. ok ((suc k + s / 4) % 2 ^ 64)) (Grows (suc k))
    after (ok s) h = (omega (arith, h), omega (arith, h))
    after (exit n) h = h
    after (fault e) h = h
    after out_of_fuel h = h

pub step-Grows : (k : ℕ) → 512 ≤ k → 2 * k < 2 ^ 63 → Returns (step k) (Grows k)
unfolding step
step-Grows k a b = elim (Bool-cases (ltb k 1024)) [
  | inl e ↦ rw e (ground arith)
  | inr e ↦ elim (Bool-cases (ltb k (4 * 1024))) [
    | inl f ↦ rw (e, f) (ground arith)
    | inr f ↦ rw (e, f) (step_large-Grows k (ground arith) b)
  ]
]

module _ {F : Type 0} (timer : Timer F) (stride parallel : ℕ) (warmup repetitions : ℤ) where
  -- The state that is measured at a size, and the time and the iterations that come back.
  abbrev pub timed : ℕ → ℕ → ℕ × ℕ
  timed len size =
      timer.bench
        record { width = 1; len = size; maxlen = len; line = stride; pagesize = timer.getpagesize }
        parallel warmup repetitions

  -- What is printed for a size: nothing if it is below the stride. Otherwise the time of an
  -- iteration is that of 100 * k loads, the least multiple of 100 whose loads, a stride each,
  -- lead beyond the size.
  abbrev pub Shows : ℕ → ℕ → Option (ℕ × F) → Type 0
  Shows len size x =
      ((size < stride) × (x ≡ none))
      ⊎ ((stride ≤ size)
          × ((k : ℕ) × (size < 100 * k * stride)
              × (100 * k * stride ≤ size + 100 * stride)
              × (x
                  ≡ some (
                    size,
                    timer.per_load (timed len size).0 (100 * k * (timed len size).1 % 2 ^ 64),
                  ))))

  loads_count-lines :
      (size q : ℕ)
      → 0 < stride
      → stride ≤ size
      → size < 2 ^ 52
      → q ≡ size / (stride * 100) + 1
      → loads_count timer stride parallel warmup repetitions size ≡ ok (100 * q)
  unfolding loads_count
  loads_count-lines size q p l b e =
      let whole : stride * 100 % 2 ^ 64 ≡ stride * 100 = omega arith in
      let positive : (stride * 100 == 0) ≡ false = ground arith in
      let small : 100 * (size / (stride * 100) + 1) % 2 ^ 64 ≡ 100 * q = omega arith in
      rw (whole, positive, small) refl

  within : (size d : ℕ) → 0 < d → (size < (size / d + 1) * d) × ((size / d + 1) * d ≤ size + d)
  within size d p = (grind arith, grind arith)

  regroup : (k s : ℕ) → k * (s * 100) ≡ 100 * k * s
  regroup k s = grind arith

  loads-Shows :
      (len size : ℕ)
      → 0 < stride
      → size < 2 ^ 52
      → Returns (loads timer stride parallel warmup repetitions len size) (Shows len size)
  unfolding loads
  loads-Shows len size p b = elim (Bool-cases (ltb size stride)) [
    | inl e ↦ rw e (inl (ltb→lt size stride e, refl))
    | inr e ↦
        let l : stride ≤ size = ground arith in
        let q = size / (stride * 100) + 1 in
        let (lower, upper) = within size (stride * 100) (omega arith) in
        rw (e, loads_count-lines size q p l b refl)
          (inr
            (l, (q, rw (regroup q stride) at lower, omega (arith, upper, regroup q stride), refl)))
  ]

  -- The sizes from `lo` on that are measured: each within the limit, each after the first larger
  -- than the one before and at most twice as large, and the next one over the limit.
  abbrev pub Ladder : ℕ → ℕ → List (Option (ℕ × F)) → Type 0
  Ladder len lo [] = len < lo
  Ladder len lo (x ∷ xs) =
      (lo ≤ len) × Shows len lo x × (next : ℕ) × Grows lo next × Ladder len next xs

  sweep-last :
      (fuel len range : ℕ)
      → leb range len ≡ false
      → sweep timer stride parallel warmup repetitions (suc fuel) len range ≡ ok []
  unfolding sweep
  sweep-last fuel len range h = rw (h, sweep) refl

  sweep-more :
      (fuel len range next : ℕ) (x : Option (ℕ × F))
      → leb range len ≡ true
      → loads timer stride parallel warmup repetitions len range ≡ ok x
      → step range ≡ ok next
      → sweep timer stride parallel warmup repetitions (suc fuel) len range
        ≡ (sweep timer stride parallel warmup repetitions fuel len next >>= λ rest. ok (x ∷ rest))
  unfolding sweep
  sweep-more fuel len range next x h l e = rw (h, sweep, l, e) refl

  extend :
      (len range next : ℕ) (x : Option (ℕ × F))
      → range ≤ len
      → Shows len range x
      → Grows range next
      → (r : Run (List (Option (ℕ × F)))) → Returns r (Ladder len next)
      → Returns (r >>= λ rest. ok (x ∷ rest)) (Ladder len range)
  extend len range next x p s g (ok xs) h = (p, s, next, g, h)
  extend len range next x p s g (exit n) h = h
  extend len range next x p s g (fault e) h = h
  extend len range next x p s g out_of_fuel h = h

  sweep-Ladder :
      (fuel len range : ℕ)
      → 0 < stride
      → len < 2 ^ 52
      → 512 ≤ range
      → len < range + fuel
      → Returns
          (sweep timer stride parallel warmup repetitions (suc fuel) len range)
          (Ladder len range)
  sweep-Ladder zero len range p b c d =
      let over : leb range len ≡ false = ground arith in
      rw (sweep-last zero len range over) (omega arith)
  sweep-Ladder (suc fuel) len range p b c d = elim (Bool-cases (leb range len)) [
    | inl e ↦
        let within : range ≤ len = leb→le range len e in
        let grown = step-Grows range c (omega arith) in
        let next = value_or 0 (step range) in
        let stepped = Returns-value_or (Grows range) 0 (step range) grown in
        let larger : Grows range next = rw stepped at grown in
        let shown = loads-Shows len range p (omega arith) in
        let load = loads timer stride parallel warmup repetitions len range in
        let x = value_or none load in
        let loaded = Returns-value_or (Shows len range) none load shown in
        let shows : Shows len range x = rw loaded at shown in
        rw (sweep-more (suc fuel) len range next x e loaded stepped) (
          extend len range next x within shows larger
            (sweep timer stride parallel warmup repetitions (suc fuel) len next)
            (sweep-Ladder fuel len next p b (omega arith) (omega arith)))
    | inr e ↦ rw (sweep-last (suc fuel) len range e) (ground arith)
  ]

  sweep_from :
      (len m : ℕ)
      → len ≡ m
      → 0 < stride
      → m < 2 ^ 52
      → Returns (sweep timer stride parallel warmup repetitions (len + 1) len 512) (Ladder m 512)
  sweep_from len m e p b =
      let more : len + 1 ≡ suc m = omega arith in
      rw (more, e) (sweep-Ladder m m 512 p b (omega arith) (omega arith))

  -- For a stride of at least 8 bytes, the size of a pointer, and every `int` that is not negative as
  -- the number of megabytes, the loop of lat_mem_rd over the sizes ends. It goes from 512 up to the limit, each size larger than the
  -- one before and at most twice as large, and stops only where the next size is over the limit.
  -- For each size, nothing is printed if it is below the stride; otherwise the size and its
  -- latency: the time that the timer gives for the state with this size and stride, over the
  -- iterations that it gives and the loads of one, the least multiple of 100 whose loads, a stride
  -- each, lead beyond the size.
  pub sweep_megabytes-Ladder :
      (megabytes : ℕ)
      → 8 ≤ stride
      → megabytes < 2 ^ 31
      → Returns
          (sweep_megabytes timer stride parallel warmup repetitions (pos megabytes))
          (Ladder (megabytes * 1_048_576) 512)
  unfolding sweep_megabytes
  sweep_megabytes-Ladder megabytes p h =
      sweep_from (megabytes % 2 ^ 64 * (1024 * 1024) % 2 ^ 64) (megabytes * 1_048_576) (omega arith)
        (omega arith) (omega arith)
