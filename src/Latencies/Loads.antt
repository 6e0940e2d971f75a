-- ===== src/Latencies/Loads.antt =====
-- How many pointers benchmark_loads follows, against the divisor of compute_latency.
use numafac.Latencies.{
  MemState, one, five, ten, fifty, hundred, hundreds, iterate_loads, benchmark_loads, count_of,
}
use numafac.Prelude.{ℕ, zero, suc, ◌+◌, ◌*◌, ◌/◌, ◌≡◌, refl, ap, ◌∙◌, arith}

-- The pointer that is reached by following so many.
abbrev pub chase : (ℕ → ℕ) → ℕ → ℕ → ℕ
chase memory zero p = p
chase memory (suc n) p = chase memory n (memory p)

module _ (memory : ℕ → ℕ) where
  recount : (m n p : ℕ) → m ≡ n → chase memory m p ≡ chase memory n p
  recount m n p e = ap (λ k. chase memory k p) e

  chase-add : (m n p : ℕ) → chase memory n (chase memory m p) ≡ chase memory (m + n) p
  chase-add zero n p = recount n (0 + n) p (omega arith)
  chase-add (suc m) n p =
      chase-add m n (memory p) ∙ recount (suc (m + n)) (suc m + n) p (omega arith)

  hundred-chase : (p : ℕ) → hundred memory p ≡ chase memory 100 p
  unfolding one five ten fifty hundred
  hundred-chase p = refl

  hundreds-chase : (n p : ℕ) → hundreds memory n p ≡ chase memory (100 * n) p
  unfolding hundreds
  hundreds-chase zero p = refl
  hundreds-chase (suc n) p =
      hundreds-chase n (hundred memory p)
      ∙ ap (chase memory (100 * n)) (hundred-chase p)
      ∙ chase-add 100 (100 * n) p
      ∙ recount (100 + 100 * n) (100 * suc n) p (omega arith)

  iterate_loads-chase :
      (count n p : ℕ) → iterate_loads memory count n p ≡ chase memory (100 * count * n) p
  unfolding iterate_loads
  iterate_loads-chase count zero p = recount 0 (100 * count * 0) p (omega arith)
  iterate_loads-chase count (suc n) p =
      iterate_loads-chase count n (hundreds memory count p)
      ∙ ap (chase memory (100 * count * n)) (hundreds-chase count p)
      ∙ chase-add (100 * count) (100 * count * n) p
      ∙ recount (100 * count + 100 * count * n) (100 * count * suc n) p (grind arith)

  -- So many iterations of `benchmark_loads` follow exactly as many pointers as `compute_latency`
  -- divides the time by: the count that it computes from the same state, times the iterations.
  pub benchmark_loads-count :
      (iterations : ℕ) (state : MemState) (p : ℕ)
      → benchmark_loads memory iterations state p ≡ chase memory (count_of state * iterations) p
  unfolding benchmark_loads count_of
  benchmark_loads-count iterations state p =
      iterate_loads-chase (state.len / (state.line * 100) + 1) iterations p
