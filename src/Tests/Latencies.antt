-- ===== src/Tests/Latencies.antt =====
-- The theorems on latencies/compute-latencies.c, each at an input.
use numafac.Libc.{
  TextBytes, codes, is_space, is_digit, skip_spaces, decimal, scan_int, scan_signed, scan_unsigned,
  with_sign, digits_value,
}
use numafac.Libc.RoundTrip.{scan_int-gap, scan_int-decimal}
use numafac.Os.{Os, Floats}
use numafac.Topology.Matrix.{na_fill_multicore_latency_matrix}
use numafac.Topology.Matrix.Entries.{Scans}
use numafac.Latencies.{
  cache, other, Hardware, benchmark_loads, state_of, count_of, cache_walk, core_rows,
  write_latencies,
}
use numafac.Latencies.Loads.{chase, benchmark_loads-count}
use numafac.Latencies.Walk.{cache_walk-sizes}
use numafac.Latencies.Costs.{IsCost, cost_row, core_rows-IsCost}
use numafac.Latencies.Written.{ReadsBack, costs, na_fill_multicore-write_latencies}
use numafac.Tests.Machine.{sevens}
use numafac.Prelude.{
  ℕ, zero, suc, ◌+◌, ◌*◌, ◌/◌, ◌%◌, ◌≤◌, ◌<◌, ◌≡◌, refl, sym, ap, ◌∙◌, true, none, some, List, [],
  ◌∷◌, ◌++◌, map, arith, ℕ_discrete, ltb, ◌==◌, if◌then◌else◌, length, get_elem?, replicate, pos,
  pos_part, out_of_bounds, ok, fault, ◌>>=◌, malloc, filled, tabulate, get_elem?-tabulate,
}

-- Natural numbers, which stand for floating point numbers.
abbrev naturals : Floats
naturals = record {
  F = ℕ;
  thousandths = λ n. n / 1000;
  scan = λ s. (elim (scan_int s).0 [ none ↦ none | some n ↦ some (pos_part n) ], (scan_int s).1);
  print = decimal;
}

naturals-ReadsBack : ReadsBack naturals (λ x. x)
unfolding is_digit
naturals-ReadsBack = record {
  scan-print = λ gap x rest a.
      rw
        (
          scan_int-gap gap (decimal x ++ (codes " " ++ rest)) a,
          scan_int-decimal x (codes " " ++ rest) refl,
        )
        refl;
}

sevens-Scans_ℕ : (n : ℕ) → Scans naturals (sevens n) (replicate n 7)
unfolding scan_int scan_signed scan_unsigned with_sign digits_value is_digit is_space skip_spaces
sevens-Scans_ℕ zero = tt
sevens-Scans_ℕ (suc zero) = ([], refl, tt)
sevens-Scans_ℕ (suc (suc n)) = (sevens (suc n), refl, sevens-Scans_ℕ (suc n))

-- Eight nodes of two cores, which share a cache of depth 2.
abbrev twins : Hardware ℕ
twins = record {
  Core = ℕ;
  nb_nodes = 8;
  nb_pus = 16;
  ancestors = other ∷ cache 1 (pos 64) ∷ cache 2 (pos 512) ∷ other ∷ [];
  core = λ i. some i;
  common_ancestor = λ i j. cache 2 (pos 512);
  getpagesize = 4096;
  benchmp = λ s. (s.len, 1);
  per_load = λ t n. t;
}

cache_walk-sizes_example :
    (2 ≤ 3
      → cache_walk (twins.ancestors) 0 (replicate 3 (some (pos 0)))
        ≡ ok (filled (pos 64 ∷ pos 512 ∷ pos 0 ∷ [])))
    × (3 < 2 → cache_walk (twins.ancestors) 0 (replicate 3 (some (pos 0))) ≡ fault out_of_bounds)
cache_walk-sizes_example = cache_walk-sizes (twins.ancestors)

next : ℕ → ℕ
next p = (p + 512) % 4096

benchmark_loads-count_example :
    benchmark_loads next 3 (state_of 4096 51200) 0
    ≡ chase next (count_of (state_of 4096 51200) * 3) 0
benchmark_loads-count_example = benchmark_loads-count next 3 (state_of 4096 51200) 0

abbrev node_of : List ℕ
node_of = tabulate (λ i. i / 2) 0 16

abbrev nodes : List (List ℕ)
nodes = replicate 8 (replicate 8 7)

abbrev cost : ℕ → ℕ → ℕ
cost i j = if i == j then 5 else if i / 2 == j / 2 then 6 else 7

get_elem?-replicate {ℓ} :
    {A : Type ℓ} (n i : ℕ) (a : A) → i < n → get_elem? (replicate n a) i ≡ some a
get_elem?-replicate zero i a h = elim h [ ]
get_elem?-replicate (suc n) zero a h = refl
get_elem?-replicate (suc n) (suc i) a h = get_elem?-replicate n i a (omega arith)

node_of-half : (i : ℕ) → i < 16 → get_elem? node_of i ≡ some (i / 2)
node_of-half i h = get_elem?-tabulate (λ i. i / 2) 16 0 i h ∙ ap (λ k. some (k / 2)) (zero_add i)
  where
    zero_add : (i : ℕ) → 0 + i ≡ i
    zero_add i = omega arith

costs-hold :
    (i j : ℕ)
    → i < 16
    → j < 16
    → IsCost naturals twins (5 ∷ 6 ∷ 9 ∷ []) nodes node_of i j (cost i j)
costs-hold i j hi hj = elim (ℕ_discrete i j) [
  | Dec.yes e ↦ IsCost.itself (i / 2) (node_of-half i hi) e (ground arith)
  | Dec.no ne ↦ elim (ℕ_discrete (i / 2) (j / 2)) [
    | Dec.yes e ↦
        IsCost.by_cache (i / 2) 1 (pos 512) i j (node_of-half i hi)
          (node_of-half j hj ∙ ap some (sym e)) ne refl refl refl (omega arith) (ground arith)
    | Dec.no apart ↦ IsCost.between (i / 2) (j / 2) (node_of-half i hi) (node_of-half j hj) apart (
      replicate 8 7,
      get_elem?-replicate 8 (i / 2) (replicate 8 7) (omega arith),
      get_elem?-replicate 8 (j / 2) 7 (omega arith) ∙ ground arith,
    )
  ]
]

-- The files once main wrote `out`.
abbrev after : TextBytes → Os
after out = record {
  popen = λ c. none;
  fopen = λ p. some (if ltb 40 (length p) then out else sevens 64);
  opendir = λ p. none;
}

core_rows-IsCost_example :
    core_rows naturals twins (5 ∷ 6 ∷ 9 ∷ []) (map filled nodes) (filled (map pos node_of)) 16
    ≡ ok (filled (tabulate (cost_row naturals twins (5 ∷ 6 ∷ 9 ∷ []) nodes node_of cost 16) 0 16))
core_rows-IsCost_example =
    core_rows-IsCost naturals twins (5 ∷ 6 ∷ 9 ∷ []) nodes node_of cost 16 costs-hold

na_fill_multicore-write_latencies_example :
    (write_latencies naturals twins
        (some (sevens 64))
        true
        (5 ∷ 6 ∷ 9 ∷ [])
        8
        16
        (filled (map pos node_of))
      >>= λ out. na_fill_multicore_latency_matrix naturals (after out) (replicate 16 (malloc 16)))
    ≡ ok (
        map filled (
          map
            (map (λ x. x))
            (costs naturals twins (λ x. x) naturals-ReadsBack (5 ∷ 6 ∷ 9 ∷ []) nodes node_of cost)))
na_fill_multicore-write_latencies_example =
    na_fill_multicore-write_latencies naturals twins (λ x. x) naturals-ReadsBack (5 ∷ 6 ∷ 9 ∷ [])
      nodes node_of cost (sevens 64) 8 after (omega arith) (sevens-Scans_ℕ 64) costs-hold
      (λ out. refl) (λ out. refl)
