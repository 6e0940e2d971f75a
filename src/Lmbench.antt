-- ===== src/Lmbench.antt =====
-- lmbench3/src/lat_mem_rd.c: the sizes at which memory latency is measured.
pub mod Sizes
pub mod Units
pub mod Strides
pub mod Thrash
pub mod Results
pub mod Child
pub mod Parent
pub mod System
pub mod Scheduling
pub mod Getopt
pub mod Enough
pub mod Statistics
pub mod Arguments
pub mod Regions
pub mod Permutation
use numafac.Latencies.{MemState}
use numafac.Libc.{TextBytes, scan_int}
use numafac.Prelude.{
  ℕ, zero, suc, ◌+◌, ◌*◌, ◌/◌, ◌%◌, ◌^◌, true, false, ◌||◌, Option, none, some, List, [], ◌∷◌, ltb,
  leb, ◌==◌, if◌then◌else◌, ℤ, ulong, division_by_zero, Run, ok, fault, out_of_fuel, ◌>>=◌, ◌>>◌,
}

-- The timer, the page size and the division of lib_timing.c, as they answer.
pub record Timer (F : Type 0) : Type 0 where
  pub getpagesize : ℕ
  pub bench : MemState → ℕ → ℤ → ℤ → ℕ × ℕ
  pub per_load : ℕ → ℕ → F

-- for (s = 4 * 1024; s <= k; s *= 2) ;
unfoldable pub doubled : ℕ → ℕ → ℕ → Run ℕ
doubled zero s k = out_of_fuel
doubled (suc fuel) s k = elim (leb s k) [ true ↦ doubled fuel (s * 2 % 2 ^ 64) k | false ↦ ok s ]

-- The last branch of `step`. Each round adds at least 1 to s, so that k rounds are enough while
-- 2 * k is below 2 ^ 64.
unfoldable pub step_large : ℕ → Run ℕ
step_large k = do s ← doubled k (4 * 1024) k; ok ((k + s / 4) % 2 ^ 64)

unfoldable pub step : ℕ → Run ℕ
step k =
    if ltb k 1024
    then ok (k * 2 % 2 ^ 64)
    else if ltb k (4 * 1024)
    then ok ((k + 1024) % 2 ^ 64)
    else step_large k

-- last: the last character of a text. `bytes` does not ask for that of the empty text.
unfoldable pub last : TextBytes → ℕ
last [] = 0
last (c ∷ []) = c
last (c ∷ d ∷ s) = last (d ∷ s)

-- n, and n times 1024 or 1024 * 1024 if the last character is k or m, in either case.
unfoldable pub scaled : ℕ → ℕ → ℕ
scaled c n =
    if c == 107 || c == 75
    then n * 1024 % 2 ^ 64
    else if c == 109 || c == 77
    then n * (1024 * 1024) % 2 ^ 64
    else n

-- What bytes returns, given what sscanf (s, "%llu", &n) reads.
unfoldable pub bytes_from : ℕ → Option ℤ → ℕ
unfolding scaled
bytes_from c none = 0
bytes_from c (some n) = scaled c (ulong n)

unfoldable pub bytes : TextBytes → ℕ
unfolding bytes_from last
bytes s = bytes_from (last s) (scan_int s).0

module _ {F : Type 0} (timer : Timer F) (stride parallel : ℕ) (warmup repetitions : ℤ) where
  -- The state that `loads` measures.
  unfoldable pub loads_state : ℕ → ℕ → MemState
  loads_state len range = record {
    width = 1;
    len = range;
    maxlen = len;
    line = stride;
    pagesize = timer.getpagesize;
  }

  -- 100 * (state.len / (state.line * 100) + 1), of size_t: a division by zero at the stride 0.
  unfoldable pub loads_count : ℕ → Run ℕ
  loads_count range =
      let line = stride * 100 % 2 ^ 64 in
      if line == 0 then fault division_by_zero else ok (100 * (range / line + 1) % 2 ^ 64)

  -- What loads does at a range that is not below the stride: the size and the latency that it
  -- prints, where the time is for so many loads in each of the iterations.
  unfoldable pub timed_loads : ℕ → ℕ → Run (Option (ℕ × F))
  unfolding loads_state loads_count
  timed_loads len range = do
    count ← loads_count range
    let (time, n) = timer.bench (loads_state len range) parallel warmup repetitions
    ok (some (range, timer.per_load time (count * n % 2 ^ 64)))

  -- loads, which prints nothing at a range below the stride.
  unfoldable pub loads : ℕ → ℕ → Run (Option (ℕ × F))
  unfolding timed_loads
  loads len range = if ltb range stride then ok none else timed_loads len range

  -- for (range = LOWER; range <= len; range = step(range)) loads(...);
  unfoldable pub sweep : ℕ → ℕ → ℕ → Run (List (Option (ℕ × F)))
  sweep zero len range = out_of_fuel
  sweep (suc fuel) len range = elim (leb range len) [
    | true ↦ do x ← loads len range; next ← step range; rest ← sweep fuel len next; ok (x ∷ rest)
    | false ↦ ok []
  ]

  -- The loop of main at one stride, for an argument in megabytes.
  unfoldable pub sweep_megabytes : ℤ → Run (List (Option (ℕ × F)))
  sweep_megabytes megabytes =
      let len = ulong megabytes * (1024 * 1024) % 2 ^ 64 in sweep (len + 1) len 512

-- The loops of main over the strides that are given, in its second branch.
unfoldable pub sweep_strides :
    {F : Type 0} → Timer F → ℕ → ℤ → ℤ → ℤ → List TextBytes → Run (List (List (Option (ℕ × F))))
sweep_strides timer parallel warmup repetitions megabytes [] = ok []
sweep_strides timer parallel warmup repetitions megabytes (a ∷ av) = do
  sizes ← sweep_megabytes timer (bytes a) parallel warmup repetitions megabytes
  rest ← sweep_strides timer parallel warmup repetitions megabytes av
  ok (sizes ∷ rest)
