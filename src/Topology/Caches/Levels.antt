-- ===== src/Topology/Caches/Levels.antt =====
-- `na_get_shared_cacheLevel` finds the first level whose list of sharers has more than one entry,
-- and `na_get_cache_cores` the number of its entries.
use numafac.Libc.{
  TextBytes, codes, decimal, sprintf_i, length-sprintf_i, strcpy-ok, strcat-ok, is_digit,
}
use numafac.Libc.RoundTrip.{scan_int-decimal}
use numafac.Os.{Os, read_into, read_int}
use numafac.Topology.Counts.{na_get_numcaches}
use numafac.Topology.Caches.{
  shared_command, shared_level, na_get_shared_cache_level, cache_cores_loop, na_get_cache_cores,
  rounds_from_2,
}
use numafac.Prelude.{
  ℕ, zero, suc, ◌+◌, ◌-◌, ◌^◌, ◌≤◌, ◌<◌, ◌≡◌, refl, sym, ap, ◌∙◌, Option, none, some, [], ◌∷◌, ◌++◌,
  arith, dec_lt, ℕ_discrete, ◌==◌, if◌then◌else◌, length, length-append, ℤ, pos, negsuc, eqb_ℤ, ok,
  Returns, Returns_mono,
}

-- The entries of a line that are separated by commas; a range such as 0-3 is one entry.
abbrev pub entries : TextBytes → ℕ
entries [] = 1
entries (c ∷ s) = if c == 44 then suc (entries s) else entries s

entries_positive : (s : TextBytes) → 0 < entries s
entries_positive [] = omega arith
entries_positive (c ∷ s) = ground (arith, entries_positive s)

-- The pipeline for CPU 0 and the cache of this index.
abbrev pub pipeline : ℕ → TextBytes
pipeline i =
    (codes "cat /sys/devices/system/cpu/cpu0/cache/index" ++ sprintf_i (pos i))
    ++ codes "/shared_cpu_list | sed s/,/'\\n'/g | wc -l"

-- The pipeline at an index prints how many entries the line of sharers at that index has: sed makes
-- a line of each, and wc counts the lines.
abbrev pub PrintsEntries : Os → (ℕ → TextBytes) → ℕ → Type 0
PrintsEntries os line i = os.popen (pipeline i) ≡ some (decimal (entries (line i)) ++ 10 ∷ [])

-- What the two loops must return over the levels from `lo` to below `hi`, where a level has `g`
-- entries: the first level with more than one entry and the number of these, or -1 and 1.
abbrev pub IsFirstShared : (ℕ → ℕ) → ℕ → ℕ → ℤ → ℤ → Type 0
IsFirstShared g lo hi (pos j) c =
    (lo ≤ j) × (j < hi) × (1 < g j) × (c ≡ pos (g j)) × ((k : ℕ) → lo ≤ k → k < j → g k ≡ 1)
IsFirstShared g lo hi (negsuc m) c = (m ≡ 0) × (c ≡ pos 1) × ((k : ℕ) → lo ≤ k → k < hi → g k ≡ 1)

-- A level with one entry is passed over.
IsFirstShared-later :
    (g : ℕ → ℕ) (lo hi : ℕ) (s c : ℤ)
    → g lo ≡ 1
    → IsFirstShared g (lo + 1) hi s c
    → IsFirstShared g lo hi s c
IsFirstShared-later g lo hi (pos j) c e (a, b, d, q, before) = (omega arith, b, d, q, at_lo)
  where
    at_lo : (k : ℕ) → lo ≤ k → k < j → g k ≡ 1
    at_lo k p r = elim (ℕ_discrete lo k) [
      | yes e' ↦ ap g (sym e') ∙ e
      | no ne ↦ before k (omega arith) r
    ]
IsFirstShared-later g lo hi (negsuc m) c e (a, q, before) = (a, q, at_lo)
  where
    at_lo : (k : ℕ) → lo ≤ k → k < hi → g k ≡ 1
    at_lo k p r = elim (ℕ_discrete lo k) [
      | yes e' ↦ ap g (sym e') ∙ e
      | no ne ↦ before k (omega arith) r
    ]

module _ (os : Os) where
  -- At level `i` the command is built, runs, and its answer is read as `n`.
  record Prints (i n : ℕ) : Type 0 where
    command : TextBytes
    built : shared_command i ≡ ok command
    into : (x : Option ℤ) → read_into os command x ≡ ok (some (pos n))
    over : (x : ℤ) → read_int os command x ≡ ok (pos n)

  shared_level-found :
      (n i m : ℕ) (res : Option ℤ) → Prints i m → 1 < m → shared_level os (suc n) i res ≡ ok (pos i)
  unfolding shared_level
  shared_level-found n i m res p h = rw (p.built, p.into res) (ground arith)

  shared_level-next :
      (n i m : ℕ) (res : Option ℤ)
      → Prints i m
      → ¬ (1 < m)
      → shared_level os (suc n) i res ≡ shared_level os n (i + 1) (some (pos m))
  unfolding shared_level
  shared_level-next n i m res p h = rw (p.built, p.into res) (ground arith)

  cache_cores_loop-next :
      (n i m : ℕ)
      → Prints i m
      → cache_cores_loop os (suc n) i (pos 1) ≡ cache_cores_loop os n (i + 1) (pos m)
  unfolding cache_cores_loop eqb_ℤ
  cache_cores_loop-next n i m p = rw (p.built, p.over (pos 1))

  cache_cores_loop-done : (n i m : ℕ) → 1 < m → cache_cores_loop os n i (pos m) ≡ ok (pos m)
  unfolding cache_cores_loop eqb_ℤ
  cache_cores_loop-done zero i m h = refl
  cache_cores_loop-done (suc n) i m h = ground arith

  module _ (g : ℕ → ℕ) (positive : (i : ℕ) → 0 < g i) where
    loops-IsFirstShared :
        (n i hi : ℕ) (res : Option ℤ)
        → i + n ≡ hi
        → ((j : ℕ) → j < hi → Prints j (g j))
        → Returns
            (shared_level os n i res)
            (λ s. Returns (cache_cores_loop os n i (pos 1)) (IsFirstShared g i hi s))
    loops-IsFirstShared zero i hi res e prints =
        unfold shared_level cache_cores_loop in (refl, refl, λ k p q. absurd (omega arith))
    loops-IsFirstShared (suc n) i hi res e prints = elim (dec_lt 1 (g i)) [
      | yes more ↦
          rw
            (
              shared_level-found n i (g i) res (prints i (omega arith)) more,
              cache_cores_loop-next n i (g i) (prints i (omega arith)),
              cache_cores_loop-done n (i + 1) (g i) more,
            )
            (omega arith, omega arith, more, refl, λ k p q. absurd (omega arith))
      | no one ↦
          let single : g i ≡ 1 = omega (arith, positive i) in
          rw
            (
              shared_level-next n i (g i) res (prints i (omega arith)) one,
              cache_cores_loop-next n i (g i) (prints i (omega arith)),
            )
            (rw single (
              Returns_mono (shared_level os n (i + 1) (some (pos 1)))
                (λ s.
                  Returns_mono (cache_cores_loop os n (i + 1) (pos 1))
                    (λ c. IsFirstShared-later g i hi s c single))
                (loops-IsFirstShared n (i + 1) hi (some (pos 1)) (omega arith) prints)))
    ]

  pipeline-Prints :
      (line : ℕ → TextBytes) (i : ℕ)
      → i ≤ 2 ^ 31
      → PrintsEntries os line i
      → Prints i (entries (line i))
  unfolding shared_command read_into read_int
  pipeline-Prints line i h p =
      let index = codes "cat /sys/devices/system/cpu/cpu0/cache/index" in
      let level = sprintf_i (pos i) in
      let short : length level ≤ 11 = length-sprintf_i (pos i) (omega arith) in
      let len : length (index ++ level) ≡ 44 + length level = length-append index level in
      let scanned = scan_int-decimal (entries (line i)) (10 ∷ []) (unfold is_digit in refl) in
      record {
        command = pipeline i;
        built =
            rw
              (
                strcpy-ok 512 index (omega arith),
                strcat-ok 512 index level (omega arith),
                strcat-ok 512 (index ++ level) (codes "/shared_cpu_list | sed s/,/'\\n'/g | wc -l")
                    (omega (arith, len, short)),
              )
              refl;
        into = λ x. rw (p, scanned) refl;
        over = λ x. rw (p, scanned) refl;
      }

  -- Where the pipeline at each index prints how many entries, separated by commas, the line of
  -- sharers of that index has: na_get_shared_cacheLevel returns the first index from 2 on whose
  -- line has more than one entry, and na_get_cache_cores the number of entries of that line; or -1
  -- and 1 if there is none. An entry is not always a core: a range of cores is one.
  pub shared_cache-IsFirstShared :
      (line : ℕ → TextBytes) (levels : ℕ)
      → levels + 1 < 2 ^ 31
      → na_get_numcaches os ≡ ok (pos (levels + 1))
      → ((j : ℕ) → j < levels + 2 → PrintsEntries os line j)
      → Returns (na_get_shared_cache_level os) (λ s.
        Returns (na_get_cache_cores os) (IsFirstShared (λ i. entries (line i)) 2 (levels + 2) s))
  unfolding na_get_shared_cache_level na_get_cache_cores rounds_from_2
  shared_cache-IsFirstShared line levels b h answers = rw h (
      rw less (
        loops-IsFirstShared (λ i. entries (line i)) (λ i. entries_positive (line i)) levels 2
          (levels + 2) none (omega arith)
          (λ j l. pipeline-Prints line j (omega arith) (answers j l))))
    where
      less : levels + 1 - 1 ≡ levels
      less = omega arith
