-- ===== src/Tests/Lmbench.antt =====
-- The theorems on lmbench3, each at an input.
use numafac.Lmbench.Strides.{Memory, poke}
use numafac.Lmbench.Scheduling.{words_initialize, bits_of, or_bit, reversed}
use numafac.Lmbench.Thrash.{thrash_words, link_page, thrash_pages, thrash_initialize}
use numafac.Prelude.{
  ℕ, ◌≡◌, refl, none, some, [], ◌∷◌, ◌++◌, arith, pos, negsuc, ok, ◌>>=◌, Returns, load, store,
  filled, fill,
}
use numafac.Latencies.{MemState}
use numafac.Lmbench.Regions.{Region, base_initialize, freed, mem_cleanup}
use numafac.Lmbench.Regions.Freed.{mem_cleanup-base_initialize}
use numafac.Lmbench.{Timer, sweep_megabytes}
use numafac.Lmbench.Sizes.{Ladder, sweep_megabytes-Ladder}
use numafac.Lmbench.Strides.Ring.{follow}

abbrev pub clock : Timer ℕ
clock = record { getpagesize = 4096; bench = λ s p w r. (s.len, 2); per_load = λ t n. t }

sweep_megabytes-Ladder_example :
    Returns
      (sweep_megabytes clock 64 1 (pos 0) (negsuc 0) (pos 2))
      (Ladder clock 64 1 (pos 0) (negsuc 0) 2_097_152 512)
sweep_megabytes-Ladder_example =
    sweep_megabytes-Ladder clock 64 1 (pos 0) (negsuc 0) 2 (omega arith) (omega arith)

-- No pointer is stored anywhere.
abbrev empty : Memory
empty x = none

abbrev measured : MemState
measured = record { width = 1; len = 65536; maxlen = 65536; line = 64; pagesize = 4096 }

abbrev blank : Region
blank = record {
  addr = none;
  base = 0;
  initialized = 0;
  nwords = 0;
  nlines = 0;
  npages = 0;
  pages = none;
  lines = none;
  words = none;
}

mem_cleanup-base_initialize_example :
    ((mem_cleanup 0 (base_initialize 0 measured (some 5000) (some 90000) blank)).1
      ≡ freed (some 5000) ++ freed (some 90000))
    × ((mem_cleanup 0
          (mem_cleanup 0 (base_initialize 0 measured (some 5000) (some 90000) blank)).0).1
        ≡ [])
mem_cleanup-base_initialize_example =
    mem_cleanup-base_initialize measured (some 5000) (some 90000) blank

-- A region with a table of two pages, one of which could not be allocated.
abbrev two_pages : Region
two_pages = record {
  addr = some 100;
  base = 0;
  initialized = 1;
  nwords = 0;
  nlines = 0;
  npages = 2;
  pages = some 200;
  lines = none;
  words = none;
}

-- Opens what a run of thrash_initialize calls.
thrash_program : Unit {0}
unfolding words_initialize bits_of or_bit reversed thrash_words link_page thrash_pages
    thrash_initialize poke load store fill
thrash_program = tt

-- In 3072 bytes with lines of 64 there are 48 lines, but only 5 bits of an index are reversed, so
-- that the last 16 lines get the places of the first 16: after 16 loads the pointers are back.
short_ring :
    (thrash_initialize 0 3072 64 4096 (filled (0 ∷ [])) empty >>= λ (memory, first).
    ok (follow memory 16 first ∷ follow memory 15 first ∷ []))
    ≡ ok (some 0 ∷ some 1920 ∷ [])
unfolding thrash_program
short_ring = refl

-- In two pages of 1024 bytes, 32 loads lead back to the first page that is visited, and 16 do not.
long_ring :
    (thrash_initialize 0 2048 64 1024 (filled (1024 ∷ 0 ∷ [])) empty >>= λ (memory, first).
    ok (some first ∷ follow memory 32 first ∷ follow memory 16 first ∷ []))
    ≡ ok (some 1024 ∷ some 1024 ∷ some 1088 ∷ [])
unfolding thrash_program
long_ring = refl
