-- ===== src/Lmbench/Regions.antt =====
-- lmbench3/src/lib_mem.c: the blocks of memory of a measurement, from base_initialize to mem_cleanup.
pub mod Freed
pub mod Aligned
use numafac.Latencies.{MemState}
use numafac.Prelude.{
  ℕ, zero, suc, ◌+◌, ◌-◌, ◌/◌, ◌%◌, ◌^◌, Option, none, some, List, [], ◌∷◌, ◌++◌, ltb, ◌==◌,
  if◌then◌else◌, ℤ, pos, negsuc, ulong, Run, ok, ◌>>=◌, ◌>>◌, Array, load,
}

-- The pointers and the numbers of struct mem_state that base_initialize writes. A pointer is an
-- address, or NULL.
pub record Region : Type 0 where
  pub addr : Option ℕ
  pub base : ℕ
  pub initialized : ℕ
  pub nwords : ℕ
  pub nlines : ℕ
  pub npages : ℕ
  pub pages : Option ℕ
  pub lines : Option ℕ
  pub words : Option ℕ

-- A size_t as an int: its lower 32 bits, with a sign.
unfoldable pub int_of : ℕ → ℤ
int_of n = let low = n % 2 ^ 32 in if ltb low (2 ^ 31) then pos low else negsuc (2 ^ 32 - 1 - low)

-- (n + state->pagesize - 1) / state->pagesize
unfoldable pub pages_for : ℕ → ℕ → ℕ
pages_for n pagesize = (n + pagesize + (2 ^ 64 - 1)) % 2 ^ 64 / pagesize

-- if ((unsigned long)p % pagesize) p += pagesize - (unsigned long)p % pagesize;
unfoldable pub align : ℕ → ℕ → ℕ
align pagesize p = if p % pagesize == 0 then p else p + (pagesize - p % pagesize)

-- base_initialize at a first iteration, behind its allocations; the rest needs both.
unfoldable pub based : ℕ → Region → Option ℕ → Option ℕ → Region
based pagesize r none pages = r
based pagesize r (some p) none = r
based pagesize r (some p) (some q) = record {
  addr = r.addr;
  base = align pagesize p;
  initialized = 1;
  nwords = r.nwords;
  nlines = r.nlines;
  npages = r.npages;
  pages = r.pages;
  lines = r.lines;
  words = r.words;
}

-- base_initialize, given the blocks that malloc and permutation return.
unfoldable pub base_initialize : ℕ → MemState → Option ℕ → Option ℕ → Region → Region
unfolding based
base_initialize (suc iterations) state addr pages r = r
base_initialize zero state addr pages r =
    based (state.pagesize)
      record {
        addr = addr;
        base = r.base;
        initialized = 0;
        nwords = ulong (int_of (state.line / 8));
        nlines = ulong (int_of (state.pagesize / state.line));
        npages = ulong (int_of (pages_for (ulong (int_of (state.len))) (state.pagesize)));
        pages = pages;
        lines = none;
        words = none;
      }
      addr pages

-- The block that `free` is called with, unless the pointer is NULL.
unfoldable pub freed : Option ℕ → List ℕ
freed none = []
freed (some p) = p ∷ []

-- mem_cleanup: the region it leaves, and the blocks that it frees, in order.
unfoldable pub mem_cleanup : ℕ → Region → Region × List ℕ
unfolding freed
mem_cleanup (suc iterations) r = (r, [])
mem_cleanup zero r = (
  record {
    addr = none;
    base = r.base;
    initialized = r.initialized;
    nwords = r.nwords;
    nlines = r.nlines;
    npages = r.npages;
    pages = none;
    lines = none;
    words = none;
  },
  freed (r.addr) ++ (freed (r.lines) ++ (freed (r.pages) ++ freed (r.words))),
)

-- for (i = 0; i < state->npages; ++i) if (addr[i]) free(addr[i]);
unfoldable pub free_pages : ℕ → ℕ → Array (Option ℕ) → Run (List ℕ)
unfolding freed
free_pages zero i table = ok []
free_pages (suc n) i table = do
  p ← load table i
  rest ← free_pages n (i + 1) table
  ok (freed p ++ rest)

-- if (addr) { ...; free(addr); }, at the table of blocks that stands at `addr`.
unfoldable pub free_table : ℕ → Option ℕ → Array (Option ℕ) → Run (List ℕ)
unfolding free_pages
free_table npages none table = ok []
free_table npages (some p) table = do blocks ← free_pages npages 0 table; ok (blocks ++ p ∷ [])

-- tlb_cleanup.
unfoldable pub tlb_cleanup : ℕ → Array (Option ℕ) → Region → Run (Region × List ℕ)
unfolding freed free_table
tlb_cleanup (suc iterations) table r = ok (r, [])
tlb_cleanup zero table r = do
  blocks ← free_table (r.npages) (r.addr) table
  ok (
    record {
      addr = none;
      base = r.base;
      initialized = r.initialized;
      nwords = r.nwords;
      nlines = r.nlines;
      npages = r.npages;
      pages = none;
      lines = none;
      words = r.words;
    },
    blocks ++ (freed (r.pages) ++ freed (r.lines)),
  )
