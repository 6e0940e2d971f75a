-- ===== src/Lmbench/Thrash.antt =====
-- lmbench3/src/lib_mem.c: the random circular list of pointers that thrash_initialize makes.
use numafac.Lmbench.Scheduling.{words_initialize}
use numafac.Lmbench.Strides.{Memory, poke}
use numafac.Prelude.{
  ℕ, zero, suc, ◌+◌, ◌-◌, ◌/◌, ◌%◌, ◌==◌, if◌then◌else◌, length, out_of_bounds, Run, ok, fault,
  ◌>>=◌, Array, load,
}

-- for (i = 0; i < state->nwords - 1; ++i), from `i` on, with the rounds left; and the store behind it.
unfoldable pub thrash_words : ℕ → ℕ → ℕ → Array ℕ → Memory → Run Memory
unfolding poke
thrash_words addr zero i words memory = do cur ← load words i; ok (poke memory (addr + cur) addr)
thrash_words addr (suc n) i words memory = do
  cur ← load words i
  next ← load words (i + 1)
  thrash_words addr n (i + 1) words (poke memory (addr + cur) (addr + next))

-- for (j = 0; j < state->nwords; ++j), from `j` on, with the rounds left: `start` is i for a page
-- that is not the last one, and 0 for the next word of the last one.
unfoldable pub link_page : ℕ → ℕ → ℕ → ℕ → ℕ → ℕ → Array ℕ → ℕ → ℕ → Memory → Run Memory
unfolding poke
link_page addr nwords cpage npage i start words zero j memory = ok memory
link_page addr nwords cpage npage i start words (suc n) j memory = do
  cur ← load words ((i + j) % nwords)
  next ← load words ((start + j + 1) % nwords)
  link_page addr nwords cpage npage i start words n (j + 1)
      (poke memory (addr + (cpage + cur)) (addr + (npage + next)))

-- for (i = 0; i < state->npages - 1; ++i), from `i` on, with the rounds left; and the last page.
unfoldable pub thrash_pages : ℕ → ℕ → Array ℕ → Array ℕ → ℕ → ℕ → Memory → Run Memory
unfolding link_page
thrash_pages addr nwords pages words zero i memory = do
  cpage ← load pages i
  npage ← load pages 0
  link_page addr nwords cpage npage i 0 words nwords 0 memory
thrash_pages addr nwords pages words (suc n) i memory = do
  cpage ← load pages i
  npage ← load pages (i + 1)
  memory ← link_page addr nwords cpage npage i i words nwords 0 memory
  thrash_pages addr nwords pages words n (i + 1) memory

-- thrash_initialize behind base_initialize, at the aligned address, the length, the line and the
-- page size and the pages that this left: the memory, and the first pointer. There is at least a
-- line, and a page where the length is a multiple of the page size: without one, the first loop
-- goes on to the greatest size_t.
unfoldable pub thrash_initialize : ℕ → ℕ → ℕ → ℕ → Array ℕ → Memory → Run (Memory × ℕ)
unfolding words_initialize thrash_words thrash_pages
thrash_initialize addr len line pagesize pages memory =
    if len % pagesize == 0
    then (do
      words ← words_initialize (pagesize / line) line
      memory ←
          if length pages == 0
          then fault out_of_bounds
          else thrash_pages addr (pagesize / line) pages words (length pages - 1) 0 memory
      first ← load pages 0
      ok (memory, addr + first))
    else (do
      words ← words_initialize (len / line) line
      memory ←
          if len / line == 0
          then fault out_of_bounds
          else thrash_words addr (len / line - 1) 0 words memory
      ok (memory, addr))
