-- ===== src/Lmbench/Regions/Freed.antt =====
-- What base_initialize allocates is freed once.
use numafac.Latencies.{MemState}
use numafac.Lmbench.Regions.{
  Region, based, base_initialize, freed, mem_cleanup, free_pages, free_table, tlb_cleanup,
}
use numafac.Prelude.{
  ℕ, ◌+◌, ◌≡◌, refl, Option, none, some, List, [], ◌∷◌, ◌++◌, append_assoc, arith, length,
  length-append, ok, Returns, filled, load-filled_at,
}

-- The addresses of the pages that are there, in order.
abbrev pub present : List (Option ℕ) → List ℕ
present [] = []
present (none ∷ ps) = present ps
present (some p ∷ ps) = p ∷ present ps

free_pages-present :
    (ps done : List (Option ℕ)) (i : ℕ)
    → i ≡ length done
    → free_pages (length ps) i (filled (done ++ ps)) ≡ ok (present ps)
unfolding free_pages freed
free_pages-present [] done i e = refl
free_pages-present (none ∷ ps) done i e =
    let behind : free_pages (length ps) (i + 1) (filled (done ++ none ∷ ps)) ≡ ok (present ps) =
      simp append_assoc at
        (free_pages-present ps (done ++ none ∷ []) (i + 1) (rw length-append (omega arith))) in
    rw (load-filled_at none done ps i e, behind) refl
free_pages-present (some p ∷ ps) done i e =
    let behind : free_pages (length ps) (i + 1) (filled (done ++ some p ∷ ps)) ≡ ok (present ps) =
      simp append_assoc at
        (free_pages-present ps (done ++ some p ∷ []) (i + 1) (rw length-append (omega arith))) in
    rw (load-filled_at (some p) done ps i e, behind) refl

-- What mem_cleanup frees behind base_initialize is what that allocated, each block once, also if
-- only one of the two could be allocated. A second mem_cleanup frees nothing.
pub mem_cleanup-base_initialize :
    (state : MemState) (addr pages : Option ℕ) (r : Region)
    → ((mem_cleanup 0 (base_initialize 0 state addr pages r)).1 ≡ freed addr ++ freed pages)
      × ((mem_cleanup 0 (mem_cleanup 0 (base_initialize 0 state addr pages r)).0).1 ≡ [])
unfolding mem_cleanup base_initialize based freed
mem_cleanup-base_initialize state none none r = (refl, refl)
mem_cleanup-base_initialize state none (some q) r = (refl, refl)
mem_cleanup-base_initialize state (some p) none r = (refl, refl)
mem_cleanup-base_initialize state (some p) (some q) r = (refl, refl)

-- With a table of as many entries as the region has pages, tlb_cleanup frees the pages that are
-- there, then the table, and then the two orders, and leaves these pointers NULL.
pub tlb_cleanup-present :
    (r : Region) (ps : List (Option ℕ)) (p : ℕ)
    → r.npages ≡ length ps
    → r.addr ≡ some p
    → Returns (tlb_cleanup 0 (filled ps) r) (λ (left, blocks).
      (blocks ≡ (present ps ++ p ∷ []) ++ (freed (r.pages) ++ freed (r.lines)))
      × (left.addr ≡ none)
      × (left.pages ≡ none)
      × (left.lines ≡ none))
unfolding tlb_cleanup free_table
tlb_cleanup-present r ps p e h = rw (h, e, free_pages-present ps [] 0 refl) (refl, refl, refl, refl)
