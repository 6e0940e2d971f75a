-- ===== src/Topology/Caches/Share.antt =====
-- Which cores `na_get_cacheShare_cores` takes from the line of sharers, and where in it the core
-- itself may stand.
use mathlib.Core.Path.{ap₂}
use numafac.Libc.{TextBytes, is_digit, strtok, decimal}
use numafac.Libc.RoundTrip.{atoi-decimal}
use numafac.Libc.Joined.{joined, IsDelimiter, strtok-joined}
use numafac.Topology.Caches.{is_comma, keep_other, share_loop, share_from, share_cores}
use numafac.Prelude.{eqb_ℤ-pos}
use numafac.Prelude.{
  ℕ, suc, ◌+◌, ◌-◌, ◌≡◌, refl, ap, ◌∙◌, inl, inr, Bool, true, false, none, some, List, [], ◌∷◌,
  ◌++◌, map, append-nil, append_assoc, arith, ◌==◌, if◌then◌else◌, Bool-cases, length, set,
  length-append, set-append, ℤ, pos, eqb_ℤ, eqb_ℤ_refl, ok, Array, malloc, store, store-ok, filled,
}

is_comma-IsDelimiter : IsDelimiter is_comma 44
unfolding is_comma is_digit
is_comma-IsDelimiter = record { separates = refl; newline = refl; no_digit = λ c h. ground arith }

-- Every number but `c` is written to the cell of its place.
abbrev cells : ℕ → List ℕ → Array ℤ
cells c [] = []
cells c (n ∷ ns) = (if n == c then none else some (pos n)) ∷ cells c ns

same_number : (n c : ℕ) (b : Bool) → (n == c) ≡ b → eqb_ℤ (pos n) (pos c) ≡ b
same_number n c b h = eqb_ℤ-pos n c ∙ h

share_loop-step :
    (core : ℤ) (n i : ℕ) (cpu s rest : TextBytes) (a b : Array ℤ)
    → strtok is_comma s ≡ some (cpu, rest)
    → keep_other core i cpu a ≡ ok b
    → share_loop core (suc n) i s a ≡ share_loop core n (i + 1) rest b
unfolding share_loop
share_loop-step core n i cpu s rest a b h k = rw (h, k)

keep_other-cells :
    (c n : ℕ) (ns : List ℕ) (a : Array ℤ) (k : ℕ)
    → k ≡ length a
    → keep_other (pos c) k (decimal n) (a ++ malloc (suc (length ns)))
      ≡ ok (a ++ (if n == c then none else some (pos n)) ∷ malloc (length ns))
unfolding keep_other
keep_other-cells c n ns a k e =
    rw (atoi-decimal n, eqb_ℤ-pos n c)
      (elim (Bool-cases (n == c)) [
        | inl same ↦ rw same
        | inr other ↦ rw (other, written) (ap ok placed)
      ])
  where
    written :
        store (a ++ none ∷ malloc (length ns)) k (pos n)
        ≡ ok (set (a ++ none ∷ malloc (length ns)) k (some (pos n)))
    written = store-ok _ k (pos n) (rw length-append (omega arith))

    placed :
        set (a ++ none ∷ malloc (length ns)) k (some (pos n))
        ≡ a ++ some (pos n) ∷ malloc (length ns)
    placed =
        ap (λ j. set (a ++ none ∷ malloc (length ns)) j (some (pos n))) e
        ∙ set-append a (malloc (length ns)) none (some (pos n))

share_loop-cells :
    (c : ℕ) (ns ms : List ℕ) (a : Array ℤ) (k : ℕ)
    → k ≡ length a
    → share_loop (pos c) (length ns) k (joined 44 (ns ++ ms)) (a ++ malloc (length ns))
      ≡ ok (a ++ cells c ns)
share_loop-cells c [] ms a k e = unfold share_loop in refl
share_loop-cells c (n ∷ ns) ms a k e =
    share_loop-step (pos c) (length ns) k (decimal n) _ _ (a ++ malloc (suc (length ns))) _
      (strtok-joined is_comma 44 is_comma-IsDelimiter n (ns ++ ms)) (keep_other-cells c n ns a k e)
    ∙ simp append_assoc at (
        share_loop-cells c ns ms (a ++ (if n == c then none else some (pos n)) ∷ []) (k + 1)
          (rw length-append (omega arith)))

abbrev pub AllNe : ℕ → List ℕ → Type 0
AllNe c [] = Unit {0}
AllNe c (n ∷ ns) = ((n == c) ≡ false) × AllNe c ns

-- All cells are written if no number is the core.
cells-filled : (c : ℕ) (ns : List ℕ) → AllNe c ns → cells c ns ≡ filled (map pos ns)
cells-filled c [] h = refl
cells-filled c (n ∷ ns) h = rw (h.0, cells-filled c ns h.1)

cells-append : (c : ℕ) (ns ms : List ℕ) → cells c (ns ++ ms) ≡ cells c ns ++ cells c ms
cells-append c [] ms = refl
cells-append c (n ∷ ns) ms =
    ap (λ l. (if n == c then none else some (pos n)) ∷ l) (cells-append c ns ms)

==_refl : (c : ℕ) → (c == c) ≡ true
==_refl c = ground arith

one_less : (m : ℕ) → suc m - 1 ≡ m
one_less m = omega arith

-- The core stands first on the line.
share_cores-first :
    (c : ℕ) (ns : List ℕ)
    → share_cores (pos c) (length (c ∷ ns)) (joined 44 (c ∷ ns)) ≡ ok (cells c ns)
unfolding share_cores
share_cores-first c ns =
    rw
      (
        strtok-joined is_comma 44 is_comma-IsDelimiter c ns,
        atoi-decimal c,
        eqb_ℤ_refl (pos c),
        one_less (length ns),
      )
      (unfold share_from in rw append-nil at (share_loop-cells c ns [] [] 0 refl))

-- Another number stands first, and the last number of the line is not read.
share_cores-other :
    (c n : ℕ) (ns : List ℕ) (l : ℕ)
    → (n == c) ≡ false
    → share_cores (pos c) (length (n ∷ ns ++ l ∷ [])) (joined 44 (n ∷ ns ++ l ∷ []))
      ≡ ok (cells c (n ∷ ns))
unfolding share_cores
share_cores-other c n ns l h =
    rw
      (
        strtok-joined is_comma 44 is_comma-IsDelimiter n (ns ++ l ∷ []),
        atoi-decimal n,
        eqb_ℤ-pos n c,
        h,
        size,
      )
      (unfold share_from in
        rw (store-ok (none ∷ malloc (length ns)) 0 (pos n) (omega arith), one_less (length ns))
          (share_loop-cells c ns (l ∷ []) (some (pos n) ∷ []) 1 refl))
  where
    size : suc (length (ns ++ l ∷ [])) - 1 ≡ suc (length ns)
    size = rw length-append (omega arith)

-- On the line of the sharers of a cache, the core itself may stand first or last: then the array
-- holds the other sharers, in their order.
pub share_cores-ends :
    (c n : ℕ) (ns : List ℕ)
    → AllNe c (n ∷ ns)
    → (share_cores (pos c) (length (c ∷ n ∷ ns)) (joined 44 (c ∷ n ∷ ns))
        ≡ ok (filled (map pos (n ∷ ns))))
      × (share_cores (pos c) (length (n ∷ ns ++ c ∷ [])) (joined 44 (n ∷ ns ++ c ∷ []))
          ≡ ok (filled (map pos (n ∷ ns))))
share_cores-ends c n ns h = (
  share_cores-first c (n ∷ ns) ∙ ap ok (cells-filled c (n ∷ ns) h),
  share_cores-other c n ns c h.0 ∙ ap ok (cells-filled c (n ∷ ns) h),
)

-- Where the core stands between others, its place in the array stays unwritten, and the last
-- sharer on the line is left out.
pub share_cores-middle :
    (c n l : ℕ) (ns ms : List ℕ)
    → AllNe c (n ∷ ns)
    → AllNe c ms
    → share_cores
        (pos c)
        (length (n ∷ (ns ++ c ∷ ms) ++ l ∷ []))
        (joined 44 (n ∷ (ns ++ c ∷ ms) ++ l ∷ []))
      ≡ ok (filled (map pos (n ∷ ns)) ++ none ∷ filled (map pos ms))
share_cores-middle c n l ns ms h k =
    share_cores-other c n (ns ++ c ∷ ms) l h.0
    ∙ ap ok (cells-append c (n ∷ ns) (c ∷ ms) ∙ ap₂ ◌++◌ (cells-filled c (n ∷ ns) h) hole)
  where
    hole : cells c (c ∷ ms) ≡ none ∷ filled (map pos ms)
    hole = rw (==_refl c, cells-filled c ms k)
