-- ===== src/Topology/Cpus/Listing.antt =====
-- `na_get_cpusidnode` returns the CPUs that the script lists, as many as node 0 has, in ascending
-- order.
use mathlib.Core.List.{Perm}
use numafac.Libc.{TextBytes, codes, is_digit, strtok, skip_while, token_at}
use numafac.Libc.RoundTrip.{atoi-decimal}
use numafac.Libc.Joined.{joined, IsDelimiter, strtok-joined, fgets-joined}
use numafac.Os.{Os, read_into}
use numafac.Topology.Caches.{na_get_shared_cache_level, na_get_cache_cores}
use numafac.Topology.Counts.{na_get_numcaches}
use numafac.Topology.Cpus.{
  is_blank, read_ids, parse_ids, list_command, listed_ids, na_get_cpusidnode,
}
use numafac.Topology.Cpus.Sort.{IsAscending, sort_ids_lem}
use numafac.Topology.Fits.{IsInt, list_command-fits}
use numafac.Prelude.{
  ℕ, zero, suc, ◌+◌, ◌-◌, ◌*◌, ◌≤◌, ◌<◌, ◌≡◌, refl, ap, ◌∙◌, ◌⊎◌, inl, inr, true, false, Option,
  none, some, List, [], ◌∷◌, ◌++◌, map, append-nil, append_assoc, arith, Bool-cases, length, set,
  length-append, length-map, length-replicate, length-set, set-append, ℤ, pos, negsuc, eqb_ℤ,
  null_pointer, ok, fault, Returns, Array, malloc, store-ok, filled, Returns-value_or,
}

is_blank-IsDelimiter : IsDelimiter is_blank 32
unfolding is_blank is_digit
is_blank-IsDelimiter = record { separates = refl; newline = refl; no_digit = λ c h. ground arith }

-- The loop reads the numbers that are left on the line into the cells behind those written, as
-- many as there are cells.
read_ids-joined :
    (ns more : List ℕ) (a : Array ℤ) (k : ℕ)
    → k ≡ length a
    → read_ids (length ns) k (joined 32 (ns ++ more)) (a ++ malloc (length ns))
      ≡ ok (a ++ filled (map pos ns))
unfolding read_ids
read_ids-joined [] more a k e = refl
read_ids-joined (n ∷ ns) more a k e =
    rw
      (
        strtok-joined is_blank 32 is_blank-IsDelimiter n (ns ++ more),
        atoi-decimal n,
        store-ok (a ++ none ∷ malloc (length ns)) k (pos n) (rw length-append (omega arith)),
        e,
        set-append a (malloc (length ns)) none (some (pos n)),
      )
      (simp append_assoc at (
        read_ids-joined ns more (a ++ some (pos n) ∷ []) (length a + 1)
          (rw length-append (omega arith))))

no_token : strtok is_blank (joined 32 []) ≡ none
unfolding strtok skip_while token_at joined
no_token = refl

-- Where the line has fewer numbers than there are cells, atoi gets NULL.
read_ids-short :
    (ns : List ℕ) (rounds k : ℕ) (a : Array ℤ)
    → length ns < rounds
    → k + rounds ≡ length a
    → read_ids rounds k (joined 32 ns) a ≡ fault null_pointer
unfolding read_ids
read_ids-short ns zero k a h e = elim h [ ]
read_ids-short [] (suc rounds) k a h e = rw no_token refl
read_ids-short (n ∷ ns) (suc rounds) k a h e =
    rw
      (
        strtok-joined is_blank 32 is_blank-IsDelimiter n ns,
        atoi-decimal n,
        store-ok a k (pos n) (omega arith),
      )
      (read_ids-short ns rounds (k + 1) (set a k (some (pos n))) (omega (arith, h))
        (rw length-set (omega arith)))

one_less : (m : ℕ) → suc m - 1 ≡ m
one_less m = omega arith

-- The array that holds a permutation of the numbers in ascending order.
abbrev pub HoldsSorted : List ℕ → Array ℤ → Type 0
HoldsSorted ns a = (xs : List ℤ) × (a ≡ filled xs) × IsAscending xs × Perm xs (map pos ns)

parse_ids-HoldsSorted :
    (n : ℕ) (ns more : List ℕ)
    → Returns (parse_ids (length (n ∷ ns)) (joined 32 (n ∷ (ns ++ more)))) (HoldsSorted (n ∷ ns))
unfolding parse_ids
parse_ids-HoldsSorted n ns more =
    let (ys, sorted, ascending, perm) = sort_ids_lem (pos n) (map pos ns) in
    rw
      (
        strtok-joined is_blank 32 is_blank-IsDelimiter n (ns ++ more),
        atoi-decimal n,
        store-ok (none ∷ malloc (length ns)) 0 (pos n) (omega arith),
        one_less (length ns),
        read_ids-joined ns more (some (pos n) ∷ []) 1 refl,
        ← length-map ns pos,
        sorted,
      )
      (ys, refl, ascending, perm)

parse_ids-short :
    (n : ℕ) (ns : List ℕ) (count : ℕ)
    → length (n ∷ ns) < count
    → parse_ids count (joined 32 (n ∷ ns)) ≡ fault null_pointer
unfolding parse_ids
parse_ids-short n ns zero h = elim h [ ]
parse_ids-short n ns (suc count) h =
    rw
      (
        strtok-joined is_blank 32 is_blank-IsDelimiter n ns,
        atoi-decimal n,
        store-ok (none ∷ malloc count) 0 (pos n) (omega arith),
        one_less count,
        read_ids-short ns count 1 (some (pos n) ∷ malloc count) (omega (arith, h))
            (omega (arith, length-replicate {0} {A = Option ℤ} count none)),
      )
      refl

-- What the machine must answer for the CPUs of a node to be listed: no cache level is shared, or
-- the last one is; the command on node 0 prints a number of CPUs, whatever node is asked for, and
-- the script prints the CPUs of the node.
pub record ListsNode (os : Os) (node : ℤ) (count : ℕ) (ns : List ℕ) : Type 0 where
  pub shared : ℤ
  pub levels : ℤ
  pub cores : ℤ
  pub shared_is : na_get_shared_cache_level os ≡ ok shared
  pub levels_is : na_get_numcaches os ≡ ok levels
  pub cores_is : na_get_cache_cores os ≡ ok cores
  pub not_inner : (shared ≡ negsuc 0) ⊎ (shared ≡ levels)
  pub counted :
      read_into os (codes "ls -d /sys/devices/system/node/node0/cpu[0-9]* | wc -l") none
      ≡ ok (some (pos count))
  pub listed : (c : TextBytes) → list_command node ≡ ok c → os.popen c ≡ some (joined 32 ns)

listed_ids-parse :
    (os : Os) (node : ℤ) (count n : ℕ) (ns : List ℕ)
    → IsInt node
    → ((c : TextBytes) → list_command node ≡ ok c → os.popen c ≡ some (joined 32 (n ∷ ns)))
    → length (joined 32 (n ∷ ns)) ≤ 4 * count
    → listed_ids os node count ≡ parse_ids count (joined 32 (n ∷ ns))
unfolding listed_ids
listed_ids-parse os node count n ns h answers room =
    let built = Returns-value_or _ [] (list_command node) (list_command-fits node h) in
    rw (built, answers _ built)
      (rw
        (fgets-joined is_blank 32 is_blank-IsDelimiter n ns (count * 4) (omega arith) (omega arith))
        refl)

-- In each of the two cases the CPUs are those that the script lists.
na_get_cpusidnode-listed :
    (os : Os) (fuel : ℕ) (node : ℤ) (count : ℕ) (ns : List ℕ)
    → ListsNode os node count ns
    → na_get_cpusidnode os (suc fuel) node ≡ listed_ids os node count
unfolding na_get_cpusidnode
na_get_cpusidnode-listed os fuel node count ns l =
    rw (l.shared_is, l.cores_is, l.counted)
      (elim (Bool-cases (eqb_ℤ l.shared (negsuc 0))) [
        | inl e ↦ rw e refl
        | inr e ↦ rw (e, l.levels_is, last e) refl
      ])
  where
    last : eqb_ℤ l.shared (negsuc 0) ≡ false → eqb_ℤ l.shared l.levels ≡ true
    last e = unfold eqb_ℤ in ground (arith, l.not_inner, e)

-- On a machine where no cache level is shared or only the last one is first shared, for a node
-- whose script prints the numbers of its CPUs on one line of at most 4 characters for each CPU that
-- the command counts, which looks at node 0 whatever the node is: if there are as many numbers as
-- that count or more, na_get_cpusidnode returns, and its array holds as many of them, the first on
-- the line, each as often as printed there, in ascending order; the others are left out. If there
-- are fewer, it reads a number at NULL.
pub na_get_cpusidnode-HoldsSorted :
    (os : Os) (fuel : ℕ) (node : ℤ) (n : ℕ) (ns more : List ℕ) (missing : ℕ)
    → IsInt node
    → ListsNode os node (length (n ∷ ns) + missing) (n ∷ (ns ++ more))
    → (missing ≡ 0) ⊎ (more ≡ [])
    → length (joined 32 (n ∷ (ns ++ more))) ≤ 4 * (length (n ∷ ns) + missing)
    → ((missing ≡ 0) × Returns (na_get_cpusidnode os (suc fuel) node) (HoldsSorted (n ∷ ns)))
      ⊎ ((0 < missing) × (na_get_cpusidnode os (suc fuel) node ≡ fault null_pointer))
na_get_cpusidnode-HoldsSorted os fuel node n ns more zero h l c room =
    let same : length (n ∷ ns) + 0 ≡ length (n ∷ ns) = omega arith in
    inl (
      refl,
      rw
          (
            na_get_cpusidnode-listed os fuel node (length (n ∷ ns) + 0) (n ∷ (ns ++ more)) l,
            listed_ids-parse os node (length (n ∷ ns) + 0) n (ns ++ more) h l.listed room,
            same,
          )
          (parse_ids-HoldsSorted n ns more),
    )
na_get_cpusidnode-HoldsSorted os fuel node n ns more (suc missing) h l (inl e) room =
    absurd (omega arith)
na_get_cpusidnode-HoldsSorted os fuel node n ns more (suc missing) h l (inr e) room =
    let count = length (n ∷ ns) + suc missing in
    let alone : ns ++ more ≡ ns = ap (λ m. ns ++ m) e ∙ append-nil ns in
    inr (
      omega arith,
      na_get_cpusidnode-listed os fuel node count (n ∷ (ns ++ more)) l
          ∙ listed_ids-parse os node count n (ns ++ more) h l.listed room
          ∙ ap (λ m. parse_ids count (joined 32 (n ∷ m))) alone
          ∙ parse_ids-short n ns count (omega arith),
    )
