-- ===== src/Lmbench/Getopt/Words.antt =====
-- What a call of getopt makes of a character in a word of argv.
use numafac.Libc.{TextBytes}
use numafac.Prelude.{
  ℕ, suc, ◌+◌, ◌<◌, ◌≡◌, refl, ap, ◌∙◌, ◌≢◌, true, false, some, List, [], ◌∷◌, ◌++◌, arith, leb,
  ◌==◌, if◌then◌else◌, length, get_elem?, drop, length-append, get_elem?-append, negsuc, ok,
}
use numafac.Lmbench.Getopt.{
  Getopt, char_at, started, is_option, find_option, first_char, takes_argument, singleton,
  with_argument, found_option, option_in, option_from, getopt,
}

char_at-append : (pre s : TextBytes) → char_at (pre ++ s) (length pre) ≡ char_at s 0
unfolding char_at
char_at-append [] s = refl
char_at-append (c ∷ pre) s = char_at-append pre s

char_at-append_next :
    (pre : TextBytes) (c : ℕ) (s : TextBytes)
    → char_at (pre ++ c ∷ s) (suc (length pre)) ≡ char_at s 0
unfolding char_at
char_at-append_next [] c s = refl
char_at-append_next (d ∷ pre) c s = char_at-append_next pre c s

pub drop-append_next :
    (pre : TextBytes) (c : ℕ) (s : TextBytes) → drop (suc (length pre)) (pre ++ c ∷ s) ≡ s
drop-append_next [] c s = refl
drop-append_next (d ∷ pre) c s = drop-append_next pre c s

is_option-dash : (pre : TextBytes) (c : ℕ) (s : TextBytes) → is_option (45 ∷ (pre ++ c ∷ s)) ≡ true
unfolding is_option
is_option-dash [] c s = refl
is_option-dash (d ∷ pre) c s = refl

-- This word of argv is at the index i, behind the name of the program.
abbrev pub IsAt : List TextBytes → ℕ → List TextBytes → TextBytes → List TextBytes → Type 0
IsAt av i before word behind = (av ≡ before ++ word ∷ behind) × (i ≡ length before) × (0 < i)

pub char_at-first : (s : TextBytes) → char_at s 0 ≡ ok (first_char s)
unfolding char_at
char_at-first [] = refl
char_at-first (c ∷ s) = refl

started-begun : (g : Getopt) → 0 < g.optind → started g ≡ g
unfolding started
started-begun g h = let e : (g.optind == 0) ≡ false = ground (arith, h) in rw e refl

module _ (av : List TextBytes) (opts : TextBytes) where
  pub getopt-at :
      (g : Getopt) (before : List TextBytes) (word : TextBytes) (behind : List TextBytes)
      → IsAt av (g.optind) before word behind
      → getopt av opts g ≡ (if is_option word then option_in av opts g word else ok (g, negsuc 0))
  unfolding getopt option_from
  getopt-at g before word behind (split, place, begun) =
      let e : started g ≡ g = started-begun g begun in
      let inside : leb (length av) (g.optind) ≡ false =
        ground (arith, ap (λ l. length l) (split), length-append (before) (word ∷ behind), place) in
      let there : get_elem? av (g.optind) ≡ some word =
        rw (split, place) (get_elem?-append before behind word) in
      rw (e, inside, there) refl

  pub getopt-end :
      (g : Getopt) → 0 < g.optind → g.optind ≡ length av → getopt av opts g ≡ ok (g, negsuc 0)
  unfolding getopt option_from
  getopt-end g h e =
      let s : started g ≡ g = started-begun g h in
      let outside : leb (length av) (g.optind) ≡ true = ground (arith, e) in rw (s, outside) refl

  pub getopt-letter :
      (g : Getopt) (before : List TextBytes) (pre : TextBytes) (c : ℕ) (more : TextBytes)
      (behind : List TextBytes) (ts : TextBytes)
      → IsAt av (g.optind) before (45 ∷ (pre ++ c ∷ more)) behind
      → g.n ≡ suc (length pre)
      → c ≢ 0
      → find_option c opts ≡ some ts
      → getopt av opts g ≡ (
          if takes_argument (first_char ts)
          then with_argument av g (45 ∷ (pre ++ c ∷ more)) c (first_char ts) (first_char more)
          else ok (singleton g c (first_char more)))
  unfolding option_in found_option char_at
  getopt-letter g before pre c more behind ts a n z f =
      let word = 45 ∷ (pre ++ c ∷ more) in
      let here : char_at word (g.n) ≡ ok c = ap (char_at word) n ∙ char_at-append pre (c ∷ more) in
      let place : g.n + 1 ≡ suc (suc (length pre)) = omega (arith, n) in
      let next : char_at word (g.n + 1) ≡ ok (first_char more) =
        ap (char_at word) place ∙ char_at-append_next pre c more ∙ char_at-first more in
      let set : (c == 0) ≡ false = ground (arith, z) in
      rw (getopt-at g before word behind a, is_option-dash pre c more, here, set, f, next) refl
