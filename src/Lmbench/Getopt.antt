-- ===== src/Lmbench/Getopt.antt =====
-- lmbench3/src/getopt.c: the options in front of the arguments of a program.
pub mod Words
pub mod Groups
pub mod Calls
pub mod Loop
use numafac.Libc.{TextBytes}
use numafac.Prelude.{element}
use numafac.Prelude.{
  ℕ, zero, suc, ◌+◌, ◌-◌, ◌*◌, ◌/◌, ◌%◌, ◌^◌, ◌≤◌, ◌<◌, min, ◌≡◌, refl, sym, ap, ◌∙◌, subst,
  fun_ext, ◌≢◌, ◌↔◌, ◌⊎◌, inl, inr, Bool, true, false, not, ◌&&◌, ◌||◌, Option, none, some, List,
  [], ◌∷◌, ◌++◌, map, append-nil, append_assoc, arith, dec_lt, ℕ_discrete, ltb, leb, ◌==◌,
  if◌then◌else◌, ltb→lt, lt→ltb, leb→le, ==_iff, Bool-cases, Option-cases, length, get_elem?, set,
  get_or, take, drop, replicate, length-append, length-set, get_elem?-set_self, get_elem?-set_ne,
  length-replicate, length-map, set-append, get_elem?-append, ℤ, pos, negsuc, pos_part, neg_part,
  ◌+ℤ◌, ◌-ℤ◌, ◌*ℤ◌, ◌≤ℤ◌, ltb_ℤ, eqb_ℤ, eqb_ℤ→eq, eqb_ℤ_refl, negate, ulong, low_word, sub_ℕ, Fault,
  overflow, null_pointer, indeterminate, out_of_bounds, Run, ok, exit, fault, out_of_fuel, ◌>>=◌,
  ◌>>◌, deref, determinate, Returns, Array, malloc, load, store, store-ok, store-out_of_bounds,
  filled, load-filled, fill, tabulate, get_elem?-tabulate, length-tabulate, fill-ok, Returns_mono,
  value_or, Returns-value_or, load-filled_beyond, store-filled, load-filled_at, eqb_ℤ-pos,
  first_returns, store-eq-ok, onto, onto-append, length-onto, onto-onto, load-append, store-append,
  Returns-bind, if_holds, Ensures, Ensures-bind, Ensures_always, Returns_with, Ensures_mono,
  division_by_zero, Returns-Ensures, if_true, failed_assertion, bind_assoc, bind_cong,
}

-- optopt, optind, optarg, and the static n.
pub record Getopt : Type 0 where
  pub optopt : ℕ
  pub optind : ℕ
  pub optarg : Option TextBytes
  pub n : ℕ

-- s[i], with the terminating NUL.
unfoldable pub char_at : TextBytes → ℕ → Run ℕ
char_at [] zero = ok 0
char_at [] (suc i) = fault out_of_bounds
char_at (c ∷ s) zero = ok c
char_at (c ∷ s) (suc i) = char_at s i

-- if (!optind) { optind = 1; n = 1; }
unfoldable pub started : Getopt → Getopt
started g = if g.optind == 0 then record g { optind = 1; n = 1 } else g

-- The negation of (av[optind][0] != '-') || !av[optind][1].
unfoldable pub is_option : TextBytes → Bool
is_option [] = false
is_option (c ∷ []) = false
is_option (c ∷ d ∷ s) = c == 45

-- for (t = opts; *t; t++), with what is behind *t where it breaks.
unfoldable pub find_option : ℕ → TextBytes → Option TextBytes
find_option c [] = none
find_option c (o ∷ opts) = let later = find_option c opts in if o == c then some opts else later

-- The first character of a text, or its NUL.
abbrev pub first_char : TextBytes → ℕ
first_char [] = 0
first_char (c ∷ s) = c

-- t[1] is one of ':', '|' and ';'.
unfoldable pub takes_argument : ℕ → Bool
takes_argument k = k == 58 || k == 124 || k == 59

-- The word in argv and the position behind an option.
abbrev pub next_word : Getopt → Getopt
next_word g = record g { optind = g.optind + 1; n = 1 }

abbrev pub question : ℤ
question = pos 63

-- A legit singleton, with the character behind it.
unfoldable pub singleton : Getopt → ℕ → ℕ → Getopt × ℤ
singleton g c next = (if next == 0 then next_word g else record g { n = g.n + 1 }, pos c)

-- Where no argument is cozied up to an option, and it had better be another word.
unfoldable pub word_argument : List TextBytes → Getopt → ℕ → Run (Getopt × ℤ)
unfolding is_option
word_argument av g c =
    if g.optind + 1 == length av then ok (record g { optopt = c }, question) else do
      word ← element (get_elem? av (g.optind + 1))
      first ← char_at word 0
      ok (
          if first == 45
          then (record g { optopt = c }, question)
          else (record g { optarg = some word; optind = g.optind + 2; n = 1 }, pos c))

-- An option c that takes an argument, in this word, with the character behind it.
unfoldable pub with_argument : List TextBytes → Getopt → TextBytes → ℕ → ℕ → ℕ → Run (Getopt × ℤ)
with_argument av g word c kind next =
    if not (next == 0)
    then ok (next_word record g { optarg = some (drop (g.n + 1) word) }, pos c)
    else if kind == 124
    then ok (next_word record g { optarg = none }, pos c)
    else if kind == 59
    then ok (record g { optarg = none; optind = g.optind + 1; optopt = c }, question)
    else word_argument av g c

-- What follows the loop over opts.
unfoldable pub found_option :
    List TextBytes → Getopt → TextBytes → ℕ → Option TextBytes → Run (Getopt × ℤ)
found_option av g word c none = ok (record g { optopt = c }, question)
found_option av g word c (some ts) = do
  next ← char_at word (g.n + 1)
  if takes_argument (first_char ts)
      then with_argument av g word c (first_char ts) next
      else ok (singleton g c next)

-- From the assertion on, in this word.
unfoldable pub option_in : List TextBytes → TextBytes → Getopt → TextBytes → Run (Getopt × ℤ)
option_in av opts g word = do
  c ← char_at word (g.n)
  if c == 0 then fault failed_assertion else found_option av g word c (find_option c opts)

unfoldable pub option_from : List TextBytes → TextBytes → Getopt → Run (Getopt × ℤ)
option_from av opts g = if leb (length av) (g.optind) then ok (g, negsuc 0) else do
  word ← element (get_elem? av (g.optind))
  if is_option word then option_in av opts g word else ok (g, negsuc 0)

-- getopt, where ac is the length of av. EOF is -1.
unfoldable pub getopt : List TextBytes → TextBytes → Getopt → Run (Getopt × ℤ)
getopt av opts g = option_from av opts (started g)

-- while ((c = getopt(ac, av, opts)) != EOF), at fuel, with the switch as a function of c and optarg.
unfoldable pub while_getopt :
    {S : Type 0}
    → ℕ
    → List TextBytes
    → TextBytes
    → (S → ℤ → Option TextBytes → Run S)
    → Getopt
    → S
    → Run (Getopt × S)
while_getopt zero av opts body g s = out_of_fuel
while_getopt (suc fuel) av opts body g s = do
  (g, c) ← getopt av opts g
  if eqb_ℤ c (negsuc 0)
      then ok (g, s)
      else (body s c (g.optarg) >>= λ s'. while_getopt fuel av opts body g s')

-- The statics of a program that starts.
abbrev pub no_options : Getopt
no_options = record { optopt = 0; optind = 0; optarg = none; n = 0 }
