-- ===== src/Lmbench/Getopt/Groups.antt =====
-- Options in the forms that the comment of getopt.c lists, with the conditions under which its code
-- accepts them, and what getopt returns for them.
use numafac.Lmbench.Getopt.{is_option}
use numafac.Libc.{TextBytes}
use numafac.Lmbench.Child.Progress.{Each}
use numafac.Prelude.{
  ℕ, ◌≡◌, ◌≢◌, true, false, Option, some, List, [], ◌∷◌, ◌++◌, map, ℤ, pos, Run, ok, ◌>>=◌,
}
use numafac.Lmbench.Getopt.{find_option, first_char, takes_argument}

-- The argument of the last option in a word: none, right behind it, or in the next word.
pub data Ending : Type 0 where
  alone : Ending
  attached apart : TextBytes → Ending

-- Options in one word: -abc, -abcr<arg>, or -abcr <arg>.
pub record Group : Type 0 where
  pub flags : TextBytes
  pub letter : ℕ
  pub ending : Ending

abbrev pub behind_letter : Ending → TextBytes
behind_letter alone = []
behind_letter (attached arg) = arg
behind_letter (apart arg) = []

abbrev pub word_behind : Ending → List TextBytes
word_behind alone = []
word_behind (attached arg) = []
word_behind (apart arg) = arg ∷ []

abbrev pub argument : Option TextBytes → Ending → Option TextBytes
argument a alone = a
argument a (attached arg) = some arg
argument a (apart arg) = some arg

abbrev pub words : Group → List TextBytes
words g = (45 ∷ (g.flags ++ g.letter ∷ behind_letter (g.ending))) ∷ word_behind (g.ending)

-- The letters in order, each with optarg as it is then, where it was `a` before.
abbrev pub answers : Option TextBytes → Group → List (ℤ × Option TextBytes)
answers a g = map (λ f. (pos f, a)) (g.flags) ++ (pos (g.letter), argument a (g.ending)) ∷ []

abbrev pub all_words : List Group → List TextBytes
all_words [] = []
all_words (g ∷ gs) = words g ++ all_words gs

abbrev pub all_answers : Option TextBytes → List Group → List (ℤ × Option TextBytes)
all_answers a [] = []
all_answers a (g ∷ gs) = answers a g ++ all_answers (argument a (g.ending)) gs

abbrev pub last_argument : Option TextBytes → List Group → Option TextBytes
last_argument a [] = a
last_argument a (g ∷ gs) = last_argument (argument a (g.ending)) gs

-- The letter stands in opts, and there this is behind it.
abbrev pub Takes : TextBytes → Ending → TextBytes → Type 0
Takes opts alone ts = takes_argument (first_char ts) ≡ false
Takes opts (attached arg) ts = (takes_argument (first_char ts) ≡ true) × (first_char arg ≢ 0)
Takes opts (apart arg) ts = (first_char ts ≡ 58) × (first_char arg ≢ 45)

abbrev pub IsOption : TextBytes → Ending → ℕ → Type 0
IsOption opts ending c =
    (c ≢ 0) × ((ts : TextBytes) × (find_option c opts ≡ some ts) × Takes opts ending ts)

abbrev pub IsGroup : TextBytes → Group → Type 0
IsGroup opts g = Each (IsOption opts alone) (g.flags) × IsOption opts (g.ending) (g.letter)

-- What stands behind the options is none.
abbrev pub NoOption : List TextBytes → Type 0
NoOption [] = Unit
NoOption (w ∷ ws) = is_option w ≡ false

-- What the switch of a program makes of these letters.
abbrev pub run_answers :
    {S : Type 0} → (S → ℤ → Option TextBytes → Run S) → S → List (ℤ × Option TextBytes) → Run S
run_answers body s [] = ok s
run_answers body s ((c, a) ∷ xs) = body s c a >>= λ s'. run_answers body s' xs
