-- ===== src/Tests/Arguments.antt =====
-- The theorems on the arguments of lat_mem_rd, each at some, and runs of getopt.
use numafac.Libc.{TextBytes, codes, atoi, scan_int, is_digit, is_space}
use numafac.Lmbench.Child.Progress.{Each}
use numafac.Prelude.{
  ◌≡◌, refl, inl, inr, true, Option, none, some, List, [], ◌∷◌, ◌++◌, arith, ℤ, pos, negsuc, eqb_ℤ,
  Run, ok, exit, fault, failed_assertion,
}
use numafac.Lmbench.Getopt.{
  while_getopt, no_options, getopt, option_from, option_in, found_option, char_at, started,
  is_option, find_option, takes_argument, with_argument, word_argument, singleton, question,
}
use numafac.Lmbench.Getopt.Groups.{
  attached, apart, Group, IsGroup, all_words, all_answers, run_answers,
}
use numafac.Lmbench.Getopt.Loop.{while_getopt-words}
use numafac.Lmbench.Arguments.{options, defaults, set_option, lat_mem_rd, set_parallel}
use numafac.Lmbench.Arguments.Measured.{
  given, last_value, IsSetting, all_runs, sweeps, lat_mem_rd-measures,
}
use numafac.Tests.Lmbench.{clock}

-- -tP 4 -N10
abbrev groups : List Group
groups =
    record { flags = codes "t"; letter = 80; ending = apart (codes "4") }
    ∷ record { flags = []; letter = 78; ending = attached (codes "10") }
    ∷ []

groups-IsGroup : Each (IsGroup options) groups
unfolding find_option takes_argument
groups-IsGroup = (
  (
    (((λ h. cc), (codes "P:W:N:", refl, refl)), tt),
    ((λ h. cc), (codes ":W:N:", refl, (refl, (λ h. cc)))),
  ),
  ((tt, ((λ h. cc), (codes ":", refl, (refl, (λ h. cc))))), tt),
)

abbrev given_words : List TextBytes
given_words = codes "lat_mem_rd" ∷ (all_words groups ++ codes "8" ∷ codes "128" ∷ [])

-- A switch that keeps what it gets.
abbrev keep : List (ℤ × Option TextBytes) → ℤ → Option TextBytes → Run (List (ℤ × Option TextBytes))
keep xs c a = ok (xs ++ (c, a) ∷ [])

while_getopt-words_example :
    while_getopt 4 given_words options keep no_options []
    ≡ ok (
      record { optopt = 0; optind = 4; optarg = some (codes "10"); n = 1 },
      (pos 116, none) ∷ (pos 80, some (codes "4")) ∷ (pos 78, some (codes "10")) ∷ [],
    )
while_getopt-words_example =
    while_getopt-words options keep (codes "lat_mem_rd") groups (codes "8" ∷ codes "128" ∷ []) 4 []
      groups-IsGroup (unfold is_option in refl) (omega arith)

groups-IsSetting : Each IsSetting (all_answers none groups)
unfolding atoi scan_int is_digit is_space
groups-IsSetting = (
  inl refl,
  (
    inr (codes "4", refl, inr (inr (refl, omega arith))),
    (inr (codes "10", refl, inr (inl refl)), tt),
  ),
)

lat_mem_rd-measures_example :
    (lat_mem_rd (λ t. clock) given_words
      ≡ all_runs (
          sweeps
            (λ t. clock)
            record {
              thrash = given (pos 116) (all_answers none groups);
              parallel = last_value (pos 80) (pos 1) (all_answers none groups);
              warmup = last_value (pos 87) (pos 0) (all_answers none groups);
              repetitions = last_value (pos 78) (negsuc 0) (all_answers none groups);
            }
            (codes "8")
            (codes "128" ∷ [])))
    × (lat_mem_rd (λ t. clock) (codes "lat_mem_rd" ∷ (all_words groups ++ [])) ≡ exit 255)
lat_mem_rd-measures_example =
    lat_mem_rd-measures (λ t. clock) (codes "lat_mem_rd") groups (codes "8") (codes "128" ∷ [])
      groups-IsGroup groups-IsSetting (unfold is_option in refl)

-- The settings that these options make.
settings :
    run_answers set_option defaults (all_answers none groups)
    ≡ ok record { thrash = true; parallel = pos 4; warmup = pos 0; repetitions = pos 10 }
unfolding set_option set_parallel atoi scan_int is_digit is_space eqb_ℤ
settings = refl

-- Opens what a call of getopt calls.
program : Unit {0}
unfolding getopt option_from option_in found_option char_at started is_option find_option
    takes_argument with_argument word_argument singleton
program = tt

-- With "b;" among the options, -ab without an argument leaves n at the second letter: at -a, the next
-- call looks behind its end.
unreset :
    (getopt
        (codes "p" ∷ codes "-ab" ∷ codes "-a" ∷ [])
        (codes "ab;")
        record { optopt = 0; optind = 1; optarg = none; n = 2 }
      ≡ ok (record { optopt = 98; optind = 2; optarg = none; n = 2 }, question))
    × (getopt
          (codes "p" ∷ codes "-ab" ∷ codes "-a" ∷ [])
          (codes "ab;")
          record { optopt = 98; optind = 2; optarg = none; n = 2 }
        ≡ fault failed_assertion)
unfolding program
unreset = (refl, refl)
