-- ===== src/Lmbench/Getopt/Loop.antt =====
-- The loops of the programs over their options.
use numafac.Lmbench.Getopt.{while_getopt, no_options, getopt, started, Getopt}
use numafac.Lmbench.Getopt.Words.{getopt-at, getopt-end}
use numafac.Libc.{TextBytes}
use numafac.Lmbench.Child.Progress.{Each}
use numafac.Lmbench.Getopt.Groups.{
  Group, all_words, all_answers, last_argument, IsGroup, NoOption, run_answers,
}
use numafac.Lmbench.Getopt.Calls.{at, Calls, no_call, then_calls, groups-Calls}
use numafac.Prelude.{
  ℕ, zero, suc, ◌+◌, ◌<◌, ◌≡◌, refl, sym, ap, ◌∙◌, subst, false, Option, none, List, [], ◌∷◌, ◌++◌,
  append-nil, arith, length, ℤ, pos, negsuc, eqb_ℤ, eqb_ℤ_refl, Run, ok, ◌>>=◌, bind_assoc,
  bind_cong,
}

letter_continues : (c : ℕ) → eqb_ℤ (pos c) (negsuc 0) ≡ false
unfolding eqb_ℤ
letter_continues c = ground arith

module _ {S : Type 0} (av : List TextBytes) (opts : TextBytes)
    (body : S → ℤ → Option TextBytes → Run S) where
  while_getopt-Calls :
      (fuel : ℕ) {g k : Getopt} {xs : List (ℤ × Option TextBytes)} (s : S)
      → Calls av opts g xs k
      → getopt av opts k ≡ ok (k, negsuc 0)
      → length xs < fuel
      → while_getopt fuel av opts body g s ≡ (run_answers body s xs >>= λ s'. ok (k, s'))
  unfolding while_getopt
  while_getopt-Calls zero s c e h = let f : ⊥ = omega (arith, h) in elim f [ ]
  while_getopt-Calls (suc fuel) s no_call e h = rw (e, eqb_ℤ_refl (negsuc 0)) refl
  while_getopt-Calls (suc fuel) s (then_calls h c xs k d r) e l =
      rw (d, letter_continues c)
        (bind_cong (body s (pos c) (h.optarg)) _ _
            (λ s'. while_getopt-Calls fuel s' r e (omega (arith, l)))
          ∙ sym (bind_assoc (body s (pos c) (h.optarg)) (λ s'. run_answers body s' xs) _))

  getopt-NoOption :
      (a : Option TextBytes) (before rest : List TextBytes)
      → av ≡ before ++ rest
      → 0 < length before
      → NoOption rest
      → getopt av opts (at (length before) a 1) ≡ ok (at (length before) a 1, negsuc 0)
  getopt-NoOption a before [] e h n =
      getopt-end av opts (at (length before) a 1) h
        (ap (λ l. length l) (sym (append-nil before)) ∙ ap (λ l. length l) (sym e))
  getopt-NoOption a before (w ∷ ws) e h n =
      rw (getopt-at av opts (at (length before) a 1) before w ws (e, refl, h), n) refl

  while_getopt-started :
      (fuel : ℕ) (s : S)
      → while_getopt fuel av opts body no_options s ≡ while_getopt fuel av opts body (at 1 none 1) s
  unfolding while_getopt getopt started
  while_getopt-started zero s = refl
  while_getopt-started (suc fuel) s = refl

-- With more fuel than there are letters, and where the options are written so: each flag, which
-- opts names without a mark behind it, alone or with others in a word; each letter that opts marks
-- with ':', '|' or ';' with an argument that is not empty right behind it, or, for ':' alone, with
-- an argument in the next word that does not begin with '-'; and nothing follows, or a word that is
-- no option: the loop over getopt calls the switch of the program with each letter, in order, and
-- its argument, and leaves optind at the first word behind them.
pub while_getopt-words :
    {S : Type 0} (opts : TextBytes) (body : S → ℤ → Option TextBytes → Run S) (program : TextBytes)
    (gs : List Group) (rest : List TextBytes) (fuel : ℕ) (s : S)
    → Each (IsGroup opts) gs
    → NoOption rest
    → length (all_answers none gs) < fuel
    → while_getopt fuel (program ∷ (all_words gs ++ rest)) opts body no_options s ≡ (
        run_answers body s (all_answers none gs) >>= λ s'. ok (
          record {
            optopt = 0;
            optind = 1 + length (all_words gs);
            optarg = last_argument none gs;
            n = 1;
          },
          s',
        ))
while_getopt-words opts body program gs rest fuel s o n h =
    let av = program ∷ (all_words gs ++ rest) in
    let len : suc (length (all_words gs)) ≡ 1 + length (all_words gs) = omega arith in
    while_getopt-started av opts body fuel s
    ∙ while_getopt-Calls av opts body fuel s
        (groups-Calls av opts 1 none (program ∷ []) gs rest refl refl (omega arith) o)
        (subst
          (λ i.
            getopt av opts (at i (last_argument none gs) 1)
            ≡ ok (at i (last_argument none gs) 1, negsuc 0))
          len
          (getopt-NoOption av opts body (last_argument none gs) (program ∷ all_words gs) rest refl
            (omega arith) n))
        h
