-- ===== src/Lmbench/Getopt/Calls.antt =====
-- The calls of getopt on these options.
use numafac.Prelude.{
  ℕ, suc, ◌+◌, ◌<◌, ◌≡◌, refl, sym, ap, ◌∙◌, subst, ◌≢◌, true, false, not, Option, some, List, [],
  ◌∷◌, ◌++◌, map, append_assoc, arith, ◌==◌, length, get_elem?, drop, length-append, ℤ, pos, ok,
}
use numafac.Libc.{TextBytes}
use numafac.Lmbench.Child.Progress.{Each}
use numafac.Lmbench.Getopt.Groups.{
  Ending, alone, attached, apart, Group, behind_letter, word_behind, argument, words, answers,
  all_words, all_answers, last_argument, IsOption, IsGroup,
}
use numafac.Lmbench.Getopt.{
  Getopt, first_char, takes_argument, singleton, word_argument, with_argument, getopt,
}
use numafac.Lmbench.Getopt.Words.{drop-append_next, IsAt, char_at-first, getopt-letter}

abbrev pub at : ℕ → Option TextBytes → ℕ → Getopt
at i a n = record { optopt = 0; optind = i; optarg = a; n = n }

drop_option :
    (pre : TextBytes) (c : ℕ) (arg : TextBytes)
    → drop (suc (length pre) + 1) (45 ∷ (pre ++ c ∷ arg)) ≡ arg
drop_option pre c arg =
    let two : suc (length pre) + 1 ≡ suc (suc (length pre)) = omega arith in
    ap (λ n. drop n (45 ∷ (pre ++ c ∷ arg))) two ∙ drop-append_next pre c arg

next_element :
    (before : List TextBytes) (word next : TextBytes) (behind av : List TextBytes) (i : ℕ)
    → av ≡ before ++ word ∷ next ∷ behind
    → i ≡ length before
    → get_elem? av (i + 1) ≡ some next
next_element before word next behind av i split place =
    let at_next : i + 1 ≡ suc (length before) = omega (arith, place) in
    rw (split, at_next) (in_list before)
  where
    in_list :
        (xs : List TextBytes) → get_elem? (xs ++ word ∷ next ∷ behind) (suc (length xs)) ≡ some next
    in_list [] = refl
    in_list (x ∷ xs) = in_list xs

first_char-append :
    (opts fs rest : TextBytes)
    → first_char rest ≢ 0
    → Each (IsOption opts alone) fs
    → first_char (fs ++ rest) ≢ 0
first_char-append opts [] rest z o = z
first_char-append opts (f ∷ fs) rest z (y, o) = y.0

module _ (av : List TextBytes) (opts : TextBytes) where
  -- Calls of getopt one after the other, with what they return.
  pub data Calls : Getopt → List (ℤ × Option TextBytes) → Getopt → Type 0 where
    no_call : {g : Getopt} → Calls g [] g
    then_calls :
        {g : Getopt} (h : Getopt) (c : ℕ) (xs : List (ℤ × Option TextBytes)) (k : Getopt)
        → getopt av opts g ≡ ok (h, pos c)
        → Calls h xs k
        → Calls g ((pos c, h.optarg) ∷ xs) k

  Calls-append :
      {g h k : Getopt} {xs ys : List (ℤ × Option TextBytes)}
      → Calls g xs h
      → Calls h ys k
      → Calls g (xs ++ ys) k
  Calls-append no_call c = c
  Calls-append (then_calls h c xs k e d) b = then_calls h c _ _ e (Calls-append d b)

  letter_call :
      (i : ℕ) (a : Option TextBytes) (before : List TextBytes) (pre : TextBytes) (c : ℕ)
      (ending : Ending) (behind : List TextBytes)
      → IsAt av i before (45 ∷ (pre ++ c ∷ behind_letter ending)) (word_behind ending ++ behind)
      → IsOption opts ending c
      → getopt av opts (at i a (suc (length pre)))
        ≡ ok (at (i + length (word_behind ending) + 1) (argument a ending) 1, pos c)
  unfolding singleton with_argument word_argument takes_argument
  letter_call i a before pre c alone behind p (z, (ts, f, t)) =
      let g = at i a (suc (length pre)) in
      rw (getopt-letter av opts g before pre c [] behind ts p refl z f, t)
        (ap (λ j. ok (at j a 1, pos c)) (omega arith))
  letter_call i a before pre c (attached arg) behind p (z, (ts, f, (t, y))) =
      let g = at i a (suc (length pre)) in
      let near : not (first_char arg == 0) ≡ true = ground (arith, y) in
      let rest : drop (suc (length pre) + 1) (45 ∷ (pre ++ c ∷ arg)) ≡ arg =
        drop_option pre c arg in
      rw (getopt-letter av opts g before pre c arg behind ts p refl z f, t, near, rest)
        (ap (λ j. ok (at j (some arg) 1, pos c)) (omega arith))
  letter_call i a before pre c (apart arg) behind p (z, (ts, f, (t, y))) =
      let g = at i a (suc (length pre)) in
      let (split, place, begun) = p in
      let more : (i + 1 == length av) ≡ false = ground (
        arith,
        ap (λ l. length l) split,
        length-append before ((45 ∷ (pre ++ c ∷ [])) ∷ arg ∷ behind),
        place,
      ) in
      let there : get_elem? av (i + 1) ≡ some arg =
        next_element before _ arg behind av i split place in
      let set : (first_char arg == 45) ≡ false = ground (arith, y) in
      rw
        (
          getopt-letter av opts g before pre c [] (arg ∷ behind) ts p refl z f,
          t,
          more,
          there,
          char_at-first arg,
          set,
        )
        (ap (λ j. ok (at j (some arg) 1, pos c)) (omega arith))

  flag_call :
      (i n : ℕ) (a : Option TextBytes) (before : List TextBytes) (pre : TextBytes) (c : ℕ)
      (more : TextBytes) (behind : List TextBytes)
      → IsAt av i before (45 ∷ (pre ++ c ∷ more)) behind
      → n ≡ suc (length pre)
      → first_char more ≢ 0
      → IsOption opts alone c
      → getopt av opts (at i a n) ≡ ok (at i a (n + 1), pos c)
  unfolding singleton
  flag_call i n a before pre c more behind p e z (y, (ts, f, t)) =
      let set : (first_char more == 0) ≡ false = ground (arith, z) in
      rw (getopt-letter av opts (at i a n) before pre c more behind ts p e y f, t, set) refl

  flag-Calls :
      (i n : ℕ) (a : Option TextBytes) (before : List TextBytes) (pre fs rest : TextBytes)
      (behind : List TextBytes)
      → IsAt av i before (45 ∷ (pre ++ (fs ++ rest))) behind
      → n ≡ suc (length pre)
      → first_char rest ≢ 0
      → Each (IsOption opts alone) fs
      → Calls (at i a n) (map (λ f. (pos f, a)) fs) (at i a (n + length fs))
  flag-Calls i n a before pre [] rest behind p e z o =
      subst (λ m. Calls (at i a n) [] (at i a m)) (omega arith) no_call
  flag-Calls i n a before pre (f ∷ fs) rest behind (split0, place, begun) e z (y, o) =
      let nonempty = first_char-append opts fs rest z o in
      let split : av ≡ before ++ (45 ∷ ((pre ++ f ∷ []) ++ (fs ++ rest))) ∷ behind =
        split0
        ∙ ap (λ w. before ++ (45 ∷ w) ∷ behind) (sym (append_assoc pre (f ∷ []) (fs ++ rest))) in
      let more : n + 1 ≡ suc (length (pre ++ f ∷ [])) =
        omega (arith, e, length-append pre (f ∷ [])) in
      let shifted : n + 1 + length fs ≡ n + length (f ∷ fs) = omega arith in
      then_calls (at i a (n + 1)) f (map (λ f. (pos f, a)) fs) (at i a (n + length (f ∷ fs)))
        (flag_call i n a before pre f (fs ++ rest) behind (split0, place, begun) e nonempty y)
        (subst (λ m. Calls (at i a (n + 1)) (map (λ f. (pos f, a)) fs) (at i a m)) shifted
          (flag-Calls i (n + 1) a before (pre ++ f ∷ []) fs rest behind (split, place, begun) more z
            o))

  group-Calls :
      (i : ℕ) (a : Option TextBytes) (before : List TextBytes) (g : Group) (behind : List TextBytes)
      → av ≡ before ++ (words g ++ behind)
      → i ≡ length before
      → 0 < i
      → IsGroup opts g
      → Calls (at i a 1) (answers a g) (at (i + length (words g)) (argument a (g.ending)) 1)
  group-Calls i a before g behind split place begun (fs, l) =
      let rest = g.letter ∷ behind_letter (g.ending) in
      let next = i + length (word_behind (g.ending)) + 1 in
      let end : next ≡ i + length (words g) = omega arith in
      let one_more : 1 + length (g.flags) ≡ suc (length (g.flags)) = omega arith in
      Calls-append
        (subst (λ m. Calls (at i a 1) (map (λ f. (pos f, a)) (g.flags)) (at i a m)) one_more
          (flag-Calls i 1 a before [] (g.flags) rest (word_behind (g.ending) ++ behind)
            (split, place, begun) refl (l.0) fs))
        (subst
          (λ m.
            Calls (at i a (suc (length (g.flags)))) ((pos (g.letter), argument a (g.ending)) ∷ [])
              (at m (argument a (g.ending)) 1))
          end
          (then_calls (at next (argument a (g.ending)) 1) (g.letter) []
            (at next (argument a (g.ending)) 1)
            (letter_call i a before (g.flags) (g.letter) (g.ending) behind (split, place, begun) l)
            no_call))

  pub groups-Calls :
      (i : ℕ) (a : Option TextBytes) (before : List TextBytes) (gs : List Group)
      (behind : List TextBytes)
      → av ≡ before ++ (all_words gs ++ behind)
      → i ≡ length before
      → 0 < i
      → Each (IsGroup opts) gs
      → Calls (at i a 1) (all_answers a gs) (at (i + length (all_words gs)) (last_argument a gs) 1)
  groups-Calls i a before [] behind split place begun o =
      subst (λ m. Calls (at i a 1) [] (at m a 1)) (omega arith) no_call
  groups-Calls i a before (g ∷ gs) behind split place begun (y, o) =
      let b = argument a (g.ending) in
      let j = i + length (words g) in
      let here : av ≡ before ++ (words g ++ (all_words gs ++ behind)) =
        split ∙ ap (λ l. before ++ l) (append_assoc (words g) (all_words gs) behind) in
      let there : av ≡ (before ++ words g) ++ (all_words gs ++ behind) =
        here ∙ sym (append_assoc before (words g) (all_words gs ++ behind)) in
      let at_end : j + length (all_words gs) ≡ i + length (all_words (g ∷ gs)) =
        omega (arith, length-append (words g) (all_words gs)) in
      Calls-append (group-Calls i a before g (all_words gs ++ behind) here place begun y) (
        subst (λ m. Calls (at j b 1) (all_answers b gs) (at m (last_argument b gs) 1)) at_end
          (groups-Calls j b (before ++ words g) gs behind there
            (omega (arith, place, length-append before (words g))) (omega (arith, begun)) o))
