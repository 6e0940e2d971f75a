-- ===== src/Lmbench/Arguments/Measured.antt =====
-- What lat_mem_rd measures, by the options that it is given.
use numafac.Libc.{TextBytes, atoi}
use numafac.Lmbench.{Timer, bytes, sweep_megabytes, sweep_strides}
use numafac.Lmbench.Child.Progress.{Each}
use numafac.Lmbench.Getopt.{is_option}
use numafac.Lmbench.Getopt.Groups.{Group, IsGroup, all_words, all_answers, run_answers}
use numafac.Lmbench.Arguments.{
  Settings, set_parallel, set_option, options, defaults, measured, lat_mem_rd, lat_mem_rd-words,
}
use numafac.Prelude.{
  ℕ, ◌<◌, ◌≡◌, refl, sym, ap, ◌∙◌, subst, ◌⊎◌, inl, inr, Bool, true, false, ◌||◌, Option, none,
  some, List, [], ◌∷◌, ◌++◌, map, arith, if◌then◌else◌, ℤ, pos, negsuc, pos_part, ltb_ℤ, eqb_ℤ, Run,
  ok, exit, ◌>>=◌,
}

-- Whether a letter was given.
abbrev pub given : ℤ → List (ℤ × Option TextBytes) → Bool
given c [] = false
given c ((d, a) ∷ xs) = eqb_ℤ d c || given c xs

-- The number that was given last with a letter, and `n` if there is none.
abbrev pub last_value : ℤ → ℤ → List (ℤ × Option TextBytes) → ℤ
last_value c n [] = n
last_value c n ((d, none) ∷ xs) = last_value c n xs
last_value c n ((d, some arg) ∷ xs) = last_value c (if eqb_ℤ d c then atoi arg else n) xs

-- t; W or N with an argument; or P with that of a positive number.
abbrev pub IsSetting : ℤ × Option TextBytes → Type 0
IsSetting (c, a) =
    (c ≡ pos 116)
    ⊎ ((arg : TextBytes) × (a ≡ some arg)
        × ((c ≡ pos 87) ⊎ (c ≡ pos 78) ⊎ ((c ≡ pos 80) × (0 < pos_part (atoi arg)))))

-- The settings behind these letters.
abbrev settings_of : List (ℤ × Option TextBytes) → Settings → Settings
settings_of xs s = record {
  thrash = given (pos 116) xs || s.thrash;
  parallel = last_value (pos 80) (s.parallel) xs;
  warmup = last_value (pos 87) (s.warmup) xs;
  repetitions = last_value (pos 78) (s.repetitions) xs;
}

or_true : (b : Bool) → (b || true) ≡ true
or_true true = refl
or_true false = refl

or_false : (b : Bool) → (b || false) ≡ b
or_false true = refl
or_false false = refl

positive : (n : ℤ) → 0 < pos_part n → ltb_ℤ (pos 0) n ≡ true
positive (pos n) h = ground arith
positive (negsuc n) h = ground arith

thrash_settings :
    (a : Option TextBytes) (xs : List (ℤ × Option TextBytes)) (s : Settings)
    → settings_of xs (record s { thrash = true }) ≡ settings_of ((pos 116, a) ∷ xs) s
unfolding eqb_ℤ
thrash_settings none xs s = rw (or_true (given (pos 116) xs)) refl
thrash_settings (some arg) xs s = rw (or_true (given (pos 116) xs)) refl

-- A letter that is known by equations.
known :
    (xs : List (ℤ × Option TextBytes)) (s : Settings) {c d : ℤ} {a b : Option TextBytes}
    → c ≡ d
    → a ≡ b
    → run_answers set_option s ((d, b) ∷ xs) ≡ ok (settings_of ((d, b) ∷ xs) s)
    → run_answers set_option s ((c, a) ∷ xs) ≡ ok (settings_of ((c, a) ∷ xs) s)
known xs s {c} {d} {a} {b} e f h =
    subst (λ x. run_answers set_option s ((x, a) ∷ xs) ≡ ok (settings_of ((x, a) ∷ xs) s)) (sym e)
      (subst (λ y. run_answers set_option s ((d, y) ∷ xs) ≡ ok (settings_of ((d, y) ∷ xs) s))
        (sym f) h)

run_answers-settings :
    (xs : List (ℤ × Option TextBytes)) (s : Settings)
    → Each IsSetting xs
    → run_answers set_option s xs ≡ ok (settings_of xs s)
unfolding set_option set_parallel eqb_ℤ
run_answers-settings [] s h = refl
run_answers-settings ((c, a) ∷ xs) s (inl e, hs) =
    known xs s e refl
      (run_answers-settings xs (record s { thrash = true }) hs ∙ ap ok (thrash_settings a xs s))
run_answers-settings ((c, a) ∷ xs) s (inr (arg, f, inl e), hs) =
    known xs s e f (run_answers-settings xs (record s { warmup = atoi arg }) hs)
run_answers-settings ((c, a) ∷ xs) s (inr (arg, f, inr (inl e)), hs) =
    known xs s e f (run_answers-settings xs (record s { repetitions = atoi arg }) hs)
run_answers-settings ((c, a) ∷ xs) s (inr (arg, f, inr (inr (e, p))), hs) =
    known xs s e f
      (rw (positive (atoi arg) p) (run_answers-settings xs (record s { parallel = atoi arg }) hs))

-- One run after the other, with all their values.
abbrev pub all_runs {ℓ} : {A : Type ℓ} → List (Run A) → Run (List A)
all_runs [] = ok []
all_runs (r ∷ rs) = r >>= λ x. all_runs rs >>= λ xs. ok (x ∷ xs)

-- The strides that are asked for: one of 64 bytes if none is given.
abbrev pub strides_of : List TextBytes → List ℕ
strides_of [] = 64 ∷ []
strides_of (a ∷ av) = map bytes (a ∷ av)

module _ {F : Type 0} (timer : Bool → Timer F) where
  sweep_strides-all_runs :
      (t : Timer F) (p : ℕ) (w r m : ℤ) (av : List TextBytes)
      → sweep_strides t p w r m av
        ≡ all_runs (map (λ stride. sweep_megabytes t stride p w r m) (map bytes av))
  unfolding sweep_strides
  sweep_strides-all_runs t p w r m [] = refl
  sweep_strides-all_runs t p w r m (a ∷ av) =
      ap (λ k. sweep_megabytes t (bytes a) p w r m >>= λ sizes. k >>= λ rest. ok (sizes ∷ rest))
        (sweep_strides-all_runs t p w r m av)

  -- A sweep for each stride.
  abbrev pub sweeps : Settings → TextBytes → List TextBytes → List (Run (List (Option (ℕ × F))))
  sweeps s len strides =
      map
        (λ stride.
          sweep_megabytes (timer (s.thrash)) stride (pos_part (s.parallel)) (s.warmup)
            (s.repetitions) (atoi len))
        (strides_of strides)

  measured-sweeps :
      (s : Settings) (len : TextBytes) (strides : List TextBytes)
      → measured timer s len strides ≡ all_runs (sweeps s len strides)
  unfolding measured
  measured-sweeps s len [] = refl
  measured-sweeps s len (a ∷ av) =
      sweep_strides-all_runs (timer (s.thrash)) (pos_part (s.parallel)) (s.warmup) (s.repetitions)
        (atoi len) (a ∷ av)

  -- Where the options of lat_mem_rd are -t, -W or -N with an argument, or -P with one that atoi
  -- reads as a positive number, each flag alone or in front of others in a word, each argument right
  -- behind its letter and not empty, or in the next word and not beginning with '-': if a size that
  -- is no option follows, and then any strides, main makes a sweep up to the size for each of these
  -- strides, in order, or one for a stride of 64 bytes if there is none. Each sweep takes the timer
  -- of thrash_initialize exactly if -t was given, and what atoi reads from the last -P, -W and -N,
  -- or else 1, 0 and -1. If nothing follows the options, main ends with its usage.
  pub lat_mem_rd-measures :
      (program : TextBytes) (gs : List Group) (len : TextBytes) (strides : List TextBytes)
      → Each (IsGroup options) gs
      → Each IsSetting (all_answers none gs)
      → is_option len ≡ false
      → (lat_mem_rd timer (program ∷ (all_words gs ++ len ∷ strides))
          ≡ all_runs (
              sweeps
                record {
                  thrash = given (pos 116) (all_answers none gs);
                  parallel = last_value (pos 80) (pos 1) (all_answers none gs);
                  warmup = last_value (pos 87) (pos 0) (all_answers none gs);
                  repetitions = last_value (pos 78) (negsuc 0) (all_answers none gs);
                }
                len
                strides))
        × (lat_mem_rd timer (program ∷ (all_words gs ++ [])) ≡ exit 255)
  lat_mem_rd-measures program gs len strides o k n =
      let xs = all_answers none gs in
      let (a, b) = lat_mem_rd-words timer program gs len strides o n in
      let settled = run_answers-settings xs defaults k in
      (
        a
            ∙ ap (λ r. r >>= λ s. measured timer s len strides) settled
            ∙ measured-sweeps (settings_of xs defaults) len strides
            ∙ ap
                (λ t. all_runs (
                  sweeps
                    record {
                      thrash = t;
                      parallel = last_value (pos 80) (pos 1) xs;
                      warmup = last_value (pos 87) (pos 0) xs;
                      repetitions = last_value (pos 78) (negsuc 0) xs;
                    }
                    len strides))
                (or_false (given (pos 116) xs)),
        b ∙ ap (λ r. r >>= λ s. exit 255) settled,
      )
