-- ===== src/Lmbench/Arguments.antt =====
-- lmbench3/src/lat_mem_rd.c: main, from its arguments to what is measured.
pub mod Measured
use numafac.Libc.{TextBytes, codes, atoi}
use numafac.Lmbench.{Timer, sweep_megabytes, sweep_strides}
use numafac.Lmbench.Child.Progress.{Each}
use numafac.Lmbench.Getopt.Groups.{
  Group, IsGroup, NoOption, all_words, all_answers, answers, run_answers, argument, behind_letter,
  word_behind,
}
use numafac.Lmbench.Getopt.Loop.{while_getopt-words}
use numafac.Prelude.{element}
use numafac.Prelude.{
  ℕ, suc, ◌+◌, ◌≤◌, ◌<◌, ◌≡◌, refl, sym, ap, ◌∙◌, Bool, true, false, Option, none, some, List, [],
  ◌∷◌, ◌++◌, map, append-nil, arith, ◌==◌, if◌then◌else◌, length, get_elem?, drop, length-append,
  length-map, get_elem?-append, ℤ, pos, negsuc, pos_part, ltb_ℤ, eqb_ℤ, Run, ok, exit, ◌>>=◌, deref,
  bind_assoc, bind_cong,
}
use numafac.Lmbench.Getopt.{is_option, Getopt, while_getopt, no_options}

-- The variables of main: whether fpInit is thrash_initialize, and the numbers.
pub record Settings : Type 0 where
  pub thrash : Bool
  pub parallel : ℤ
  pub warmup : ℤ
  pub repetitions : ℤ

-- lmbench_usage, which ends with exit(-1).
abbrev pub lmbench_usage {ℓ} : {A : Type ℓ} → Run A
lmbench_usage = exit 255

-- case 'P'.
unfoldable pub set_parallel : Settings → ℤ → Run Settings
set_parallel s parallel =
    if ltb_ℤ (pos 0) parallel then ok record s { parallel = parallel } else lmbench_usage

-- switch(c), with optarg.
unfoldable pub set_option : Settings → ℤ → Option TextBytes → Run Settings
set_option s c optarg =
    if eqb_ℤ c (pos 116)
    then ok record s { thrash = true }
    else if eqb_ℤ c (pos 80)
    then (deref optarg >>= λ arg. set_parallel s (atoi arg))
    else if eqb_ℤ c (pos 87)
    then (deref optarg >>= λ arg. ok record s { warmup = atoi arg })
    else if eqb_ℤ c (pos 78)
    then (deref optarg >>= λ arg. ok record s { repetitions = atoi arg })
    else lmbench_usage

abbrev pub options : TextBytes
options = codes "tP:W:N:"

abbrev pub defaults : Settings
defaults = record { thrash = false; parallel = pos 1; warmup = pos 0; repetitions = negsuc 0 }

-- The characters of some words.
unfoldable pub characters : List TextBytes → ℕ
characters [] = 0
characters (w ∷ ws) = length w + characters ws

module _ {F : Type 0} (timer : Bool → Timer F) where
  -- The sizes that are measured: at a stride of 512 bytes over that of a pointer, or at those given.
  unfoldable pub measured :
      Settings → TextBytes → List TextBytes → Run (List (List (Option (ℕ × F))))
  measured s len [] = do
    sizes ←
        sweep_megabytes (timer (s.thrash)) 64 (pos_part (s.parallel)) (s.warmup) (s.repetitions)
          (atoi len)
    ok (sizes ∷ [])
  measured s len (a ∷ av) =
      sweep_strides (timer (s.thrash)) (pos_part (s.parallel)) (s.warmup) (s.repetitions) (atoi len)
        (a ∷ av)

  -- What follows the loop over the options.
  unfoldable pub behind_options :
      List TextBytes → Getopt → Settings → Run (List (List (Option (ℕ × F))))
  behind_options av g s =
      if g.optind == length av
      then lmbench_usage
      else do len ← element (get_elem? av (g.optind)); measured s len (drop (g.optind + 1) av)

  -- main. Each round of its loop takes at least a character of a word, or ends.
  unfoldable pub lat_mem_rd : List TextBytes → Run (List (List (Option (ℕ × F))))
  lat_mem_rd av = do
    (g, s) ← while_getopt (suc (characters av)) av options set_option no_options defaults
    behind_options av g s

characters-append : (xs ys : List TextBytes) → characters (xs ++ ys) ≡ characters xs + characters ys
unfolding characters
characters-append [] ys = omega arith
characters-append (x ∷ xs) ys = omega (arith, characters-append xs ys)

-- A call of getopt for each letter, which is a character of some word.
answers-characters :
    (a : Option TextBytes) (gs : List Group) → length (all_answers a gs) ≤ characters (all_words gs)
unfolding characters
answers-characters a [] = omega arith
answers-characters a (g ∷ gs) =
    let rest = answers-characters (argument a (g.ending)) gs in
    let all = length-append (answers a g) (all_answers (argument a (g.ending)) gs) in
    let last : List (ℤ × Option TextBytes) = (pos (g.letter), argument a (g.ending)) ∷ [] in
    let flag : ℕ → ℤ × Option TextBytes = λ f. (pos f, a) in
    let mine = length-append (map flag (g.flags)) last in
    let flags = length-map (g.flags) flag in
    let word = length-append (g.flags) (g.letter ∷ behind_letter (g.ending)) in
    let more = characters-append (word_behind (g.ending)) (all_words gs) in
    omega (arith, rest, all, mine, flags, word, more)

drop-append :
    (xs : List TextBytes) (y : TextBytes) (ys : List TextBytes)
    → drop (length xs + 1) (xs ++ y ∷ ys) ≡ ys
drop-append xs y ys =
    let next : length xs + 1 ≡ suc (length xs) = omega arith in
    ap (λ n. drop n (xs ++ y ∷ ys)) next ∙ in_list xs
  where
    in_list : (xs : List TextBytes) → drop (suc (length xs)) (xs ++ y ∷ ys) ≡ ys
    in_list [] = refl
    in_list (x ∷ xs) = in_list xs

module _ {F : Type 0} (timer : Bool → Timer F) where
  -- Behind the options.
  behind_options-size :
      (before : List TextBytes) (len : TextBytes) (strides : List TextBytes) (g : Getopt)
      (s : Settings)
      → g.optind ≡ length before
      → behind_options timer (before ++ len ∷ strides) g s ≡ measured timer s len strides
  unfolding behind_options
  behind_options-size before len strides g s e =
      let more : (g.optind == length (before ++ len ∷ strides)) ≡ false =
        ground (arith, e, length-append before (len ∷ strides)) in
      let there : get_elem? (before ++ len ∷ strides) (g.optind) ≡ some len =
        rw e (get_elem?-append before strides len) in
      let rest : drop (g.optind + 1) (before ++ len ∷ strides) ≡ strides =
        rw e (drop-append before len strides) in
      rw (more, there, rest) refl

  behind_options-none :
      (av : List TextBytes) (g : Getopt) (s : Settings)
      → g.optind ≡ length av
      → behind_options timer av g s ≡ exit 255
  unfolding behind_options
  behind_options-none av g s e =
      let none_left : (g.optind == length av) ≡ true = ground (arith, e) in rw none_left refl

  options_then :
      (program : TextBytes) (gs : List Group) (rest : List TextBytes)
      (k : Settings → Run (List (List (Option (ℕ × F)))))
      → Each (IsGroup options) gs
      → NoOption rest
      → ((g : Getopt) (s : Settings)
          → g.optind ≡ suc (length (all_words gs))
          → behind_options timer (program ∷ (all_words gs ++ rest)) g s ≡ k s)
      → lat_mem_rd timer (program ∷ (all_words gs ++ rest))
        ≡ (run_answers set_option defaults (all_answers none gs) >>= k)
  unfolding lat_mem_rd characters
  options_then program gs rest k o n h =
      let av = program ∷ (all_words gs ++ rest) in
      let run = run_answers set_option defaults (all_answers none gs) in
      let enough : length (all_answers none gs) < suc (characters av) =
        omega (arith, answers-characters none gs, characters-append (all_words gs) rest) in
      ap (λ r. r >>= λ o. behind_options timer av (o.0) (o.1))
        (while_getopt-words options set_option program gs rest (suc (characters av)) defaults o n
          enough)
      ∙ bind_assoc run _ _
      ∙ bind_cong run _ k (λ s. h _ s (omega arith))

  -- With options written as Getopt/Loop says, then a size that is no option, and then any
  -- strides, main of lat_mem_rd measures the size at these strides with the settings that its
  -- switch makes of the letters in order; without anything behind the options, it ends with its
  -- usage, if the switch has not ended before.
  pub lat_mem_rd-words :
      (program : TextBytes) (gs : List Group) (len : TextBytes) (strides : List TextBytes)
      → Each (IsGroup options) gs
      → is_option len ≡ false
      → (lat_mem_rd timer (program ∷ (all_words gs ++ len ∷ strides)) ≡ (
          run_answers set_option defaults (all_answers none gs) >>= λ s.
          measured timer s len strides))
        × (lat_mem_rd timer (program ∷ (all_words gs ++ []))
            ≡ (run_answers set_option defaults (all_answers none gs) >>= λ s. exit 255))
  lat_mem_rd-words program gs len strides o n = (
    options_then program gs (len ∷ strides) (λ s. measured timer s len strides) o n
        (λ g s e. behind_options-size (program ∷ all_words gs) len strides g s e),
    options_then program gs [] (λ s. exit 255) o tt
        (λ g s e.
          behind_options-none (program ∷ (all_words gs ++ [])) g s
            (e ∙ ap (λ l. suc (length l)) (sym (append-nil (all_words gs))))),
  )
