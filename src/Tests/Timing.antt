-- ===== src/Tests/Timing.antt =====
-- The theorems on the timing of lmbench3, each at an input.
use numafac.Lmbench.Results.{save_median}
use numafac.Lmbench.Results.{sizeof_result}
use numafac.Lmbench.Results.{
  insertsort, insert_measure, find_place, shift_down, mean_of, middle_mean, Measure, Results,
  insertinit, insert_all, save_minimum,
}
use numafac.Lmbench.Results.Collected.{IsStrict, IsMinimum, save_minimum-insert_all}
use numafac.Lmbench.Child.{Doubles, Input, benchmp_child, run_child}
use numafac.Lmbench.Child.Capacity.{FinalHasRoom, run_child-benchmp_child}
use numafac.Lmbench.Child.Stages.{fresh}
use numafac.Lmbench.Child.Protocol.{SpeaksFrom, run_child-Protocol}
use numafac.Lmbench.Child.Progress.{FinalCooldown, Each}
use numafac.Lmbench.Child.Beside.{run_child-beside}
use numafac.Lmbench.Child.Alone.{IsShort, run_child-alone}
use numafac.Lmbench.Parent.{
  Poll, benchmp_parent, after_bytes, collect_bytes, size_in_bytes, merge_results, finish_parent,
  collect_results, collect_done, start_signal, result_signal, exit_signal,
}
use numafac.Lmbench.Permutation.{scaled_to, xor, swap, randomize, permutation}
use numafac.Lmbench.Permutation.Shuffled.{Permutes, permutation-Permutes}
use numafac.Prelude.{
  ℕ, zero, suc, ◌+◌, ◌*◌, ◌/◌, ◌≡◌, refl, Bool, true, false, ◌||◌, none, some, List, [], ◌∷◌, ◌++◌,
  arith, ltb, length, replicate, pos, ◌*ℤ◌, out_of_bounds, ok, fault, ◌>>=◌, Returns, Array, malloc,
  load, store, filled, fill, tabulate, value_or,
}

-- The time for an iteration, in whole microseconds.
abbrev pub slower : Measure → Measure → Bool
slower (u, n) (u', n') = ltb (u' / n') (u / n)

less_asymmetric : (a b : ℕ) → ltb b a ≡ true → ltb a b ≡ false
less_asymmetric a b h = ground (arith, h)

less_transitive : (a b c : ℕ) → ltb b a ≡ false → ltb c b ≡ false → ltb c a ≡ false
less_transitive a b c h k = ground (arith, h, k)

pub slower-IsStrict : IsStrict slower
slower-IsStrict = record {
  asymmetric = λ (u, n) (u', n'). less_asymmetric (u / n) (u' / n');
  transitive = λ (u, n) (u', n') (u'', n''). less_transitive (u / n) (u' / n') (u'' / n'');
}

-- Times in whole microseconds, none of them negative.
abbrev pub whole : Doubles ℕ
whole = record {
  to_time = λ t. t;
  above_95 = λ t e. ltb (95 * e) (100 * t);
  outside = λ t e. ltb (100 * t) (99 * e) || ltb (12 * e) (10 * t);
  above_150 = λ t. ltb 150 t;
  negative = λ t. false;
  rescaled = λ i t e. i * 11 * e / (10 * t) + 1;
  double_above = slower;
}

save_minimum-insert_all_example :
    Returns
      (insert_all slower
          ((30, 10) ∷ (0, 5) ∷ (90, 10) ∷ (20, 10) ∷ [])
          (insertinit record { count = 7; cells = malloc 11 })
        >>= λ r. save_minimum r)
      (IsMinimum slower slower-IsStrict ((30, 10) ∷ (90, 10) ∷ (20, 10) ∷ []))
save_minimum-insert_all_example =
    save_minimum-insert_all slower slower-IsStrict ((30, 10) ∷ (0, 5) ∷ (90, 10) ∷ (20, 10) ∷ []) 7
      7

-- A call that finds the start signal, or not, and the request for a report, or not.
abbrev call : ℕ → Bool → Bool → Input ℕ
call time start result = record {
  result = time;
  orphaned = false;
  start_ready = start;
  result_ready = result;
}

-- A child waits, measures twice, and reports.
abbrev calls : List (Input ℕ)
calls =
    call 0 false false
    ∷ call 5 true false
    ∷ call 6000 true false
    ∷ call 7000 true false
    ∷ call 5000 true true
    ∷ []

run_child-benchmp_child_example :
    Returns (run_child whole calls (benchmp_child 1 5000 1 2 (pos 2))) (FinalHasRoom whole (pos 2))
run_child-benchmp_child_example = run_child-benchmp_child whole (pos 2) 1 5000 1 2 calls

run_child-Protocol_example :
    Returns
      (run_child whole calls (benchmp_child 1 5000 1 2 (pos 2)))
      (SpeaksFrom whole calls fresh)
run_child-Protocol_example = run_child-Protocol whole 1 5000 1 2 (pos 2) calls

run_child-beside_example :
    Returns
      (run_child whole (replicate 3 (call 5 true false)) (benchmp_child 1 5000 1 2 (pos 2)))
      FinalCooldown
run_child-beside_example =
    run_child-beside whole 1 5000 1 2 (pos 2) (replicate 3 (call 5 true false)) refl
      ((refl, refl), ((refl, refl), ((refl, refl), tt))) (omega arith)

calls-IsShort : (n : ℕ) → Each (IsShort whole 5000) (replicate n (call 5 true false))
calls-IsShort zero = tt
calls-IsShort (suc n) = (((refl, refl), refl, refl), calls-IsShort n)

run_child-alone_example :
    Returns
      (run_child whole (replicate 11 (call 5 true false)) (benchmp_child 1 5000 1 1 (pos 3)))
      FinalCooldown
run_child-alone_example =
    run_child-alone whole 5000 1 (pos 3) (replicate 11 (call 5 true false)) (calls-IsShort 11)
      (omega arith)

-- A round in which so many bytes are read.
abbrev read_bytes : ℕ → Poll
read_bytes n = record { interrupted = false; readable = true; bytes_read = pos n }

abbrev quiet : Poll
quiet = record { interrupted = false; readable = false; bytes_read = pos 0 }

-- Two children, which are ready one after the other, done together, and report in pieces.
abbrev polls : List Poll
polls =
    read_bytes 1
    ∷ quiet
    ∷ read_bytes 1
    ∷ read_bytes 2
    ∷ read_bytes 184
    ∷ read_bytes 100
    ∷ read_bytes 84
    ∷ []

abbrev report_of : List Measure → Results
report_of xs = record { count = length xs; cells = filled xs ++ malloc 9 }

abbrev first_list : List Measure
first_list = (7000, 100) ∷ (6000, 100) ∷ []

abbrev second_list : List Measure
second_list = (6500, 100) ∷ []

permutation-Permutes_example :
    Returns (permutation (λ i. 7 * i) 12345 (some (malloc 4)) 4 (pos 4096) 0) (λ o.
      (result : Array ℕ) × (o.1 ≡ some result)
      × Permutes (tabulate (scaled_to (pos 4096)) 0 4) result)
permutation-Permutes_example = permutation-Permutes (λ i. 7 * i) 12345 3 (pos 4096) 0

-- Opens what a run of the parent, or of permutation, calls.
program : Unit {0}
unfolding insertinit insertsort insert_measure find_place shift_down sizeof_result mean_of
    middle_mean save_median after_bytes collect_bytes size_in_bytes merge_results finish_parent
    collect_results collect_done benchmp_parent load store ◌*ℤ◌ xor swap randomize permutation fill
program = tt

-- Two children and the results that they report.
parent_run :
    value_or [] (
      benchmp_parent slower 2 (pos 2) (report_of first_list ∷ report_of second_list ∷ []) polls
      >>= λ o. ok (o.0))
    ≡ start_signal 2 ∷ result_signal 1 ∷ result_signal 1 ∷ exit_signal 2 ∷ []
unfolding program
parent_run = refl

-- Twelve children that are asked for no repetition report one measure each, for which the parent
-- has eleven cells.
no_repetition :
    benchmp_parent slower 12
      (pos 0)
      (replicate 12 (report_of second_list))
      (read_bytes 12 ∷ read_bytes 12 ∷ replicate 12 (read_bytes 184))
    ≡ fault out_of_bounds
unfolding program
no_repetition = refl

-- The order of four pages.
four_pages :
    value_or none
      (permutation (λ i. 7 * i) 12345 (some (malloc 4)) 4 (pos 4096) 0 >>= λ o. ok (o.1))
    ≡ some (filled (8192 ∷ 4096 ∷ 0 ∷ 12288 ∷ []))
unfolding program
four_pages = refl
