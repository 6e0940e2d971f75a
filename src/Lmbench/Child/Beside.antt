-- ===== src/Lmbench/Child/Beside.antt =====
-- A child with others beside it stops after as many intervals as it has results to measure.
use numafac.Lmbench.Results.{insertsort}
use numafac.Lmbench.Child.{
  Doubles, Phase, timing_interval, Child, Input, benchmp_child, keep_result, keep_if_enough, adjust,
  run_child,
}
use numafac.Lmbench.Child.Room.{benchmp_child-HasRoom, goal, goal-more, goal-fits}
use numafac.Lmbench.Child.Capacity.{FinalHasRoom, run_child-HasRoom}
use numafac.Lmbench.Child.Progress.{
  Bound, Left, AtMost, Ahead, IsBound, Each, FinalCooldown, run_child-AtMost, IsStarted,
}
use numafac.Prelude.{
  ℕ, suc, ◌+◌, ◌≤◌, ◌<◌, ◌≡◌, refl, sym, subst, true, false, ◌&&◌, ◌||◌, List, arith, ltb, ◌==◌,
  length, ℤ, pos, ltb_ℤ, Run, Returns, Returns_mono, if_holds, Ensures, Ensures-bind,
  Ensures_always, Returns_with,
}

-- With other children beside it, a child measures in every interval: at most `goal` times.
abbrev pub beside : Bound
beside n parallel repetitions i iterations enough =
    (ltb 1 parallel ≡ true) × (i < goal repetitions) × (goal repetitions ≤ i + n)

module _ {D : Type 0} (dbl : Doubles D) where
  adjust-beside : (result : D) (c : Child) → ltb 1 (c.parallel) ≡ true → adjust dbl result c ≡ c
  unfolding adjust
  adjust-beside result c h =
      let other : (c.parallel == 1) ≡ false = ground (arith, h) in
      if_holds (λ (d : Child). d ≡ c) (c.parallel == 1 && dbl.outside result (c.enough))
        (λ q.
          let f : false ≡ true = subst (λ x. (x && dbl.outside result (c.enough)) ≡ true) other q in
          cc)
        (λ _. refl)

  keep_result-beside :
      (result : D) (c : Child) (n : ℕ)
      → c.phase ≡ timing_interval
      → Left beside c (suc n)
      → Ensures (keep_result dbl c) (λ d. AtMost beside n (adjust dbl result d))
  unfolding keep_result
  keep_result-beside result c n e (many, below, all) =
      Ensures-bind (λ r. Unit {0}) (λ d. AtMost beside n (adjust dbl result d))
        (insertsort dbl.double_above (c.measured.0) (c.measured.1) (c.r)) _
        (Ensures_always _ _ (λ r. tt))
        (λ r t. subst (AtMost beside n) (sym (adjust-beside result _ many)) (
          if_holds
            (λ (p : Phase).
              Ahead (λ m. beside m (c.parallel) (c.repetitions) (c.i + 1) (c.iterations) (c.enough))
                p n)
            (ltb_ℤ (pos (c.i + 1)) (c.repetitions))
            (λ q.
              subst
                (λ p.
                  Ahead
                    (λ m. beside m (c.parallel) (c.repetitions) (c.i + 1) (c.iterations) (c.enough))
                    p n)
                (sym e) (many, goal-more (c.i) (c.repetitions) q, omega (arith, all)))
            (λ _. tt)))

  beside-IsBound : IsBound dbl beside IsStarted
  unfolding keep_if_enough
  beside-IsBound = record {
    lives = λ inp g. g.0;
    starts = λ inp g. g.1;
    ends = λ c (many, below, all). omega (arith, below, all);
    nearer = λ inp c n g e a.
        if_holds (λ (r : Run Child). Ensures r (λ d. AtMost beside n (adjust dbl (inp.result) d)))
          (ltb 1 (c.parallel) || dbl.above_95 (inp.result) (c.enough))
          (λ _. keep_result-beside (inp.result) c n e a)
          (λ q.
            let f : true ≡ false =
              subst (λ x. (x || dbl.above_95 (inp.result) (c.enough)) ≡ false) (a.0) q in
            cc);
  }

  -- A child of several, whose parent lives and has told it to start, cools down after at most one
  -- call more than the results that it has to measure, whatever the times are: it returns, in its
  -- last state.
  pub run_child-beside :
      (n enough iterations parallel : ℕ) (repetitions : ℤ) (inps : List (Input D))
      → ltb 1 parallel ≡ true
      → Each IsStarted inps
      → goal repetitions < length inps
      → Returns
          (run_child dbl inps (benchmp_child n enough iterations parallel repetitions))
          FinalCooldown
  unfolding benchmp_child
  run_child-beside n enough iterations parallel repetitions inps many g l =
      let c = benchmp_child n enough iterations parallel repetitions in
      Returns_mono (run_child dbl inps c) (λ o h. h.1)
        (Returns_with (FinalHasRoom dbl repetitions) FinalCooldown (run_child dbl inps c)
          (run_child-HasRoom dbl repetitions inps c
            (benchmp_child-HasRoom dbl repetitions n enough iterations parallel))
          (run_child-AtMost dbl beside IsStarted beside-IsBound inps c (suc (goal repetitions))
            (omega (arith, l)) g (many, (goal-fits repetitions).0, omega arith)))
