-- ===== src/Lmbench/Child/Alone.antt =====
-- A child alone whose benchmark is always too short to be measured gives up.
use numafac.Lmbench.Results.{insertsort}
use numafac.Lmbench.Child.{
  Doubles, Phase, warmup, timing_interval, cooldown, Child, Input, benchmp_child, keep_result,
  keep_if_enough, adjust, run_child,
}
use numafac.Lmbench.Child.Room.{benchmp_child-HasRoom}
use numafac.Lmbench.Child.Capacity.{FinalHasRoom, run_child-HasRoom}
use numafac.Lmbench.Child.Moves.{HasStarted, HasStarted_cooldown}
use numafac.Lmbench.Child.Progress.{
  Bound, Left, AtMost, Ahead, IsBound, Each, FinalCooldown, run_child-AtMost, IsStarted,
}
use numafac.Prelude.{
  ℕ, zero, suc, ◌+◌, ◌*◌, ◌%◌, ◌^◌, ◌≤◌, ◌<◌, ◌≡◌, refl, sym, ◌∙◌, subst, ◌⊎◌, inl, inr, Bool, true,
  false, ◌&&◌, ◌||◌, List, arith, ltb, ◌==◌, length, ℤ, pos, ltb_ℤ, Run, Returns, Returns_mono,
  if_holds, Ensures, Ensures-bind, Ensures_always, Returns_with, Ensures_mono,
}

-- The iterations after `n` intervals, each of which multiplies them by 8.
abbrev pub grown : ℕ → ℕ → ℕ
grown zero iterations = iterations
grown (suc n) iterations = grown n (iterations * 8)

module _ {D : Type 0} (dbl : Doubles D) (limit : ℕ) where
  -- A time of at most 150 microseconds, and far from enough.
  abbrev pub IsShort : Input D → Type 0
  IsShort inp =
      IsStarted inp × (dbl.outside (inp.result) limit ≡ true) × (dbl.above_150 (inp.result) ≡ false)

  abbrev alone : Bound
  alone n parallel repetitions i iterations enough =
      (parallel ≡ 1) × (enough ≡ limit) × (iterations ≤ 2 ^ 27) × (2 ^ 27 < grown n iterations)

  -- What keep_if_enough leaves for the second test.
  abbrev Kept : Child → Child → Type 0
  Kept c d =
      HasStarted d
      × (d.parallel ≡ c.parallel)
      × (d.enough ≡ c.enough)
      × (d.iterations ≡ c.iterations)

  keep_if_enough-Kept :
      (result : D) (c : Child) → HasStarted c → Ensures (keep_if_enough dbl result c) (Kept c)
  unfolding keep_if_enough keep_result
  keep_if_enough-Kept result c h =
      if_holds (λ (r : Run Child). Ensures r (Kept c))
        (ltb 1 (c.parallel) || dbl.above_95 result (c.enough))
        (λ _.
          Ensures-bind (λ r. Unit {0}) (Kept c)
            (insertsort dbl.double_above (c.measured.0) (c.measured.1) (c.r)) _
            (Ensures_always _ _ (λ r. tt))
            (λ r t. (
              HasStarted_cooldown (ltb_ℤ (pos (c.i + 1)) (c.repetitions)) (c.phase) h,
              refl,
              refl,
              refl,
            )))
        (λ _. (h, refl, refl, refl))

  Ahead-started :
      (b : ℕ → Type 0) (p : Phase) (n : ℕ)
      → (p ≡ timing_interval) ⊎ (p ≡ cooldown)
      → b n
      → Ahead b p n
  Ahead-started b warmup n (inl h) k = cc
  Ahead-started b warmup n (inr h) k = cc
  Ahead-started b timing_interval n h k = k
  Ahead-started b cooldown n h k = tt

  or_false : (a b : Bool) → (a || b) ≡ false → a ≡ false
  or_false true b h = h
  or_false false b h = refl

  too_short :
      (result : D) (p enough : ℕ)
      → dbl.outside result limit ≡ true
      → p ≡ 1
      → enough ≡ limit
      → (p == 1 && dbl.outside result enough) ≡ true
  too_short result p enough o one e = rw one (rw e (rw o refl))

  -- Eight times the iterations, where they still fit.
  alone-eightfold :
      (n i : ℕ)
      → i ≤ 2 ^ 27
      → 2 ^ 27 < grown (suc n) i
      → ltb (2 ^ 27) (i * 8 % 2 ^ 64) ≡ false
      → (i * 8 % 2 ^ 64 ≤ 2 ^ 27) × (2 ^ 27 < grown n (i * 8 % 2 ^ 64))
  alone-eightfold n i small large q =
      let fits : i * 8 % 2 ^ 64 ≡ i * 8 = omega (arith, small) in
      (ground (arith, q), subst (λ w. 2 ^ 27 < grown n w) (sym fits) large)

  adjust-alone :
      (result : D) (d : Child) (n : ℕ)
      → dbl.outside result limit ≡ true
      → dbl.above_150 result ≡ false
      → HasStarted d
      → Left alone d (suc n)
      → AtMost alone n (adjust dbl result d)
  unfolding adjust
  adjust-alone result d n o a h (one, e, small, large) =
      let w = d.iterations * 8 % 2 ^ 64 in
      let stop = ltb (2 ^ 27) w || (dbl.negative result && ltb (2 ^ 20) w) in
      if_holds (AtMost alone n) (d.parallel == 1 && dbl.outside result (d.enough))
        (λ _.
          if_holds (AtMost alone n) (dbl.above_150 result) (λ q. cc)
            (λ _.
              if_holds (λ (p : Phase). Ahead (Left alone record d { iterations = w }) p n) stop
                (λ _. tt)
                (λ q.
                  let grows =
                    alone-eightfold n (d.iterations) small large
                      (or_false (ltb (2 ^ 27) w) (dbl.negative result && ltb (2 ^ 20) w) q) in
                  Ahead-started _ (d.phase) n h (one, e, grows.0, grows.1))))
        (λ q. let t = too_short result (d.parallel) (d.enough) o one e in cc)

  alone-IsBound : IsBound dbl alone IsShort
  alone-IsBound = record {
    lives = λ inp g. g.0.0;
    starts = λ inp g. g.0.1;
    ends = λ c (one, e, small, large). omega (arith, small, large);
    nearer = λ inp c n g e (one, f, small, large).
        Ensures_mono (Kept c) (λ d. AtMost alone n (adjust dbl (inp.result) d))
          (keep_if_enough dbl (inp.result) c)
          (λ d (h, p, q, i).
            adjust-alone (inp.result) d n (g.1) (g.2) h (p ∙ one, q ∙ f, rw i small, rw i large))
          (keep_if_enough-Kept (inp.result) c (inl e));
  }

  -- A child alone, whose parent lives and has told it to start, and whose benchmark takes at most
  -- 150 microseconds however many iterations it runs, cools down after at most 11 calls: from one
  -- iteration, eightfold growth passes 2 ^ 27 in ten intervals.
  pub run_child-alone :
      (n : ℕ) (repetitions : ℤ) (inps : List (Input D))
      → Each IsShort inps
      → 11 ≤ length inps
      → Returns (run_child dbl inps (benchmp_child n limit 1 1 repetitions)) FinalCooldown
  unfolding benchmp_child
  run_child-alone n repetitions inps g l =
      let c = benchmp_child n limit 1 1 repetitions in
      Returns_mono (run_child dbl inps c) (λ o h. h.1)
        (Returns_with (FinalHasRoom dbl repetitions) FinalCooldown (run_child dbl inps c)
          (run_child-HasRoom dbl repetitions inps c
            (benchmp_child-HasRoom dbl repetitions n limit 1 1))
          (run_child-AtMost dbl alone IsShort alone-IsBound inps c 11 l g
            (refl, refl, omega arith, omega arith)))
