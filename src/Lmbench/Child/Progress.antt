-- ===== src/Lmbench/Child/Progress.antt =====
-- A child ends its timing after a bounded number of calls of benchmp_interval.
use numafac.Lmbench.Child.{
  Doubles, Phase, warmup, timing_interval, cooldown, Child, Message, Input, Reply, timed,
  warmup_round, keep_if_enough, adjust, finish_timing, timing_round, cooldown_round, phase_round,
  benchmp_interval, run_child, go_on,
}
use numafac.Lmbench.Child.Room.{timed-phase}
use numafac.Prelude.{
  ℕ, zero, suc, ◌≤◌, ◌≡◌, refl, sym, subst, Bool, true, false, List, [], ◌∷◌, arith, if◌then◌else◌,
  length, ℤ, Run, if_holds, Ensures, Ensures-bind,
}

-- What the bounds are read from: parallel, repetitions, i, iterations and enough.
abbrev pub Bound : Type 1
Bound = ℕ → ℕ → ℤ → ℕ → ℕ → ℕ → Type 0

abbrev pub Left : Bound → Child → ℕ → Type 0
Left b c n = b n (c.parallel) (c.repetitions) (c.i) (c.iterations) (c.enough)

-- At most `n` calls come before the child cools down.
abbrev pub Ahead : (ℕ → Type 0) → Phase → ℕ → Type 0
Ahead b warmup zero = ⊥
Ahead b warmup (suc n) = b n
Ahead b timing_interval n = b n
Ahead b cooldown n = Unit {0}

abbrev pub AtMost : Bound → ℕ → Child → Type 0
AtMost b n c = Ahead (Left b c) (c.phase) n

-- Over a reply: the calls that are Left, and no exit before the child cools down.
abbrev pub LeavesAtMost : Bound → ℕ → Reply → Type 0
LeavesAtMost b n reply =
    AtMost b n (reply.child) × (reply.exited ≡ true → reply.child.phase ≡ cooldown)

-- Over a loop: the child has ended its timing.
abbrev pub FinalCooldown : Child × List Message × Bool → Type 0
FinalCooldown (c, sent, exited) = c.phase ≡ cooldown

abbrev pub Each {ℓ} : {A : Type ℓ} → (A → Type 0) → List A → Type 0
Each P [] = Unit
Each P (x ∷ xs) = P x × Each P xs

finish_timing-child : (p : Phase) (c : Child) → (finish_timing p c).child ≡ c
unfolding finish_timing
finish_timing-child warmup c = refl
finish_timing-child timing_interval c = refl
finish_timing-child cooldown c = refl

finish_timing-exited : (p : Phase) (c : Child) → (finish_timing p c).exited ≡ false
unfolding finish_timing
finish_timing-exited warmup c = refl
finish_timing-exited timing_interval c = refl
finish_timing-exited cooldown c = refl

module _ {D : Type 0} (dbl : Doubles D) (b : Bound) (good : Input D → Type 0) where
  -- What a bound is proved by: the parent lives and the child has been told to start; no call is
  -- made in vain; and a timing interval brings the end nearer.
  pub record IsBound : Type 0 where
    pub lives : (inp : Input D) → good inp → inp.orphaned ≡ false
    pub starts : (inp : Input D) → good inp → inp.start_ready ≡ true
    pub ends : (c : Child) → Left b c 0 → ⊥
    pub nearer :
        (inp : Input D) (c : Child) (n : ℕ)
        → good inp
        → c.phase ≡ timing_interval
        → Left b c (suc n)
        → Ensures (keep_if_enough dbl (inp.result) c) (λ d. AtMost b n (adjust dbl (inp.result) d))

  module _ (h : IsBound) where
    AtMost_zero : (p : Phase) (c : Child) → Ahead (Left b c) p 0 → p ≡ cooldown
    AtMost_zero warmup c a = elim a [ ]
    AtMost_zero timing_interval c a = elim (h.ends c a) [ ]
    AtMost_zero cooldown c a = refl

    phase_round-AtMost :
        (p : Phase) (inp : Input D) (c : Child) (n : ℕ)
        → good inp
        → c.phase ≡ p
        → Ahead (Left b c) p (suc n)
        → Ensures (phase_round dbl p inp c) (LeavesAtMost b n)
    unfolding phase_round warmup_round timing_round cooldown_round
    phase_round-AtMost warmup inp c n g e a = (
      subst (λ s. Ahead (Left b c) (if s then timing_interval else warmup) n) (sym (h.starts inp g))
          a,
      λ q. cc,
    )
    phase_round-AtMost timing_interval inp c n g e a =
        Ensures-bind (λ d. AtMost b n (adjust dbl (inp.result) d)) (LeavesAtMost b n)
          (keep_if_enough dbl (inp.result) c) _ (h.nearer inp c n g e a)
          (λ d k.
            let e = adjust dbl (inp.result) d in
            (
              subst (AtMost b n) (sym (finish_timing-child (e.phase) e)) k,
              λ q. let x = finish_timing-exited (e.phase) e in cc,
            ))
    phase_round-AtMost cooldown inp c n g e a =
        (subst (λ p. Ahead (Left b c) p n) (sym e) tt, λ q. e)

    timed-Left : (result : D) (c : Child) → Left b (timed dbl result c) ≡ Left b c
    unfolding timed
    timed-Left result c =
        if_holds (λ (d : Child). Left b d ≡ Left b c) (c.need_warmup) (λ _. refl) (λ _. refl)

    benchmp_interval-AtMost :
        (inp : Input D) (c : Child) (n : ℕ)
        → good inp
        → AtMost b (suc n) c
        → Ensures (benchmp_interval dbl inp c) (LeavesAtMost b n)
    unfolding benchmp_interval
    benchmp_interval-AtMost inp c n g a =
        if_holds (λ (r : Run Reply). Ensures r (LeavesAtMost b n)) (inp.orphaned)
          (λ q. let l = h.lives inp g in cc)
          (λ _.
            phase_round-AtMost (c.phase) inp (timed dbl (inp.result) c) n g
              (timed-phase dbl (inp.result) c)
              (subst (λ f. Ahead f (c.phase) (suc n)) (sym (timed-Left (inp.result) c)) a))

    go_on-FinalCooldown :
        (x : Bool) (reply : Reply) (rest : Run (Child × List Message × Bool))
        → (x ≡ true → reply.child.phase ≡ cooldown)
        → Ensures rest FinalCooldown
        → Ensures (go_on x reply rest) FinalCooldown
    unfolding go_on
    go_on-FinalCooldown true reply rest k e = k refl
    go_on-FinalCooldown false reply rest k e =
        Ensures-bind FinalCooldown FinalCooldown rest _ e (λ (c, sent, exited) f. f)

    pub run_child-AtMost :
        (inps : List (Input D)) (c : Child) (n : ℕ)
        → n ≤ length inps
        → Each good inps
        → AtMost b n c
        → Ensures (run_child dbl inps c) FinalCooldown
    unfolding run_child
    run_child-AtMost [] c zero l g a = AtMost_zero (c.phase) c a
    run_child-AtMost [] c (suc n) l g a = let f : ⊥ = omega (arith, l) in elim f [ ]
    run_child-AtMost (inp ∷ inps) c zero l g a =
        Ensures-bind (LeavesAtMost b 0) FinalCooldown (benchmp_interval dbl inp c) _
          (benchmp_interval-AtMost inp c 0 (g.0)
            (subst (λ p. Ahead (Left b c) p 1) (sym (AtMost_zero (c.phase) c a)) tt))
          (λ reply (k, e).
            go_on-FinalCooldown (reply.exited) reply (run_child dbl inps (reply.child)) e
              (run_child-AtMost inps (reply.child) 0 (omega arith) (g.1) k))
    run_child-AtMost (inp ∷ inps) c (suc n) l g a =
        Ensures-bind (LeavesAtMost b n) FinalCooldown (benchmp_interval dbl inp c) _
          (benchmp_interval-AtMost inp c n (g.0) a)
          (λ reply (k, e).
            go_on-FinalCooldown (reply.exited) reply (run_child dbl inps (reply.child)) e
              (run_child-AtMost inps (reply.child) n (omega (arith, l)) (g.1) k))

-- The parent lives, and the byte that starts the child is there.
abbrev pub IsStarted : {D : Type 0} → Input D → Type 0
IsStarted inp = (inp.orphaned ≡ false) × (inp.start_ready ≡ true)
