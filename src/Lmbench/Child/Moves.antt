-- ===== src/Lmbench/Child/Moves.antt =====
-- One call of benchmp_interval whose parent lives, from outside: the bytes that it reads from the
-- pipes `start_signal` and `result_signal`, what it writes, and the stages before and after.
use numafac.Lmbench.Results.{Results, insertsort}
use numafac.Lmbench.Child.{
  Doubles, Phase, warmup, timing_interval, cooldown, Child, Message, ready, done, report, Input,
  Reply, timed, warmup_round, keep_result, keep_if_enough, adjust, finish_timing, timing_round,
  cooldown_round, phase_round, benchmp_interval,
}
use numafac.Lmbench.Child.Stages.{
  Stage, fresh, waiting, started, finished, over, stage_of, stage, after,
}
use numafac.Lmbench.Child.Room.{timed-phase}
use numafac.Prelude.{
  ℕ, ◌+◌, ◌≡◌, refl, sym, subst, ◌⊎◌, inl, inr, Bool, true, false, ◌&&◌, ◌||◌, List, [], ◌∷◌, ltb,
  ◌==◌, if◌then◌else◌, pos, ltb_ℤ, Run, if_holds, Ensures, Ensures-bind, Ensures_always,
}

pub data Move : ℕ → ℕ → Stage → List Message → Stage → Type 0 where
  says_ready : Move 0 0 fresh (ready ∷ []) waiting
  says_ready_and_starts : Move 1 0 fresh (ready ∷ []) started
  waits : Move 0 0 waiting [] waiting
  starts : Move 1 0 waiting [] started
  measures : Move 0 0 started [] started
  says_done : Move 0 0 started (done ∷ []) finished
  cools : Move 0 0 finished [] finished
  reports : (r : Results) → Move 0 1 finished (report r ∷ []) (over r)

-- The bytes that a call reads.
abbrev pub start_bytes : {D : Type 0} → Phase → Input D → ℕ
start_bytes warmup inp = if inp.start_ready then 1 else 0
start_bytes timing_interval inp = 0
start_bytes cooldown inp = 0

abbrev pub result_bytes : {D : Type 0} → Phase → Input D → ℕ
result_bytes warmup inp = 0
result_bytes timing_interval inp = 0
result_bytes cooldown inp = if inp.result_ready then 1 else 0

-- A reply is such a move.
abbrev pub Moves : ℕ → ℕ → Stage → Reply → Type 0
Moves a b s reply = Move a b s (reply.sent) (after (reply.exited) (reply.child))

warmup_round-Move :
    {D : Type 0} (inp : Input D) (c : Child)
    → Moves (start_bytes warmup inp) 0 (stage_of warmup (c.need_warmup)) (warmup_round inp c)
unfolding warmup_round
warmup_round-Move inp c = by_flags (c.need_warmup) (inp.start_ready)
  where
    by_flags :
        (b s : Bool)
        → Move
            (if s then 1 else 0)
            0
            (stage_of warmup b)
            (if b then ready ∷ [] else [])
            (stage_of (if s then timing_interval else warmup) false)
    by_flags true true = says_ready_and_starts
    by_flags true false = says_ready
    by_flags false true = starts
    by_flags false false = waits

cooldown_round-Move :
    {D : Type 0} (inp : Input D) (c : Child)
    → c.phase ≡ cooldown
    → Moves 0 (result_bytes cooldown inp) finished (cooldown_round inp c)
unfolding cooldown_round
cooldown_round-Move inp c e = by_flag (inp.result_ready)
  where
    by_flag :
        (b : Bool)
        → Move 0 (if b then 1 else 0) finished (if b then report (c.r) ∷ [] else []) (after b c)
    by_flag true = reports (c.r)
    by_flag false = subst (λ p. Move 0 0 finished [] (stage_of p (c.need_warmup))) (sym e) cools

finish_timing-Move :
    (p : Phase) (c : Child)
    → c.phase ≡ p
    → (p ≡ timing_interval) ⊎ (p ≡ cooldown)
    → Moves 0 0 started (finish_timing p c)
unfolding finish_timing
finish_timing-Move warmup c e (inl h) = cc
finish_timing-Move warmup c e (inr h) = cc
finish_timing-Move timing_interval c e h = rw e measures
finish_timing-Move cooldown c e h = rw e says_done

-- The states of a child that has started.
abbrev pub HasStarted : Child → Type 0
HasStarted c = (c.phase ≡ timing_interval) ⊎ (c.phase ≡ cooldown)

pub HasStarted_cooldown :
    (b : Bool) (p : Phase)
    → (p ≡ timing_interval) ⊎ (p ≡ cooldown)
    → ((if b then p else cooldown) ≡ timing_interval) ⊎ ((if b then p else cooldown) ≡ cooldown)
HasStarted_cooldown true p h = h
HasStarted_cooldown false p h = inr refl

module _ {D : Type 0} (dbl : Doubles D) where
  keep_result-HasStarted : (c : Child) → HasStarted c → Ensures (keep_result dbl c) HasStarted
  unfolding keep_result
  keep_result-HasStarted c h =
      Ensures-bind (λ r. Unit {0}) HasStarted
        (insertsort dbl.double_above (c.measured.0) (c.measured.1) (c.r)) _
        (Ensures_always _ _ (λ r. tt))
        (λ r t. HasStarted_cooldown (ltb_ℤ (pos (c.i + 1)) (c.repetitions)) (c.phase) h)

  keep_if_enough-HasStarted :
      (result : D) (c : Child) → HasStarted c → Ensures (keep_if_enough dbl result c) HasStarted
  unfolding keep_if_enough
  keep_if_enough-HasStarted result c h =
      if_holds (λ (r : Run Child). Ensures r HasStarted)
        (ltb 1 (c.parallel) || dbl.above_95 result (c.enough)) (λ _. keep_result-HasStarted c h)
        (λ _. h)

  adjust-HasStarted : (result : D) (c : Child) → HasStarted c → HasStarted (adjust dbl result c)
  unfolding adjust
  adjust-HasStarted result c h =
      if_holds HasStarted (c.parallel == 1 && dbl.outside result (c.enough))
        (λ _.
          if_holds HasStarted (dbl.above_150 result) (λ _. h)
            (λ _.
              if_holds (λ (p : Phase). (p ≡ timing_interval) ⊎ (p ≡ cooldown)) _ (λ _. inr refl)
                (λ _. h)))
        (λ _. h)

  timing_round-Move :
      (inp : Input D) (c : Child)
      → HasStarted c
      → Ensures (timing_round dbl inp c) (Moves 0 0 started)
  unfolding timing_round
  timing_round-Move inp c h =
      Ensures-bind HasStarted (Moves 0 0 started) (keep_if_enough dbl (inp.result) c) _
        (keep_if_enough-HasStarted (inp.result) c h)
        (λ d k.
          finish_timing-Move ((adjust dbl (inp.result) d).phase) (adjust dbl (inp.result) d) refl
            (adjust-HasStarted (inp.result) d k))

  phase_round-Move :
      (p : Phase) (inp : Input D) (c : Child)
      → c.phase ≡ p
      → Ensures
          (phase_round dbl p inp c)
          (Moves (start_bytes p inp) (result_bytes p inp) (stage_of p (c.need_warmup)))
  unfolding phase_round
  phase_round-Move warmup inp c e = warmup_round-Move inp c
  phase_round-Move timing_interval inp c e = timing_round-Move inp c (inl e)
  phase_round-Move cooldown inp c e = cooldown_round-Move inp c e

  timed-need_warmup : (result : D) (c : Child) → (timed dbl result c).need_warmup ≡ c.need_warmup
  unfolding timed
  timed-need_warmup result c =
      if_holds (λ (d : Child). d.need_warmup ≡ c.need_warmup) (c.need_warmup) (λ _. refl)
        (λ _. refl)

  pub benchmp_interval-Move :
      (inp : Input D) (c : Child)
      → inp.orphaned ≡ false
      → Ensures
          (benchmp_interval dbl inp c)
          (Moves (start_bytes (c.phase) inp) (result_bytes (c.phase) inp) (stage c))
  unfolding benchmp_interval
  benchmp_interval-Move inp c lives =
      let Q = Moves (start_bytes (c.phase) inp) (result_bytes (c.phase) inp) in
      if_holds (λ (r : Run Reply). Ensures r (Q (stage c))) (inp.orphaned) (λ dead. cc)
        (λ _.
          subst
            (λ b.
              Ensures (phase_round dbl (c.phase) inp (timed dbl (inp.result) c))
                (Q (stage_of (c.phase) b)))
            (timed-need_warmup (inp.result) c)
            (phase_round-Move (c.phase) inp (timed dbl (inp.result) c)
              (timed-phase dbl (inp.result) c)))
