-- ===== src/Lmbench/Child.antt =====
-- lmbench3/src/lib_timing.c: benchmp_interval, which a child of benchmp calls between two runs of
-- its benchmark. It moves the child through its three states, and reports to the parent.
pub mod Room
pub mod Capacity
pub mod Stages
pub mod Moves
pub mod Protocol
pub mod Progress
pub mod Beside
pub mod Alone
use numafac.Lmbench.Results.{Measure, Results, insertsort, insertinit, sizeof_result}
use numafac.Prelude.{
  ℕ, ◌+◌, ◌*◌, ◌%◌, ◌^◌, Bool, true, false, ◌&&◌, ◌||◌, List, [], ◌∷◌, ◌++◌, ltb, ◌==◌,
  if◌then◌else◌, ℤ, pos, ltb_ℤ, Run, ok, ◌>>=◌, malloc,
}

-- What the code asks of a measured time in double arithmetic.
pub record Doubles (D : Type 0) : Type 0 where
  -- result >= 0. ? (uint64)result : 0.
  pub to_time : D → ℕ
  -- result > 0.95 * enough
  pub above_95 : D → ℕ → Bool
  -- result < 0.99 * enough || result > 1.2 * enough
  pub outside : D → ℕ → Bool
  -- result > 150.
  pub above_150 : D → Bool
  -- result < 0.
  pub negative : D → Bool
  -- (iter_t)(iterations / result * (1.1 * enough) + 1)
  pub rescaled : ℕ → D → ℕ → ℕ
  pub double_above : Measure → Measure → Bool

-- benchmp_state.
pub data Phase : Type 0 where
  warmup timing_interval cooldown : Phase

-- benchmp_child_state, with the time and the iterations that settime and save_n keep.
pub record Child : Type 0 where
  pub phase : Phase
  pub enough : ℕ
  pub iterations : ℕ
  pub iterations_batch : ℕ
  pub parallel : ℕ
  pub repetitions : ℤ
  pub need_warmup : Bool
  pub i : ℕ
  pub r : Results
  pub measured : Measure

-- What a child writes to the pipe `response`: a byte when it is ready, a byte when it is done, and
-- its results.
pub data Message : Type 0 where
  ready done : Message
  report : Results → Message

-- What a call finds: the time since the last one less the overheads, whether the parent died, and
-- whether there is a byte in the pipes `start_signal` and `result_signal`.
pub record Input (D : Type 0) : Type 0 where
  pub result : D
  pub orphaned : Bool
  pub start_ready : Bool
  pub result_ready : Bool

-- The child afterwards, what it wrote, the iterations to run next, and whether it called exit.
pub record Reply : Type 0 where
  pub child : Child
  pub sent : List Message
  pub next : ℕ
  pub exited : Bool

-- benchmp_child, up to its loop: the child that it makes.
unfoldable pub benchmp_child : ℕ → ℕ → ℕ → ℕ → ℤ → Child
unfolding sizeof_result insertinit
benchmp_child get_n enough iterations parallel repetitions = record {
  phase = warmup;
  enough = enough;
  iterations = iterations;
  iterations_batch = if ltb 1 parallel then get_n else 1;
  parallel = parallel;
  repetitions = repetitions;
  need_warmup = true;
  i = 0;
  r = insertinit record { count = 0; cells = malloc (sizeof_result repetitions) };
  measured = (0, 1);
}

-- case warmup
unfoldable pub warmup_round : {D : Type 0} → Input D → Child → Reply
warmup_round inp c = record {
  child = record c {
    phase = if inp.start_ready then timing_interval else warmup;
    need_warmup = false;
  };
  sent = if c.need_warmup then ready ∷ [] else [];
  next = if inp.start_ready then c.iterations else c.iterations_batch;
  exited = false;
}

-- The last `if`, by the state.
unfoldable pub finish_timing : Phase → Child → Reply
finish_timing cooldown c = record {
  child = c;
  sent = done ∷ [];
  next = c.iterations_batch;
  exited = false;
}
finish_timing warmup c = record { child = c; sent = []; next = c.iterations; exited = false }
finish_timing timing_interval c = record {
  child = c;
  sent = [];
  next = c.iterations;
  exited = false;
}

-- case cooldown
unfoldable pub cooldown_round : {D : Type 0} → Input D → Child → Reply
cooldown_round inp c = record {
  child = c;
  sent = if inp.result_ready then report (c.r) ∷ [] else [];
  next = c.iterations_batch;
  exited = inp.result_ready;
}

-- After a call: nothing follows an exit.
unfoldable pub go_on :
    Bool → Reply → Run (Child × List Message × Bool) → Run (Child × List Message × Bool)
go_on true reply rest = ok (reply.child, reply.sent, true)
go_on false reply rest = do (c, sent, exited) ← rest; ok (c, reply.sent ++ sent, exited)

module _ {D : Type 0} (dbl : Doubles D) where
  -- if (!state->need_warmup) { ...; save_n(state->iterations); ...; settime(...); }
  unfoldable pub timed : D → Child → Child
  timed result c =
      if c.need_warmup then c else record c { measured = (dbl.to_time result, c.iterations) }

  -- insertsort(gettime(), get_n(), get_results()); state->i++; and the test of state->i.
  unfoldable pub keep_result : Child → Run Child
  keep_result c = do
    r ← insertsort dbl.double_above (c.measured.0) (c.measured.1) (c.r)
    ok record c {
      r = r;
      i = c.i + 1;
      phase = if ltb_ℤ (pos (c.i + 1)) (c.repetitions) then c.phase else cooldown;
    }

  -- The first `if` of case timing_interval.
  unfoldable pub keep_if_enough : D → Child → Run Child
  keep_if_enough result c =
      if ltb 1 (c.parallel) || dbl.above_95 result (c.enough) then keep_result c else ok c

  -- The second `if`: the iterations of the next interval, and the state.
  unfoldable pub adjust : D → Child → Child
  adjust result c =
      if c.parallel == 1 && dbl.outside result (c.enough)
      then (if dbl.above_150 result
          then record c { iterations = dbl.rescaled (c.iterations) result (c.enough) }
          else record c {
            iterations = c.iterations * 8 % 2 ^ 64;
            phase =
                if ltb (2 ^ 27) (c.iterations * 8 % 2 ^ 64)
                  || (dbl.negative result && ltb (2 ^ 20) (c.iterations * 8 % 2 ^ 64))
                then cooldown
                else c.phase;
          })
      else c

  -- case timing_interval
  unfoldable pub timing_round : Input D → Child → Run Reply
  timing_round inp c = do
    c ← keep_if_enough (inp.result) c
    let c = adjust (inp.result) c
    ok (finish_timing (c.phase) c)

  -- The switch.
  unfoldable pub phase_round : Phase → Input D → Child → Run Reply
  phase_round warmup inp c = ok (warmup_round inp c)
  phase_round timing_interval inp c = timing_round inp c
  phase_round cooldown inp c = ok (cooldown_round inp c)

  -- benchmp_interval, for a benchmark with a cleanup function.
  unfoldable pub benchmp_interval : Input D → Child → Run Reply
  benchmp_interval inp c =
      if inp.orphaned
      then ok record { child = timed (inp.result) c; sent = []; next = 0; exited = true }
      else phase_round (c.phase) inp (timed (inp.result) c)

  -- The loop of benchmp_child, over the calls that are made: the child, all that it wrote, and
  -- whether it called exit.
  unfoldable pub run_child : List (Input D) → Child → Run (Child × List Message × Bool)
  run_child [] c = ok (c, [], false)
  run_child (inp ∷ inps) c = do
    reply ← benchmp_interval inp c
    go_on (reply.exited) reply (run_child inps (reply.child))
