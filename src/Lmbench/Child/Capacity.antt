-- ===== src/Lmbench/Child/Capacity.antt =====
-- A child never writes more results than it has cells for.
use numafac.Lmbench.Child.{
  Doubles, Phase, warmup, timing_interval, cooldown, Child, Message, Input, Reply, benchmp_child,
  timed, warmup_round, keep_if_enough, adjust, finish_timing, timing_round, cooldown_round,
  phase_round, benchmp_interval, run_child, go_on,
}
use numafac.Lmbench.Child.Room.{
  RoomFor, HasRoom, benchmp_child-HasRoom, keep_if_enough-HasRoom, adjust-HasRoom, timed-phase,
}
use numafac.Prelude.{
  ℕ, ◌≡◌, Bool, true, false, List, [], ◌∷◌, if◌then◌else◌, ℤ, Run, Returns, Returns-bind, if_holds,
}

module _ {D : Type 0} (dbl : Doubles D) (repetitions : ℤ) where
  -- Over a reply: its child has room.
  abbrev pub ReplyHasRoom : Reply → Type 0
  ReplyHasRoom reply = HasRoom dbl repetitions (reply.child)

  finish_timing-HasRoom :
      (p : Phase) (c : Child) → HasRoom dbl repetitions c → ReplyHasRoom (finish_timing p c)
  unfolding finish_timing
  finish_timing-HasRoom warmup c h = h
  finish_timing-HasRoom timing_interval c h = h
  finish_timing-HasRoom cooldown c h = h

  timing_round-HasRoom :
      (inp : Input D) (c : Child)
      → HasRoom dbl repetitions c
      → c.phase ≡ timing_interval
      → Returns (timing_round dbl inp c) ReplyHasRoom
  unfolding timing_round
  timing_round-HasRoom inp c h e =
      Returns-bind (HasRoom dbl repetitions) ReplyHasRoom (keep_if_enough dbl (inp.result) c) _
        (keep_if_enough-HasRoom dbl repetitions (inp.result) c h e)
        (λ d k.
          finish_timing-HasRoom ((adjust dbl (inp.result) d).phase) (adjust dbl (inp.result) d)
            (adjust-HasRoom dbl repetitions (inp.result) d k))

  warmup_round-HasRoom :
      (inp : Input D) (c : Child)
      → HasRoom dbl repetitions c
      → c.phase ≡ warmup
      → ReplyHasRoom (warmup_round inp c)
  unfolding warmup_round
  warmup_round-HasRoom inp c h e = record {
    list = h.list;
    room = h.room;
    held = h.held;
    few = h.few;
    asked = h.asked;
    fits = started (inp.start_ready) (rw e at (h.fits));
  }
    where
      started :
          (b : Bool)
          → RoomFor warmup (c.repetitions) (c.i) (h.room)
          → RoomFor (if b then timing_interval else warmup) (c.repetitions) (c.i) (h.room)
      started true f = f
      started false f = f

  timed-HasRoom :
      (result : D) (c : Child)
      → HasRoom dbl repetitions c
      → HasRoom dbl repetitions (timed dbl result c)
  unfolding timed
  timed-HasRoom result c h =
      if_holds (HasRoom dbl repetitions) (c.need_warmup) (λ _. h)
        (λ _. record {
          list = h.list;
          room = h.room;
          held = h.held;
          few = h.few;
          asked = h.asked;
          fits = h.fits;
        })

  phase_round-HasRoom :
      (p : Phase) (inp : Input D) (c : Child)
      → HasRoom dbl repetitions c
      → c.phase ≡ p
      → Returns (phase_round dbl p inp c) ReplyHasRoom
  unfolding phase_round cooldown_round
  phase_round-HasRoom warmup inp c h e = warmup_round-HasRoom inp c h e
  phase_round-HasRoom timing_interval inp c h e = timing_round-HasRoom inp c h e
  phase_round-HasRoom cooldown inp c h e = h

  benchmp_interval-HasRoom :
      (inp : Input D) (c : Child)
      → HasRoom dbl repetitions c
      → Returns (benchmp_interval dbl inp c) ReplyHasRoom
  unfolding benchmp_interval
  benchmp_interval-HasRoom inp c h =
      if_holds (λ (r : Run Reply). Returns r ReplyHasRoom) (inp.orphaned)
        (λ _. timed-HasRoom (inp.result) c h)
        (λ _.
          phase_round-HasRoom (c.phase) inp (timed dbl (inp.result) c)
            (timed-HasRoom (inp.result) c h) (timed-phase dbl (inp.result) c))

  -- Over what a loop leaves.
  abbrev pub FinalHasRoom : Child × List Message × Bool → Type 0
  FinalHasRoom o = HasRoom dbl repetitions (o.0)

  go_on-HasRoom :
      (b : Bool) (reply : Reply) (rest : Run (Child × List Message × Bool))
      → ReplyHasRoom reply
      → Returns rest FinalHasRoom
      → Returns (go_on b reply rest) FinalHasRoom
  unfolding go_on
  go_on-HasRoom true reply rest k h = k
  go_on-HasRoom false reply rest k h = Returns-bind FinalHasRoom FinalHasRoom rest _ h (λ o e. e)

  -- Calls of benchmp_interval in any number and with any inputs return, and the child always has a
  -- cell for each of the results that it has yet to measure.
  pub run_child-HasRoom :
      (inps : List (Input D)) (c : Child)
      → HasRoom dbl repetitions c
      → Returns (run_child dbl inps c) FinalHasRoom
  unfolding run_child
  run_child-HasRoom [] c h = h
  run_child-HasRoom (inp ∷ inps) c h =
      Returns-bind ReplyHasRoom FinalHasRoom (benchmp_interval dbl inp c) _
        (benchmp_interval-HasRoom inp c h)
        (λ reply k.
          go_on-HasRoom (reply.exited) reply (run_child dbl inps (reply.child)) k
            (run_child-HasRoom inps (reply.child) k))

  -- From the state that benchmp_child makes, any number of calls of benchmp_interval with any times
  -- and signals return, with no store beyond the results that benchmp_child allocated. The child
  -- has kept at most as many measures as it was asked for (one, if it was asked for none), and
  -- while it is not done there is a cell for each that it has yet to measure.
  pub run_child-benchmp_child :
      (n enough iterations parallel : ℕ) (inps : List (Input D))
      → Returns
          (run_child dbl inps (benchmp_child n enough iterations parallel repetitions))
          FinalHasRoom
  run_child-benchmp_child n enough iterations parallel inps =
      run_child-HasRoom inps (benchmp_child n enough iterations parallel repetitions)
        (benchmp_child-HasRoom dbl repetitions n enough iterations parallel)
