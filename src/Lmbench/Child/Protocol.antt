-- ===== src/Lmbench/Child/Protocol.antt =====
-- What a child says to its parent, and in which order.
use numafac.Lmbench.Results.{Results}
use numafac.Lmbench.Child.{
  Doubles, Phase, warmup, timing_interval, cooldown, Child, Message, ready, done, report, Input,
  Reply, benchmp_child, benchmp_interval, run_child, go_on,
}
use numafac.Lmbench.Child.Stages.{
  Stage, fresh, waiting, started, finished, over, stage_of, stage, after,
}
use numafac.Lmbench.Child.Moves.{Move, Moves, start_bytes, result_bytes, benchmp_interval-Move}
use numafac.Lmbench.Child.Room.{benchmp_child-HasRoom}
use numafac.Lmbench.Child.Capacity.{FinalHasRoom, run_child-HasRoom}
use numafac.Prelude.{
  ℕ, ◌≡◌, refl, arith, if◌then◌else◌, sym, subst, inl, inr, Bool, true, false, List, [], ◌∷◌, ◌++◌,
  append-nil, Bool-cases, ℤ, Run, Returns, Returns_mono, Ensures, Ensures-bind, Returns_with,
  Ensures_mono, if_true,
}

-- The protocol: one call of benchmp_interval, by what it finds. Without an order to start, or a
-- request for the results, the child stays where it is; where the parent died it says nothing more.
pub data Step {D : Type 0} (inp : Input D) : Stage → List Message → Stage → Type 0 where
  says_ready : inp.orphaned ≡ false → inp.start_ready ≡ false → Step inp fresh (ready ∷ []) waiting
  says_ready_and_starts :
      inp.orphaned ≡ false → inp.start_ready ≡ true → Step inp fresh (ready ∷ []) started
  waits : inp.orphaned ≡ false → inp.start_ready ≡ false → Step inp waiting [] waiting
  starts : inp.orphaned ≡ false → inp.start_ready ≡ true → Step inp waiting [] started
  measures : inp.orphaned ≡ false → Step inp started [] started
  says_done : inp.orphaned ≡ false → Step inp started (done ∷ []) finished
  cools : inp.orphaned ≡ false → inp.result_ready ≡ false → Step inp finished [] finished
  reports :
      (r : Results)
      → inp.orphaned ≡ false
      → inp.result_ready ≡ true
      → Step inp finished (report r ∷ []) (over r)
  dies : {s : Stage} (r : Results) → inp.orphaned ≡ true → Step inp s [] (over r)

-- A step for each of these calls, in order. Behind an exit the calls are not made.
pub data Steps {D : Type 0} : List (Input D) → Stage → List Message → Stage → Type 0 where
  none_yet : {s : Stage} → Steps [] s [] s
  then_steps :
      {inp : Input D} {inps : List (Input D)} {s t u : Stage} {ms ns : List Message}
      → Step inp s ms t
      → Steps inps t ns u
      → Steps (inp ∷ inps) s (ms ++ ns) u
  exited : {inps : List (Input D)} {r : Results} → Steps inps (over r) [] (over r)

-- A reply is a step of the protocol.
abbrev pub Follows : {D : Type 0} → Input D → Stage → Reply → Type 0
Follows inp s reply = Step inp s (reply.sent) (after (reply.exited) (reply.child))

-- The bytes that a call reads from the two pipes, where the child looks at one.
abbrev Reads : {D : Type 0} → Input D → Stage → ℕ → ℕ → Type 0
Reads inp fresh a b = a ≡ (if inp.start_ready then 1 else 0)
Reads inp waiting a b = a ≡ (if inp.start_ready then 1 else 0)
Reads inp started a b = Unit {0}
Reads inp finished a b = b ≡ (if inp.result_ready then 1 else 0)
Reads inp (over r) a b = Unit {0}

read_none : (b : Bool) → ◌≡◌ {A = ℕ} 0 (if b then 1 else 0) → b ≡ false
read_none b h = ground arith

read_one : (b : Bool) → ◌≡◌ {A = ℕ} 1 (if b then 1 else 0) → b ≡ true
read_one b h = ground arith

Move-Step :
    {D : Type 0} (inp : Input D) {a b : ℕ} {s t : Stage} {ms : List Message}
    → inp.orphaned ≡ false
    → Move a b s ms t
    → Reads inp s a b
    → Step inp s ms t
Move-Step inp l Move.says_ready h = Step.says_ready l (read_none _ h)
Move-Step inp l Move.says_ready_and_starts h = Step.says_ready_and_starts l (read_one _ h)
Move-Step inp l Move.waits h = Step.waits l (read_none _ h)
Move-Step inp l Move.starts h = Step.starts l (read_one _ h)
Move-Step inp l Move.measures h = Step.measures l
Move-Step inp l Move.says_done h = Step.says_done l
Move-Step inp l Move.cools h = Step.cools l (read_none _ h)
Move-Step inp l (Move.reports r) h = Step.reports r l (read_one _ h)

stage-Reads :
    {D : Type 0} (inp : Input D) (p : Phase) (b : Bool)
    → Reads inp (stage_of p b) (start_bytes p inp) (result_bytes p inp)
stage-Reads inp warmup true = refl
stage-Reads inp warmup false = refl
stage-Reads inp timing_interval b = tt
stage-Reads inp cooldown b = refl

module _ {D : Type 0} (dbl : Doubles D) where
  benchmp_interval-Step :
      (inp : Input D) (c : Child) → Ensures (benchmp_interval dbl inp c) (Follows inp (stage c))
  unfolding benchmp_interval
  benchmp_interval-Step inp c = elim (Bool-cases (inp.orphaned)) [
    | inl dead ↦
        subst (λ (r : Run Reply). Ensures r (Follows inp (stage c)))
          (sym (if_true (inp.orphaned) _ _ dead)) (dies _ dead)
    | inr lives ↦
        Ensures_mono (Moves (start_bytes (c.phase) inp) (result_bytes (c.phase) inp) (stage c))
          (Follows inp (stage c)) (benchmp_interval dbl inp c)
          (λ reply m. Move-Step inp lives m (stage-Reads inp (c.phase) (c.need_warmup)))
          (benchmp_interval-Move dbl inp c lives)
  ]

  -- Over a loop: its messages are those of a path of the protocol.
  abbrev pub SpeaksFrom : List (Input D) → Stage → Child × List Message × Bool → Type 0
  SpeaksFrom inps s (c, sent, b) = Steps inps s sent (after b c)

  go_on-Steps :
      (inp : Input D) (inps : List (Input D)) (s : Stage) (b : Bool) (reply : Reply)
      (rest : Run (Child × List Message × Bool))
      → Step inp s (reply.sent) (after b (reply.child))
      → Ensures rest (SpeaksFrom inps (stage (reply.child)))
      → Ensures (go_on b reply rest) (SpeaksFrom (inp ∷ inps) s)
  unfolding go_on
  go_on-Steps inp inps s true reply rest k h =
      subst (λ ms. Steps (inp ∷ inps) s ms (over (reply.child.r))) (append-nil (reply.sent))
        (then_steps k exited)
  go_on-Steps inp inps s false reply rest k h =
      Ensures-bind (SpeaksFrom inps (stage (reply.child))) (SpeaksFrom (inp ∷ inps) s) rest _ h
        (λ (c, sent, b) e. then_steps k e)

  run_child-Steps :
      (inps : List (Input D)) (c : Child)
      → Ensures (run_child dbl inps c) (SpeaksFrom inps (stage c))
  unfolding run_child
  run_child-Steps [] c = none_yet
  run_child-Steps (inp ∷ inps) c =
      Ensures-bind (Follows inp (stage c)) (SpeaksFrom (inp ∷ inps) (stage c))
        (benchmp_interval dbl inp c) _ (benchmp_interval-Step inp c)
        (λ reply k.
          go_on-Steps inp inps (stage c) (reply.exited) reply (run_child dbl inps (reply.child)) k
            (run_child-Steps inps (reply.child)))

  -- From the state that benchmp_child makes, any number of calls of benchmp_interval with any times
  -- and signals return, and each call that is made is a step of the protocol. While its parent
  -- lives, the child says that it is ready in its first call, and starts in the first call that
  -- finds the order to start; it says that it is done in the call that ends its timing; and in the
  -- first call behind that which finds a request, it writes the results that it holds, and exits.
  -- It exits without having written them only in a call that finds its parent dead, and writes
  -- nothing there.
  pub run_child-Protocol :
      (n enough iterations parallel : ℕ) (repetitions : ℤ) (inps : List (Input D))
      → Returns
          (run_child dbl inps (benchmp_child n enough iterations parallel repetitions))
          (SpeaksFrom inps fresh)
  unfolding benchmp_child
  run_child-Protocol n enough iterations parallel repetitions inps =
      let c = benchmp_child n enough iterations parallel repetitions in
      Returns_mono (run_child dbl inps c) (λ o h. h.1)
        (Returns_with (FinalHasRoom dbl repetitions) (SpeaksFrom inps fresh) (run_child dbl inps c)
          (run_child-HasRoom dbl repetitions inps c
            (benchmp_child-HasRoom dbl repetitions n enough iterations parallel))
          (run_child-Steps inps c))
