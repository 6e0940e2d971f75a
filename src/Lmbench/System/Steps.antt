-- ===== src/Lmbench/System/Steps.antt =====
-- Every step keeps the accounts, and so they hold in every state that is reached.
use numafac.Lmbench.Child.{benchmp_interval, benchmp_child, Doubles, Child, Message, Input, Reply}
use numafac.Lmbench.Child.Stages.{Stage, fresh, stage, after}
use numafac.Lmbench.Child.Moves.{Moves, start_bytes, result_bytes, benchmp_interval-Move}
use numafac.Lmbench.System.{
  Parent, gather_ready, gather_done, asking, reading, Process, running, stage_in, process_after,
  System, written, Step, read_ready, send_start, read_done, all_done, ask, read_report, merge,
  release, call, forked, Reach, here, later, Reached,
}
use numafac.Lmbench.System.Counting.{
  is_fresh, is_waiting, is_started, is_finished, is_over, of_ready, of_done, of_report, tally,
  tally-append, tally-middle, tally-replicate, length-tally, Counts, in_stage, counts,
}
use numafac.Lmbench.System.Invariant.{Accounts, with_child, moved, Move-Keeps}
use numafac.Prelude.{
  ℕ, suc, ◌+◌, ◌-◌, ◌*◌, ◌≤◌, ◌<◌, ◌≡◌, refl, sym, ap, ◌∙◌, subst, Bool, true, false, List, ◌∷◌,
  ◌++◌, arith, length, replicate, ℤ, ok, Ensures,
}

-- The bytes that are read, and those that stay.
record Cut (ms bytes rest : List Message) (j : ℕ) : Type 0 where
  ready : tally of_ready ms ≡ tally of_ready bytes + tally of_ready rest
  done : tally of_done ms ≡ tally of_done bytes + tally of_done rest
  report : tally of_report ms ≡ tally of_report bytes + tally of_report rest
  all : tally of_ready bytes + tally of_done bytes + tally of_report bytes ≡ suc j

cut :
    (ms bytes rest : List Message) (j : ℕ)
    → ms ≡ bytes ++ rest
    → length bytes ≡ suc j
    → Cut ms bytes rest j
cut ms bytes rest j e l = record {
  ready = ap (tally of_ready) e ∙ tally-append of_ready bytes rest;
  done = ap (tally of_done) e ∙ tally-append of_done bytes rest;
  report = ap (tally of_report) e ∙ tally-append of_report bytes rest;
  all = sym (length-tally bytes) ∙ l;
}

-- The counts without one child.
abbrev others : List Process → List Process → System → Counts
others xs ys s = record (counts s) {
  fresh = in_stage is_fresh xs + in_stage is_fresh ys;
  waiting = in_stage is_waiting xs + in_stage is_waiting ys;
  started = in_stage is_started xs + in_stage is_started ys;
  finished = in_stage is_finished xs + in_stage is_finished ys;
  over = in_stage is_over xs + in_stage is_over ys;
}

module _ (w : Stage → ℕ) where
  pub in_stage-middle :
      (ps xs : List Process) (p : Process) (ys : List Process)
      → ps ≡ xs ++ p ∷ ys
      → in_stage w ps ≡ in_stage w xs + in_stage w ys + w (stage_in p)
  in_stage-middle ps xs p ys e = ap (in_stage w) e ∙ tally-middle (λ q. w (stage_in q)) xs p ys

pub stage_in-after : (b : Bool) (c : Child) → stage_in (process_after b c) ≡ after b c
stage_in-after true c = refl
stage_in-after false c = refl

counts-middle :
    (s : System) (xs : List Process) (p : Process) (ys : List Process)
    → s.processes ≡ xs ++ p ∷ ys
    → counts s ≡ with_child (others xs ys s) (stage_in p)
counts-middle s xs p ys e = cc (
  in_stage-middle is_fresh (s.processes) xs p ys e,
  in_stage-middle is_waiting (s.processes) xs p ys e,
  in_stage-middle is_started (s.processes) xs p ys e,
  in_stage-middle is_finished (s.processes) xs p ys e,
  in_stage-middle is_over (s.processes) xs p ys e,
)

module _ (w : Stage → ℕ) where
  in_stage-replaced :
      (xs ys : List Process) (b : Bool) (c : Child)
      → in_stage w (xs ++ process_after b c ∷ ys) ≡ in_stage w xs + in_stage w ys + w (after b c)
  in_stage-replaced xs ys b c =
      in_stage-middle w _ xs (process_after b c) ys refl
      ∙ ap (λ s. in_stage w xs + in_stage w ys + w s) (stage_in-after b c)

  in_stage-replicate :
      (n : ℕ) (c : Child) → stage c ≡ fresh → in_stage w (replicate n (running c)) ≡ n * w fresh
  in_stage-replicate n c e =
      tally-replicate (λ p. w (stage_in p)) n (running c) ∙ ap (λ s. n * w s) e

-- The counts behind a call of a child.
counts-after :
    (n size : ℕ) (s : System) (xs ys : List Process) (c : Child) (reply : Reply) (a b : ℕ)
    → counts record s {
      processes = xs ++ process_after (reply.exited) (reply.child) ∷ ys;
      response = s.response ++ written size (reply.sent);
      start_signal = s.start_signal - a;
      result_signal = s.result_signal - b;
    }
      ≡ moved n size (others xs ys s) a b (after (reply.exited) (reply.child)) (reply.sent)
counts-after n size s xs ys c reply a b =
    let b = reply.exited in
    let d = reply.child in
    cc (
      in_stage-replaced is_fresh xs ys b d,
      in_stage-replaced is_waiting xs ys b d,
      in_stage-replaced is_started xs ys b d,
      in_stage-replaced is_finished xs ys b d,
      in_stage-replaced is_over xs ys b d,
      tally-append of_ready (s.response) (written size (reply.sent)),
      tally-append of_done (s.response) (written size (reply.sent)),
      tally-append of_report (s.response) (written size (reply.sent)),
    )

-- What a call that returned did.
pub reply-Moves :
    {D : Type 0} (dbl : Doubles D) (c : Child) (inp : Input D) (reply : Reply)
    → inp.orphaned ≡ false
    → benchmp_interval dbl inp c ≡ ok reply
    → Moves (start_bytes (c.phase) inp) (result_bytes (c.phase) inp) (stage c) reply
reply-Moves dbl c inp reply o f =
    subst
      (λ r. Ensures r (Moves (start_bytes (c.phase) inp) (result_bytes (c.phase) inp) (stage c))) f
      (benchmp_interval-Move dbl inp c o)

module _ {D : Type 0} (dbl : Doubles D) (n size : ℕ) (room : 0 < size) where
  -- What is read was in the pipe.
  abbrev IsSound : System → Type 0
  IsSound s = Accounts n size (s.parent) (counts s)

  pub at_parent :
      (s : System) (par : Parent) → s.parent ≡ par → IsSound s → Accounts n size par (counts s)
  at_parent s par e h = subst (λ q. Accounts n size q (counts s)) e h

  call-IsSound :
      (s : System) (xs ys : List Process) (c : Child) (inp : Input D) (reply : Reply)
      → s.processes ≡ xs ++ running c ∷ ys
      → start_bytes (c.phase) inp ≤ s.start_signal
      → result_bytes (c.phase) inp ≤ s.result_signal
      → Moves (start_bytes (c.phase) inp) (result_bytes (c.phase) inp) (stage c) reply
      → IsSound s
      → IsSound (record s {
        processes = xs ++ process_after (reply.exited) (reply.child) ∷ ys;
        response = s.response ++ written size (reply.sent);
        start_signal = s.start_signal - start_bytes (c.phase) inp;
        result_signal = s.result_signal - result_bytes (c.phase) inp;
      })
  call-IsSound s xs ys c inp reply e p q mv h =
      let a = start_bytes (c.phase) inp in
      let b = result_bytes (c.phase) inp in
      subst (Accounts n size (s.parent)) (sym (counts-after n size s xs ys c reply a b)) (
        Move-Keeps n size mv (s.parent) (others xs ys s) p q
          (subst (Accounts n size (s.parent)) (counts-middle s xs (running c) ys e) h))

  Step-IsSound : {s t : System} → Step dbl n size s t → IsSound s → IsSound t
  Step-IsSound {s} (read_ready left j bytes rest e r l k) h =
      let a = at_parent s (gather_ready left) e h in
      let b = cut (s.response) bytes rest j r l in omega (arith, a, b)
  Step-IsSound {s} (send_start e) h = let a = at_parent s (gather_ready 0) e h in omega (arith, a)
  Step-IsSound {s} (read_done left j bytes rest e r l k) h =
      let a = at_parent s (gather_done left) e h in
      let b = cut (s.response) bytes rest j r l in omega (arith, a, b)
  Step-IsSound {s} (all_done e) h = let a = at_parent s (gather_done 0) e h in omega (arith, a)
  Step-IsSound {s} (ask k e) h = let a = at_parent s (asking (suc k)) e h in omega (arith, a)
  Step-IsSound {s} (read_report k left j bytes rest e r l m) h =
      let a = at_parent s (reading k left) e h in
      let b = cut (s.response) bytes rest j r l in omega (arith, a, b)
  Step-IsSound {s} (merge k r e f) h =
      let a = at_parent s (reading k 0) e h in omega (arith, a, room)
  Step-IsSound {s} (release e) h = let a = at_parent s (asking 0) e h in omega (arith, a)
  Step-IsSound {s} (call xs ys c inp reply e o p q f) h =
      call-IsSound s xs ys c inp reply e p q (reply-Moves dbl c inp reply o f) h

  forked-IsSound : (c : Child) → stage c ≡ fresh → IsSound (forked n c)
  unfolding tally
  forked-IsSound c e =
      let a = in_stage-replicate is_fresh n c e in
      let b = in_stage-replicate is_waiting n c e in
      let d = in_stage-replicate is_started n c e in
      let f = in_stage-replicate is_finished n c e in
      let g = in_stage-replicate is_over n c e in omega (arith, a, b, d, f, g)

  Reach-IsSound :
      (c : Child) {s : System} → stage c ≡ fresh → Reach dbl n size (forked n c) s → IsSound s
  Reach-IsSound c e here = forked-IsSound c e
  Reach-IsSound c e (later r st) = Step-IsSound st (Reach-IsSound c e r)

  pub Reached-IsSound :
      (get_n enough iterations : ℕ) (repetitions : ℤ) {s : System}
      → Reached dbl n size get_n enough iterations repetitions s
      → Accounts n size (s.parent) (counts s)
  unfolding benchmp_child
  Reached-IsSound get_n enough iterations repetitions r =
      Reach-IsSound (benchmp_child get_n enough iterations n repetitions) refl r
