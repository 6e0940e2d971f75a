-- ===== src/Tests/System.antt =====
-- The theorems on benchmp_parent and its children, each at a run.
use numafac.Lmbench.Results.{
  insertsort, insert_measure, find_place, shift_down, sizeof_result, insertinit, Results,
}
use numafac.Lmbench.Child.{
  Child, Message, ready, done, report, Input, Reply, benchmp_child, benchmp_interval, phase_round,
  warmup_round, timing_round, cooldown_round, timed, keep_result, keep_if_enough, adjust,
  finish_timing,
}
use numafac.Lmbench.System.{
  Parent, gather_ready, gather_done, asking, reading, finished, Process, running, reported,
  stage_in, System, bytes_of, read_ready, send_start, read_done, all_done, ask, read_report, merge,
  release, call, here, later, Reached,
}
use numafac.Lmbench.System.Barriers.{Barriers}
use numafac.Lmbench.System.Bytes.{Answers, awaited}
use numafac.Lmbench.Child.Progress.{Each}
use numafac.Lmbench.System.Complete.{IsComplete}
use numafac.Lmbench.System.Reports.{reports_of}
use numafac.Lmbench.System.Waiting.{Supplied, Reached-Supplied}
use numafac.Lmbench.System.Exchange.{
  Reached-Barriers, Reached-Answers, Reached-reading, Reached-IsComplete,
}
use numafac.Tests.Timing.{whole}
use mathlib.Core.List.{Perm}
use numafac.Prelude.{
  ℕ, ◌≤◌, ◌≡◌, refl, Bool, true, false, List, [], ◌∷◌, arith, length, pos, load, store, value_or,
}

-- A call that finds a start signal, or not, and the request for a report, or not.
abbrev call_with : Bool → Bool → Input ℕ
call_with start result = record {
  result = 5000;
  orphaned = false;
  start_ready = start;
  result_ready = result;
}

-- What a child that takes 5000 microseconds an interval replies, and the child behind it.
abbrev reply_of : Bool → Bool → Child → Reply
reply_of start result c =
    value_or record { child = c; sent = []; next = 0; exited = false }
      (benchmp_interval whole (call_with start result) c)

-- Opens what a call of benchmp_interval calls.
program : Unit {0}
unfolding benchmp_child benchmp_interval phase_round warmup_round timing_round cooldown_round timed
    keep_result keep_if_enough adjust finish_timing insertsort insert_measure find_place shift_down
    sizeof_result insertinit load store
program = tt

-- One child, as it is forked, waits, has started, and has done its timing.
abbrev child0 : Child
child0 = benchmp_child 1 5000 1 1 (pos 1)

abbrev child1 : Child
child1 = (reply_of false false child0).child

abbrev child2 : Child
child2 = (reply_of true false child1).child

abbrev child3 : Child
child3 = (reply_of false false child2).child

-- The parent and this child, with reports of two bytes.
abbrev at : Parent → Process → List Message → ℕ → ℕ → List Message → List Results → System
at parent p response start_signal result_signal buffer merged = record {
  parent = parent;
  processes = p ∷ [];
  response = response;
  start_signal = start_signal;
  result_signal = result_signal;
  buffer = buffer;
  merged = merged;
}

abbrev Runs : System → Type 0
Runs s = Reached whole 1 2 1 5000 1 (pos 1) s

asked_ready : Runs (at (gather_ready 1) (running child0) [] 0 0 [] [])
unfolding program
asked_ready = here

child_ready : Runs (at (gather_ready 1) (running child1) (ready ∷ []) 0 0 [] [])
unfolding program
child_ready = later asked_ready (
    call [] [] child0 (call_with false false) (reply_of false false child0) refl refl (omega arith)
      (omega arith) refl)

heard_ready : Runs (at (gather_ready 0) (running child1) [] 0 0 [] [])
unfolding program
heard_ready = later child_ready (read_ready 1 0 (ready ∷ []) [] refl refl refl (omega arith))

told_start : Runs (at (gather_done 1) (running child1) [] 1 0 [] [])
unfolding program
told_start = later heard_ready (send_start refl)

child_started : Runs (at (gather_done 1) (running child2) [] 0 0 [] [])
unfolding program
child_started = later told_start (
    call [] [] child1 (call_with true false) (reply_of true false child1) refl refl (omega arith)
      (omega arith) refl)

child_done : Runs (at (gather_done 1) (running child3) (done ∷ []) 0 0 [] [])
unfolding program
child_done = later child_started (
    call [] [] child2 (call_with false false) (reply_of false false child2) refl refl (omega arith)
      (omega arith) refl)

heard_done : Runs (at (gather_done 0) (running child3) [] 0 0 [] [])
unfolding program
heard_done = later child_done (read_done 1 0 (done ∷ []) [] refl refl refl (omega arith))

all_are_done : Runs (at (asking 1) (running child3) [] 0 0 [] [])
unfolding program
all_are_done = later heard_done (all_done refl)

asked_report : Runs (at (reading 0 2) (running child3) [] 0 1 [] [])
unfolding program
asked_report = later all_are_done (ask 0 refl)

child_reported :
    Runs (
      at (reading 0 2) (reported (child3.r)) (report (child3.r) ∷ report (child3.r) ∷ []) 0 0 [] [])
unfolding program
child_reported = later asked_report (
    call [] [] child3 (call_with false true) (reply_of false true child3) refl refl (omega arith)
      (omega arith) refl)

heard_half : Runs (
    at (reading 0 1) (reported (child3.r)) (report (child3.r) ∷ []) 0 0 (report (child3.r) ∷ []) [])
unfolding program
heard_half = later child_reported (
    read_report 0 2 0 (report (child3.r) ∷ []) (report (child3.r) ∷ []) refl refl refl
      (omega arith))

heard_report :
    Runs (
      at (reading 0 0) (reported (child3.r)) [] 0 0 (report (child3.r) ∷ report (child3.r) ∷ []) [])
unfolding program
heard_report =
    later heard_half (read_report 0 1 0 (report (child3.r) ∷ []) [] refl refl refl (omega arith))

merged_report : Runs (
    at
      (asking 0)
      (reported (child3.r))
      []
      0
      0
      (report (child3.r) ∷ report (child3.r) ∷ [])
      (child3.r ∷ []))
unfolding program
merged_report = later heard_report (merge 0 (child3.r) refl refl)

released : Runs (
    at finished
      (reported (child3.r))
      []
      0
      0
      (report (child3.r) ∷ report (child3.r) ∷ [])
      (child3.r ∷ []))
unfolding program
released = later merged_report (release refl)

Reached-IsComplete_example : IsComplete 1 (
    at finished
      (reported (child3.r))
      []
      0
      0
      (report (child3.r) ∷ report (child3.r) ∷ [])
      (child3.r ∷ []))
Reached-IsComplete_example =
    Reached-IsComplete whole 1 2 (omega arith) 1 5000 1 (pos 1) _ released refl

Reached-reading_example :
    (r : Results) × (report (child3.r) ∷ report (child3.r) ∷ [] ≡ bytes_of 2 (report r))
    × Perm (reports_of (reported (child3.r) ∷ [])) (r ∷ [])
Reached-reading_example =
    Reached-reading whole 1 2 (omega arith) 1 5000 1 (pos 1) _ heard_report 0 refl

Reached-Answers_example :
    Each (Answers (reading 0 1)) (report (child3.r) ∷ [])
    × (length (report (child3.r) ∷ []) ≤ awaited (reading 0 1))
Reached-Answers_example = Reached-Answers whole 1 2 (omega arith) 1 5000 1 (pos 1) _ heard_half

Reached-Supplied_example :
    Supplied (gather_done 1) (at (gather_done 1) (running child1) [] 1 0 [] [])
Reached-Supplied_example =
    Reached-Supplied whole 1 2 (omega arith) 1 5000 1 (pos 1) _ told_start refl (omega arith)

-- Two children, of which one has said that it is ready.
abbrev first_child : Child
first_child = benchmp_child 1 5000 1 2 (pos 1)

abbrev ready_child : Child
ready_child = (reply_of false false first_child).child

abbrev one_ready : System
one_ready = record {
  parent = gather_ready 2;
  processes = running ready_child ∷ running first_child ∷ [];
  response = ready ∷ [];
  start_signal = 0;
  result_signal = 0;
  buffer = [];
  merged = [];
}

one_is_ready : Reached whole 2 2 1 5000 1 (pos 1) one_ready
unfolding program
one_is_ready = later here (
    call [] (running first_child ∷ []) first_child (call_with false false)
      (reply_of false false first_child) refl refl (omega arith) (omega arith) refl)

Reached-Barriers_example :
    Barriers (stage_in (running ready_child)) (stage_in (running first_child))
Reached-Barriers_example =
    Reached-Barriers whole 2 2 (omega arith) 1 5000 1 (pos 1) one_ready one_is_ready []
      (running ready_child) (running first_child ∷ []) refl (running ready_child ∷ [])
      (running first_child) [] refl
