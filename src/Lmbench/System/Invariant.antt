-- ===== src/Lmbench/System/Invariant.antt =====
-- What holds of the parent, the children and the pipes between any two steps.
use numafac.Lmbench.Results.{Results}
use numafac.Lmbench.Child.{Message, report}
use numafac.Lmbench.Child.Stages.{Stage}
use numafac.Lmbench.Child.Moves.{
  Move, says_ready, says_ready_and_starts, waits, starts, measures, says_done, cools, reports,
}
use numafac.Lmbench.System.{Parent, gather_ready, gather_done, asking, reading, finished, written}
use numafac.Lmbench.System.Counting.{
  is_fresh, is_waiting, is_started, is_finished, is_over, of_ready, of_done, of_report, tally,
  tally-append, tally-replicate, Counts,
}
use numafac.Prelude.{ℕ, ◌+◌, ◌-◌, ◌*◌, ◌≤◌, ◌≡◌, ◌⊎◌, List, [], ◌∷◌, arith, replicate}

-- By where the parent stands: which stages the children can be in, which bytes the pipes can hold,
-- and that exactly the bytes that it waits for are in the pipe or will be written.
abbrev pub Accounts : ℕ → ℕ → Parent → Counts → Type 0
Accounts n size (gather_ready left) c =
    (c.fresh + c.ready ≡ left)
    × (c.fresh + c.waiting ≡ n)
    × (c.started + c.finished + c.over ≡ 0)
    × (c.done + c.report + c.start + c.result ≡ 0)
Accounts n size (gather_done left) c =
    (c.waiting + c.started + c.done ≡ left)
    × (c.waiting + c.started + c.finished ≡ n)
    × (c.start ≡ c.waiting)
    × (c.fresh + c.over + c.ready + c.report + c.result ≡ 0)
Accounts n size (asking k) c =
    (c.finished ≡ k)
    × (c.finished + c.over ≡ n)
    × (c.fresh + c.waiting + c.started + c.start ≡ 0)
    × (c.ready + c.done + c.report + c.result ≡ 0)
Accounts n size (reading k left) c =
    (c.finished ≡ k + c.result)
    × (c.finished + c.over ≡ n)
    × (c.fresh + c.waiting + c.started + c.start ≡ 0)
    × (c.ready + c.done ≡ 0)
    × (((c.result ≡ 1) × (c.report ≡ 0) × (left ≡ size)) ⊎ ((c.result ≡ 0) × (c.report ≡ left)))
Accounts n size finished c =
    (c.over ≡ n)
    × (c.fresh + c.waiting + c.started + c.finished + c.start ≡ 0)
    × (c.ready + c.done + c.report + c.result ≡ 0)

-- The counts with one child more, in this stage.
abbrev pub with_child : Counts → Stage → Counts
with_child c s = record c {
  fresh = c.fresh + is_fresh s;
  waiting = c.waiting + is_waiting s;
  started = c.started + is_started s;
  finished = c.finished + is_finished s;
  over = c.over + is_over s;
}

-- The counts after the pipes were read and written.
abbrev pub with_pipes : Counts → ℕ → ℕ → ℕ → ℕ → ℕ → Counts
with_pipes c a b r d p = record c {
  ready = c.ready + r;
  done = c.done + d;
  report = c.report + p;
  start = c.start - a;
  result = c.result - b;
}

module _ (n size : ℕ) where
  -- A move of a child, with what it writes.
  abbrev pub moved : Counts → ℕ → ℕ → Stage → List Message → Counts
  moved c a b t ms =
      with_pipes (with_child c t) a b (tally of_ready (written size ms))
        (tally of_done (written size ms)) (tally of_report (written size ms))

  abbrev pub Keeps : ℕ → ℕ → Stage → List Message → Stage → Type 0
  Keeps a b s ms t =
      (par : Parent) (c : Counts)
      → a ≤ c.start
      → b ≤ c.result
      → Accounts n size par (with_child c s)
      → Accounts n size par (moved c a b t ms)

  report_bytes :
      (w : Message → ℕ) (r : Results) → tally w (written size (report r ∷ [])) ≡ size * w (report r)
  unfolding tally
  report_bytes w r =
      omega
        (arith, tally-append w (replicate size (report r)) [], tally-replicate w size (report r))

  pub Move-Keeps : {a b : ℕ} {s t : Stage} {ms : List Message} → Move a b s ms t → Keeps a b s ms t
  unfolding tally
  Move-Keeps says_ready finished c p q h = omega arith
  Move-Keeps says_ready_and_starts finished c p q h = omega arith
  Move-Keeps waits finished c p q h = omega arith
  Move-Keeps starts finished c p q h = omega arith
  Move-Keeps measures finished c p q h = omega arith
  Move-Keeps says_done finished c p q h = omega arith
  Move-Keeps cools finished c p q h = omega arith
  Move-Keeps (reports r) (reading k left) c p q h =
      omega (arith, report_bytes of_ready r, report_bytes of_done r, report_bytes of_report r)
  Move-Keeps (reports r) finished c p q h = omega arith
  Move-Keeps mv par c p q h = omega arith
