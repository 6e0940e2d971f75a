-- ===== src/Lmbench/System/Waiting.antt =====
-- Where the parent waits for bytes that are not in the pipe, some child can write them.
use numafac.Lmbench.System.{Results}
use numafac.Lmbench.Child.{Doubles, Child}
use numafac.Lmbench.Child.Stages.{Stage, fresh, waiting, started, finished as cooled, over, stage}
use numafac.Lmbench.System.{
  Parent, gather_ready, gather_done, asking, reading, finished, Process, running, reported,
  stage_in, System, Reached,
}
use numafac.Lmbench.System.Counting.{
  is_fresh, is_waiting, is_started, is_finished, of_ready, of_done, of_report, tally, tally-found,
  in_stage, counts,
}
use numafac.Lmbench.System.Invariant.{Accounts}
use numafac.Lmbench.System.Bytes.{awaited}
use numafac.Lmbench.System.Steps.{Reached-IsSound}
use numafac.Prelude.{
  ℕ, ◌≤◌, ◌<◌, ◌≡◌, refl, ap, ◌⊎◌, inl, inr, List, [], ◌∷◌, ◌++◌, arith, dec_lt, ℤ,
}

-- A child is in this stage.
abbrev pub SomeChild : System → Stage → Type 0
SomeChild s t =
    (xs : List Process) × (c : Child) × (ys : List Process) × (s.processes ≡ xs ++ running c ∷ ys)
    × (stage c ≡ t)

-- What will end the wait of the parent: a child that has not yet said that it is ready; one that
-- measures, or that waits to start while there is a byte for it; one that has done its timing, with
-- a byte for it.
abbrev pub Supplied : Parent → System → Type 0
Supplied (gather_ready left) s = SomeChild s fresh
Supplied (gather_done left) s = SomeChild s started ⊎ (SomeChild s waiting × (1 ≤ s.start_signal))
Supplied (asking k) s = ⊥
Supplied (reading k left) s = SomeChild s cooled × (s.result_signal ≡ 1)
Supplied finished s = ⊥

fresh-of : (t : Stage) → 0 < is_fresh t → t ≡ fresh
fresh-of fresh h = refl
fresh-of t h = let f : ⊥ = omega (arith, h) in elim f [ ]

waiting-of : (t : Stage) → 0 < is_waiting t → t ≡ waiting
waiting-of waiting h = refl
waiting-of t h = let f : ⊥ = omega (arith, h) in elim f [ ]

started-of : (t : Stage) → 0 < is_started t → t ≡ started
started-of started h = refl
started-of t h = let f : ⊥ = omega (arith, h) in elim f [ ]

cooled-of : (t : Stage) → 0 < is_finished t → t ≡ cooled
cooled-of cooled h = refl
cooled-of t h = let f : ⊥ = omega (arith, h) in elim f [ ]

module _ (w : Stage → ℕ) (t : Stage) (only : (u : Stage) → 0 < w u → u ≡ t)
    (lives : (r : Results) → w (over r) ≡ 0) where
  found : (s : System) → 0 < in_stage w (s.processes) → SomeChild s t
  found s h =
      let (xs, p, ys, e, q) = tally-found (λ p. w (stage_in p)) (s.processes) h in
      by_process xs p ys e q
    where
      by_process :
          (xs : List Process) (p : Process) (ys : List Process)
          → s.processes ≡ xs ++ p ∷ ys
          → 0 < w (stage_in p)
          → SomeChild s t
      by_process xs (running c) ys e q = (xs, c, ys, e, only (stage c) q)
      by_process xs (reported r) ys e q = let f : ⊥ = omega (arith, q, lives r) in elim f [ ]

Accounts-Supplied :
    (n size : ℕ) (par : Parent) (s : System)
    → Accounts n size par (counts s)
    → s.response ≡ []
    → 0 < awaited par
    → Supplied par s
unfolding tally
Accounts-Supplied n size (gather_ready left) s h e w =
    found is_fresh fresh fresh-of (λ r. refl) s (omega (arith, h, w, ap (tally of_ready) e))
Accounts-Supplied n size (gather_done left) s h e w =
    elim (dec_lt 0 (in_stage is_started (s.processes))) [
      | yes k ↦ inl (found is_started started started-of (λ r. refl) s k)
      | no k ↦
          let here : 0 < in_stage is_waiting (s.processes) =
            omega (arith, h, w, k, ap (tally of_done) e) in
          inr (found is_waiting waiting waiting-of (λ r. refl) s here, omega (arith, h, here))
    ]
Accounts-Supplied n size (asking k) s h e w = omega (arith, w)
Accounts-Supplied n size (reading k left) s h e w =
    let b = ap (tally of_report) e in
    (
      found is_finished cooled cooled-of (λ r. refl) s (omega (arith, h, w, b)),
      omega (arith, h, w, b),
    )
Accounts-Supplied n size finished s h e w = omega (arith, w)

module _ {D : Type 0} (dbl : Doubles D) (n size : ℕ) (room : 0 < size) where
  -- Where a report has at least a byte, in every state that is reached and in which benchmp_parent
  -- waits for bytes while the pipe `response` is empty, they can come: before the start there is a
  -- child that has not yet said that it is ready; after it, one that measures, or one that waits
  -- and a byte in `start_signal` for it; while a report is read, one that has done its timing and a
  -- byte in `result_signal`.
  pub Reached-Supplied :
      (get_n enough iterations : ℕ) (repetitions : ℤ) (s : System)
      → Reached dbl n size get_n enough iterations repetitions s
      → s.response ≡ []
      → 0 < awaited (s.parent)
      → Supplied (s.parent) s
  Reached-Supplied get_n enough iterations repetitions s r e w =
      Accounts-Supplied n size (s.parent) s
        (Reached-IsSound dbl n size room get_n enough iterations repetitions r) e w
