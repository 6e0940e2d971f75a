-- ===== src/Lmbench/Parent/Order.antt =====
-- In which order benchmp_parent sends its signals.
use numafac.Lmbench.Results.{Measure, Results, save_median}
use numafac.Lmbench.Parent.{
  Poll, Wait, collected, failed, pending, Signal, start_signal, result_signal, exit_signal, Ending,
  merged, error_exit, still_waiting, collect_bytes, size_in_bytes, merge_results, finish_parent,
  collect_results, collect_done, benchmp_parent, after_bytes,
}
use numafac.Prelude.{
  ℕ, ◌<◌, ◌≡◌, refl, ap, Bool, List, [], ◌∷◌, ◌++◌, arith, length, ℤ, Run, ok, ◌>>=◌, Returns,
  Ensures, Ensures-bind, Ensures_always,
}

-- The rules for what follows a loop over `response`.
pub after_bytes-Returns :
    (P : List Signal × Ending → Type 0) (w : Wait) (sent : List Signal)
    (go_on : List Poll → Run (List Signal × Ending))
    → P (sent, error_exit)
    → P (sent, still_waiting)
    → ((rest : List Poll) → Returns (go_on rest) P)
    → Returns (after_bytes w sent go_on) P
unfolding after_bytes
after_bytes-Returns P (collected rest) sent go_on e s k = k rest
after_bytes-Returns P failed sent go_on e s k = e
after_bytes-Returns P pending sent go_on e s k = s

pub after_bytes-Ensures :
    (P : List Signal × Ending → Type 0) (w : Wait) (sent : List Signal)
    (go_on : List Poll → Run (List Signal × Ending))
    → P (sent, error_exit)
    → P (sent, still_waiting)
    → ((rest : List Poll) → Ensures (go_on rest) P)
    → Ensures (after_bytes w sent go_on) P
unfolding after_bytes
after_bytes-Ensures P (collected rest) sent go_on e s k = k rest
after_bytes-Ensures P failed sent go_on e s k = e
after_bytes-Ensures P pending sent go_on e s k = s

-- The signals are those of the whole exchange if there are results, and a beginning of them, with
-- something left out, if there are none.
abbrev pub InOrder : List Signal → List Signal × Ending → Type 0
InOrder all (sent, merged r m) = sent ≡ all
InOrder all (sent, error_exit) = (rest : List Signal) × (all ≡ sent ++ rest) × (0 < length rest)
InOrder all (sent, still_waiting) = (rest : List Signal) × (all ≡ sent ++ rest) × (0 < length rest)

InOrder-cons :
    (x : Signal) (all sent : List Signal) (ending : Ending)
    → InOrder all (sent, ending)
    → InOrder (x ∷ all) (x ∷ sent, ending)
InOrder-cons x all sent (merged r m) h = ap (λ l. x ∷ l) h
InOrder-cons x all sent error_exit (rest, e, l) = (rest, ap (λ l. x ∷ l) e, l)
InOrder-cons x all sent still_waiting (rest, e, l) = (rest, ap (λ l. x ∷ l) e, l)

-- One request for a report from each child, and the exit of all.
abbrev pub requests : ℕ → List Results → List Signal
requests parallel [] = exit_signal parallel ∷ []
requests parallel (r ∷ rs) = result_signal 1 ∷ requests parallel rs

requests_left : (parallel : ℕ) (rs : List Results) → 0 < length (requests parallel rs)
requests_left parallel [] = omega arith
requests_left parallel (r ∷ rs) = omega arith

module _ (above : Measure → Measure → Bool) where
  then_signal :
      (x : Signal) (all : List Signal) (run : Run (List Signal × Ending))
      → Ensures run (InOrder all)
      → Ensures (run >>= λ (signals, ending). ok (x ∷ signals, ending)) (InOrder (x ∷ all))
  then_signal x all run h =
      Ensures-bind (InOrder all) (InOrder (x ∷ all)) run _ h
        (λ (signals, ending) k. InOrder-cons x all signals ending k)

  collect_results-InOrder :
      (parallel : ℕ) (repetitions : ℤ) (rs : List Results) (polls : List Poll) (r : Results)
      → Ensures
          (collect_results above parallel repetitions rs polls r)
          (InOrder (requests parallel rs))
  unfolding collect_results finish_parent
  collect_results-InOrder parallel repetitions [] polls r =
      Ensures-bind (λ m. Unit {0}) (InOrder (requests parallel [])) (save_median r) _
        (Ensures_always _ _ (λ m. tt)) (λ m t. refl)
  collect_results-InOrder parallel repetitions (s ∷ rs) polls r =
      let left = requests_left parallel rs in
      after_bytes-Ensures (InOrder (requests parallel (s ∷ rs)))
        (collect_bytes (size_in_bytes repetitions) polls) (result_signal 1 ∷ []) _
        (requests parallel rs, refl, left) (requests parallel rs, refl, left)
        (λ rest.
          Ensures-bind (λ r'. Unit {0}) (InOrder (requests parallel (s ∷ rs)))
            (merge_results above (s.count) 0 s r) _ (Ensures_always _ _ (λ r'. tt))
            (λ r' t.
              then_signal (result_signal 1) (requests parallel rs)
                (collect_results above parallel repetitions rs rest r')
                (collect_results-InOrder parallel repetitions rs rest r')))

  -- Whatever the reports and the rounds at the pipe are: if benchmp_parent ends, it has sent, if it
  -- has results, the start of all children, one request for each report, and the exit of all, in
  -- this order; and a proper beginning of this, if it has none.
  pub benchmp_parent-InOrder :
      (parallel : ℕ) (repetitions : ℤ) (rs : List Results) (polls : List Poll)
      → Ensures
          (benchmp_parent above parallel repetitions rs polls)
          (InOrder (start_signal parallel ∷ requests parallel rs))
  unfolding benchmp_parent collect_done
  benchmp_parent-InOrder parallel repetitions rs polls =
      let all = start_signal parallel ∷ requests parallel rs in
      let left = requests_left parallel rs in
      after_bytes-Ensures (InOrder all) (collect_bytes parallel polls) [] _ (all, refl, omega arith)
        (all, refl, omega arith)
        (λ rest. then_signal (start_signal parallel) (requests parallel rs) _ (
          after_bytes-Ensures (InOrder (requests parallel rs)) (collect_bytes parallel rest) [] _
            (requests parallel rs, refl, left) (requests parallel rs, refl, left)
            (λ rest. collect_results-InOrder parallel repetitions rs rest _)))
