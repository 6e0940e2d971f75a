-- ===== src/Lmbench/Parent/Arrival.antt =====
-- benchmp_parent ends with results where the bytes that it waits for arrive.
use numafac.Lmbench.Results.{Measure, Results}
use numafac.Lmbench.Results.Collected.{IsStrict, Collects}
use numafac.Lmbench.Parent.{
  Poll, Signal, start_signal, result_signal, exit_signal, Ending, merged, error_exit, still_waiting,
}
use numafac.Lmbench.Parent.Merging.{median}
use numafac.Prelude.{ℕ, suc, ◌≡◌, Bool, true, false, List, [], ◌∷◌, ◌++◌, replicate, pos}

-- A round in which at least a byte is read.
abbrev pub IsArrival : Poll → Type 0
IsArrival poll =
    (poll.interrupted ≡ false) × (poll.readable ≡ true) × (k : ℕ) × (poll.bytes_read ≡ pos (suc k))

abbrev pub IsMerged : List Signal × Ending → Type 0
IsMerged (sent, merged r m) = Unit {0}
IsMerged (sent, error_exit) = ⊥
IsMerged (sent, still_waiting) = ⊥

-- A request for each of so many reports, and the exit of all children.
abbrev pub asks : ℕ → ℕ → List Signal
asks parallel n = replicate n (result_signal 1) ++ exit_signal parallel ∷ []

-- The start of all children, a request for each report, and the exit of all.
abbrev pub exchange : ℕ → List Signal
exchange n = start_signal n ∷ asks n n

-- All that is sent, and the results: a descending list of these measures, and its median.
abbrev pub Delivers :
    (above : Measure → Measure → Bool)
    → IsStrict above
    → List Measure
    → ℕ
    → List Signal × Ending
    → Type 0
Delivers above strict ms n (sent, ending) =
    (r : Results) × (k : ℕ) × (c : Collects above strict r ms k) × (ending
      ≡ merged r (median (c.list)))
    × (sent ≡ exchange n)
