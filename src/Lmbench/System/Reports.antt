-- ===== src/Lmbench/System/Reports.antt =====
-- What the children have reported, and what a call of one of them changes.
use mathlib.Core.List.{Perm, perm_middle}
use mathlib.Core.List.Perm
use numafac.Lmbench.Results.{Results}
use numafac.Lmbench.Child.{Child, Message, report}
use numafac.Lmbench.Child.Stages.{Stage, fresh, waiting, started, finished as cooled, over, after}
use numafac.Lmbench.Child.Moves.{
  Move, says_ready, says_ready_and_starts, waits, starts, measures, says_done, cools, reports,
}
use numafac.Lmbench.System.{
  Parent, gather_ready, gather_done, asking, reading, finished, Process, stage_in, process_after,
  System, written,
}
use numafac.Lmbench.System.Counting.{is_fresh, is_waiting, is_started}
use numafac.Lmbench.System.Steps.{stage_in-after}
use numafac.Prelude.{
  ℕ, ◌+◌, ◌-◌, ◌≤◌, ◌≡◌, refl, sym, ap, ◌∙◌, ◌⊎◌, inl, inr, Bool, true, false, List, [], ◌∷◌, ◌++◌,
  append-nil, append_assoc, arith, replicate,
}

-- The results of a child, once it has reported them.
abbrev pub told : Stage → List Results
told fresh = []
told waiting = []
told started = []
told cooled = []
told (over r) = r ∷ []

unfoldable pub reports_of : List Process → List Results
reports_of [] = []
reports_of (p ∷ ps) = told (stage_in p) ++ reports_of ps

reports_of-append : (ps qs : List Process) → reports_of (ps ++ qs) ≡ reports_of ps ++ reports_of qs
unfolding reports_of
reports_of-append [] qs = refl
reports_of-append (p ∷ ps) qs =
    ap (λ l. told (stage_in p) ++ l) (reports_of-append ps qs)
    ∙ sym (append_assoc (told (stage_in p)) (reports_of ps) (reports_of qs))

pub reports_of-middle :
    (ps xs : List Process) (p : Process) (ys : List Process)
    → ps ≡ xs ++ p ∷ ys
    → reports_of ps ≡ reports_of xs ++ (told (stage_in p) ++ reports_of ys)
unfolding reports_of
reports_of-middle ps xs p ys e = ap reports_of e ∙ reports_of-append xs (p ∷ ys)

pub reports_of-after :
    (xs ys : List Process) (b : Bool) (c : Child)
    → reports_of (xs ++ process_after b c ∷ ys)
      ≡ reports_of xs ++ (told (after b c) ++ reports_of ys)
reports_of-after xs ys b c =
    reports_of-middle _ xs (process_after b c) ys refl
    ∙ ap (λ s. reports_of xs ++ (told s ++ reports_of ys)) (stage_in-after b c)

abbrev pub is_reading : Parent → Bool
is_reading (gather_ready left) = false
is_reading (gather_done left) = false
is_reading (asking k) = false
is_reading (reading k left) = true
is_reading finished = false

-- The results that the children reported are those that the parent merged; while it reads, either
-- no child has seen the request, or one child more has reported, and its report is what the
-- parent has read and what is still in the pipe.
abbrev pub Collected :
    Bool → ℕ → ℕ → List Message → List Message → List Results → List Results → Type 0
Collected false size result buffer response merged told = Perm told merged
Collected true size result buffer response merged told =
    ((result ≡ 1) × (buffer ≡ []) × Perm told merged)
    ⊎ ((result ≡ 0)
        × ((r : Results) × (buffer ++ response ≡ replicate size (report r))
            × Perm told (r ∷ merged)))

abbrev pub IsCollected : ℕ → System → Type 0
IsCollected size s =
    Collected (is_reading (s.parent)) size (s.result_signal) (s.buffer) (s.response) (s.merged)
      (reports_of (s.processes))

-- Which moves there are, while the parent reads or not.
abbrev pub Allows : Bool → ℕ → List Message → Stage → Type 0
Allows false result response s = result ≡ 0
Allows true result response s =
    (is_fresh s + is_waiting s + is_started s ≡ 0) × ((response ≡ []) ⊎ (result ≡ 0))

only_report :
    (size : ℕ) (r : Results) (buffer response : List Message)
    → buffer ≡ []
    → response ≡ []
    → buffer ++ (response ++ (replicate size (report r) ++ [])) ≡ replicate size (report r)
only_report size r buffer response b e =
    ap (λ l. l ++ (response ++ (replicate size (report r) ++ []))) b
    ∙ ap (λ l. l ++ (replicate size (report r) ++ [])) e
    ∙ append-nil (replicate size (report r))

no_response :
    {response : List Message} {result : ℕ}
    → (response ≡ []) ⊎ (result ≡ 0)
    → result ≡ 1
    → response ≡ []
no_response (inl e) k = e
no_response (inr z) k = let f : ⊥ = omega (arith, z, k) in elim f [ ]

pub Move-Collected :
    (size : ℕ) (xs ys : List Results) (result : ℕ) (buffer response : List Message)
    (merged : List Results) {a b : ℕ} {s t : Stage} {ms : List Message}
    → Move a b s ms t
    → (reads : Bool) → b ≤ result
    → Allows reads result response s
    → Collected reads size result buffer response merged (xs ++ (told s ++ ys))
    → Collected reads size
        (result - b)
        buffer
        (response ++ written size ms)
        merged
        (xs ++ (told t ++ ys))
Move-Collected size xs ys result buffer response merged says_ready false q w h = h
Move-Collected size xs ys result buffer response merged says_ready_and_starts false q w h = h
Move-Collected size xs ys result buffer response merged waits false q w h = h
Move-Collected size xs ys result buffer response merged starts false q w h = h
Move-Collected size xs ys result buffer response merged measures false q w h = h
Move-Collected size xs ys result buffer response merged says_done false q w h = h
Move-Collected size xs ys result buffer response merged cools false q w h = h
Move-Collected size xs ys result buffer response merged (reports r) false q w h =
    let f : ⊥ = omega (arith, q, w) in elim f [ ]
Move-Collected size xs ys result buffer response merged cools true q w (inl (k, b, p)) =
    inl (omega (arith, k), b, p)
Move-Collected size xs ys result buffer response merged cools true q w (inr (k, (r, b, p))) =
    inr (omega (arith, k), (r, ap (λ l. buffer ++ l) (append-nil response) ∙ b, p))
Move-Collected size xs ys result buffer response merged (reports r) true q w (inl (k, b, p)) = inr (
  omega (arith, k),
  (
    r,
    only_report size r buffer response b (no_response w.1 k),
    Perm.trans (perm_middle xs ys) (Perm.cons' refl p),
  ),
)
Move-Collected size xs ys result buffer response merged (reports r) true q w (inr (k, h)) =
    let f : ⊥ = omega (arith, q, k) in elim f [ ]
Move-Collected size xs ys result buffer response merged mv true q w h =
    let f : ⊥ = omega (arith, w) in elim f [ ]
