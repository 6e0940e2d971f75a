-- ===== src/Lmbench/System/Bytes.antt =====
-- What is in the pipe `response`, and what is left when the parent is finished.
use numafac.Lmbench.Child.{Message, ready, done, report}
use numafac.Lmbench.Child.Progress.{Each}
use numafac.Lmbench.Results.{Results}
use numafac.Lmbench.System.{Parent, gather_ready, gather_done, asking, reading, finished, System}
use numafac.Lmbench.System.Counting.{of_ready, of_done, of_report, tally, length-tally, counts}
use numafac.Lmbench.System.Invariant.{Accounts}
use numafac.Prelude.{ℕ, ◌+◌, ◌≤◌, ◌≡◌, refl, sym, subst, List, [], ◌∷◌, arith, length}

pub no-bytes :
    (ms : List Message) → tally of_ready ms + tally of_done ms + tally of_report ms ≡ 0 → ms ≡ []
no-bytes [] h = refl
no-bytes (m ∷ ms) h = let l = length-tally (m ∷ ms) in let f : ⊥ = omega (arith, h, l) in elim f [ ]

-- The bytes that the parent reads in this loop, before it leaves it.
abbrev pub awaited : Parent → ℕ
awaited (gather_ready left) = left
awaited (gather_done left) = left
awaited (asking k) = 0
awaited (reading k left) = left
awaited finished = 0

-- What those bytes are.
abbrev pub Answers : Parent → Message → Type 0
Answers (gather_ready left) m = m ≡ ready
Answers (gather_done left) m = m ≡ done
Answers (asking k) m = ⊥
Answers (reading k left) m = (r : Results) × (m ≡ report r)
Answers finished m = ⊥

all_ready :
    (ms : List Message) → tally of_done ms + tally of_report ms ≡ 0 → Each (λ m. m ≡ ready) ms
unfolding tally
all_ready [] h = tt
all_ready (ready ∷ ms) h = (refl, all_ready ms (omega (arith, h)))
all_ready (done ∷ ms) h = let f : ⊥ = omega (arith, h) in elim f [ ]
all_ready (report r ∷ ms) h = let f : ⊥ = omega (arith, h) in elim f [ ]

all_done_bytes :
    (ms : List Message) → tally of_ready ms + tally of_report ms ≡ 0 → Each (λ m. m ≡ done) ms
unfolding tally
all_done_bytes [] h = tt
all_done_bytes (ready ∷ ms) h = let f : ⊥ = omega (arith, h) in elim f [ ]
all_done_bytes (done ∷ ms) h = (refl, all_done_bytes ms (omega (arith, h)))
all_done_bytes (report r ∷ ms) h = let f : ⊥ = omega (arith, h) in elim f [ ]

all_report :
    (ms : List Message)
    → tally of_ready ms + tally of_done ms ≡ 0
    → Each (λ m. (r : Results) × (m ≡ report r)) ms
unfolding tally
all_report [] h = tt
all_report (ready ∷ ms) h = let f : ⊥ = omega (arith, h) in elim f [ ]
all_report (done ∷ ms) h = let f : ⊥ = omega (arith, h) in elim f [ ]
all_report (report r ∷ ms) h = ((r, refl), all_report ms (omega (arith, h)))

pub Accounts-Answers :
    (n size : ℕ) (par : Parent) (s : System)
    → Accounts n size par (counts s)
    → Each (Answers par) (s.response)
Accounts-Answers n size (gather_ready left) s h = all_ready (s.response) (omega (arith, h))
Accounts-Answers n size (gather_done left) s h = all_done_bytes (s.response) (omega (arith, h))
Accounts-Answers n size (asking k) s h =
    subst (Each (λ m. ⊥)) (sym (no-bytes (s.response) (omega (arith, h)))) tt
Accounts-Answers n size (reading k left) s h = all_report (s.response) (omega (arith, h))
Accounts-Answers n size finished s h =
    subst (Each (λ m. ⊥)) (sym (no-bytes (s.response) (omega (arith, h)))) tt

pub Accounts-awaited :
    (n size : ℕ) (par : Parent) (s : System)
    → Accounts n size par (counts s)
    → length (s.response) ≤ awaited par
Accounts-awaited n size (gather_ready left) s h = omega (arith, h, length-tally (s.response))
Accounts-awaited n size (gather_done left) s h = omega (arith, h, length-tally (s.response))
Accounts-awaited n size (asking k) s h = omega (arith, h, length-tally (s.response))
Accounts-awaited n size (reading k left) s h = omega (arith, h, length-tally (s.response))
Accounts-awaited n size finished s h = omega (arith, h, length-tally (s.response))
