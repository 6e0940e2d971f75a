-- ===== src/Lmbench/System/Counting.antt =====
-- How many children are in each stage, and how many bytes of each kind are in the pipes.
use numafac.Lmbench.Child.{Message, ready, done, report}
use numafac.Lmbench.Child.Stages.{Stage, fresh, waiting, started, finished, over}
use numafac.Lmbench.System.{Process, stage_in, System}
use numafac.Prelude.{
  ℕ, zero, suc, ◌+◌, ◌*◌, ◌<◌, ◌≡◌, refl, ap, List, [], ◌∷◌, ◌++◌, arith, dec_lt, length, replicate,
}

abbrev pub is_fresh : Stage → ℕ
is_fresh fresh = 1
is_fresh waiting = 0
is_fresh started = 0
is_fresh finished = 0
is_fresh (over r) = 0

abbrev pub is_waiting : Stage → ℕ
is_waiting fresh = 0
is_waiting waiting = 1
is_waiting started = 0
is_waiting finished = 0
is_waiting (over r) = 0

abbrev pub is_started : Stage → ℕ
is_started fresh = 0
is_started waiting = 0
is_started started = 1
is_started finished = 0
is_started (over r) = 0

abbrev pub is_finished : Stage → ℕ
is_finished fresh = 0
is_finished waiting = 0
is_finished started = 0
is_finished finished = 1
is_finished (over r) = 0

abbrev pub is_over : Stage → ℕ
is_over fresh = 0
is_over waiting = 0
is_over started = 0
is_over finished = 0
is_over (over r) = 1

abbrev pub of_ready : Message → ℕ
of_ready ready = 1
of_ready done = 0
of_ready (report r) = 0

abbrev pub of_done : Message → ℕ
of_done ready = 0
of_done done = 1
of_done (report r) = 0

abbrev pub of_report : Message → ℕ
of_report ready = 0
of_report done = 0
of_report (report r) = 1

-- A sum over a list.
unfoldable pub tally {ℓ} : {A : Type ℓ} → (A → ℕ) → List A → ℕ
tally w [] = 0
tally w (x ∷ xs) = w x + tally w xs

module _ {ℓ} {A : Type ℓ} (w : A → ℕ) where
  pub tally-append : (xs ys : List A) → tally w (xs ++ ys) ≡ tally w xs + tally w ys
  unfolding tally
  tally-append [] ys = omega arith
  tally-append (x ∷ xs) ys = omega (arith, tally-append xs ys)

  pub tally-middle :
      (xs : List A) (x : A) (ys : List A) → tally w (xs ++ x ∷ ys) ≡ tally w xs + tally w ys + w x
  unfolding tally
  tally-middle xs x ys = omega (arith, tally-append xs (x ∷ ys))

  pub tally-replicate : (n : ℕ) (x : A) → tally w (replicate n x) ≡ n * w x
  unfolding tally
  tally-replicate zero x = omega arith
  tally-replicate (suc n) x = omega (arith, tally-replicate n x)

  -- An element of a list with a sum of 0.
  pub tally-zero : (xs : List A) (x : A) (ys : List A) → tally w (xs ++ x ∷ ys) ≡ 0 → w x ≡ 0
  tally-zero xs x ys h = omega (arith, h, tally-middle xs x ys)

  -- Where the sum is not 0, there is an element with a weight.
  pub tally-found :
      (xs : List A)
      → 0 < tally w xs
      → (ys : List A) × (x : A) × (zs : List A) × (xs ≡ ys ++ x ∷ zs) × (0 < w x)
  unfolding tally
  tally-found [] h = let f : ⊥ = omega (arith, h) in elim f [ ]
  tally-found (x ∷ xs) h = elim (dec_lt 0 (w x)) [
    | yes p ↦ ([], x, xs, refl, p)
    | no p ↦
        let (ys, y, zs, e, q) = tally-found xs (omega (arith, h, p)) in
        (x ∷ ys, y, zs, ap (λ l. x ∷ l) e, q)
  ]

-- Each byte is of one kind.
pub length-tally :
    (ms : List Message) → length ms ≡ tally of_ready ms + tally of_done ms + tally of_report ms
unfolding tally
length-tally [] = omega arith
length-tally (ready ∷ ms) = omega (arith, length-tally ms)
length-tally (done ∷ ms) = omega (arith, length-tally ms)
length-tally (report r ∷ ms) = omega (arith, length-tally ms)

-- The children in each stage, and the bytes in the pipes.
pub record Counts : Type 0 where
  pub fresh : ℕ
  pub waiting : ℕ
  pub started : ℕ
  pub finished : ℕ
  pub over : ℕ
  pub ready : ℕ
  pub done : ℕ
  pub report : ℕ
  pub start : ℕ
  pub result : ℕ

abbrev pub in_stage : (Stage → ℕ) → List Process → ℕ
in_stage w ps = tally (λ p. w (stage_in p)) ps

abbrev pub counts : System → Counts
counts s = record {
  fresh = in_stage is_fresh (s.processes);
  waiting = in_stage is_waiting (s.processes);
  started = in_stage is_started (s.processes);
  finished = in_stage is_finished (s.processes);
  over = in_stage is_over (s.processes);
  ready = tally of_ready (s.response);
  done = tally of_done (s.response);
  report = tally of_report (s.response);
  start = s.start_signal;
  result = s.result_signal;
}
