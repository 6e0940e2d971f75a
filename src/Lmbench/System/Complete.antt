-- ===== src/Lmbench/System/Complete.antt =====
-- The parent and its children when the parent is finished.
use numafac.Lmbench.Child.{Phase, warmup, timing_interval, cooldown, Child}
use numafac.Lmbench.Child.Stages.{stage_of, stage}
use numafac.Lmbench.System.{finished, Process, running, reported, stage_in, System}
use numafac.Lmbench.System.Counting.{
  is_fresh, is_waiting, is_started, is_finished, is_over, tally, in_stage, counts,
}
use numafac.Lmbench.System.Invariant.{Accounts}
use numafac.Lmbench.System.Barriers.{rank-IsRanked}
use mathlib.Core.List.{Perm}
use numafac.Lmbench.System.Bytes.{no-bytes}
use numafac.Lmbench.System.Reports.{reports_of}
use numafac.Prelude.{ℕ, ◌+◌, ◌≡◌, refl, ap, Bool, true, false, List, [], ◌∷◌, map, arith, length}

-- A child that the parent still listens to is in one of four stages.
not-over : (c : Child) → is_over (stage c) ≡ 0
not-over c = stage_of-not-over (c.phase) (c.need_warmup)
  where
    stage_of-not-over : (p : Phase) (b : Bool) → is_over (stage_of p b) ≡ 0
    stage_of-not-over warmup true = refl
    stage_of-not-over warmup false = refl
    stage_of-not-over timing_interval b = refl
    stage_of-not-over cooldown b = refl

length-stages :
    (ps : List Process)
    → length ps
      ≡ in_stage is_fresh ps
        + in_stage is_waiting ps
        + in_stage is_started ps
        + in_stage is_finished ps
        + in_stage is_over ps
unfolding tally
length-stages [] = refl
length-stages (p ∷ ps) =
    let r = rank-IsRanked (stage_in p) in let h = length-stages ps in omega (arith, r, h)

all-reported :
    (ps : List Process)
    → in_stage is_fresh ps
        + in_stage is_waiting ps
        + in_stage is_started ps
        + in_stage is_finished ps
      ≡ 0
    → ps ≡ map reported (reports_of ps)
unfolding tally reports_of
all-reported [] h = refl
all-reported (reported r ∷ ps) h = ap (λ l. reported r ∷ l) (all-reported ps (omega (arith, h)))
all-reported (running c ∷ ps) h =
    let r = rank-IsRanked (stage c) in
    let o = not-over c in let f : ⊥ = omega (arith, h, r, o) in elim f [ ]

-- Every child that was forked has reported, what they reported is what was merged, and nothing is
-- left in a pipe.
pub record IsComplete (n : ℕ) (s : System) : Type 0 where
  pub forked : length (s.processes) ≡ n
  pub processes : s.processes ≡ map reported (reports_of (s.processes))
  pub merged : Perm (reports_of (s.processes)) (s.merged)
  pub response : s.response ≡ []
  pub start_signal : s.start_signal ≡ 0
  pub result_signal : s.result_signal ≡ 0

pub Accounts-IsComplete :
    (n size : ℕ) (s : System)
    → Accounts n size finished (counts s)
    → Perm (reports_of (s.processes)) (s.merged)
    → IsComplete n s
Accounts-IsComplete n size s h p = record {
  forked = omega (arith, h, length-stages (s.processes));
  processes = all-reported (s.processes) (omega (arith, h));
  merged = p;
  response = no-bytes (s.response) (omega (arith, h));
  start_signal = omega (arith, h);
  result_signal = omega (arith, h);
}
