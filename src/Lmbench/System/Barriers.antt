-- ===== src/Lmbench/System/Barriers.antt =====
-- How far the children are, and that no two are on two sides of a barrier.
use numafac.Lmbench.Child.Stages.{Stage, fresh, waiting, started, finished as cooled, over}
use numafac.Lmbench.System.{
  Parent, gather_ready, gather_done, asking, reading, finished, Process, stage_in, System,
}
use numafac.Lmbench.System.Counting.{
  is_fresh, is_waiting, is_started, is_finished, is_over, Counts, in_stage, counts,
}
use numafac.Lmbench.System.Invariant.{Accounts}
use numafac.Lmbench.System.Steps.{in_stage-middle}
use numafac.Prelude.{ℕ, ◌+◌, ◌*◌, ◌≤◌, ◌≡◌, refl, ◌⊎◌, inl, inr, List, ◌∷◌, ◌++◌, arith}

-- How far a child is.
abbrev pub rank : Stage → ℕ
rank fresh = 0
rank waiting = 1
rank started = 2
rank cooled = 3
rank (over r) = 4

-- A stage by its weights.
pub record IsRanked (s : Stage) : Type 0 where
  pub ranked : rank s ≡ is_waiting s + 2 * is_started s + 3 * is_finished s + 4 * is_over s
  pub one : is_fresh s + is_waiting s + is_started s + is_finished s + is_over s ≡ 1

pub rank-IsRanked : (s : Stage) → IsRanked s
rank-IsRanked fresh = record { ranked = refl; one = refl }
rank-IsRanked waiting = record { ranked = refl; one = refl }
rank-IsRanked started = record { ranked = refl; one = refl }
rank-IsRanked cooled = record { ranked = refl; one = refl }
rank-IsRanked (over r) = record { ranked = refl; one = refl }

-- A child counts.
pub record Counted (s : System) (p : Process) : Type 0 where
  pub fresh : is_fresh (stage_in p) ≤ (counts s).fresh
  pub waiting : is_waiting (stage_in p) ≤ (counts s).waiting
  pub started : is_started (stage_in p) ≤ (counts s).started
  pub finished : is_finished (stage_in p) ≤ (counts s).finished
  pub over : is_over (stage_in p) ≤ (counts s).over

member-le :
    (w : Stage → ℕ) (s : System) (xs : List Process) (p : Process) (ys : List Process)
    → s.processes ≡ xs ++ p ∷ ys
    → w (stage_in p) ≤ in_stage w (s.processes)
member-le w s xs p ys e = let h = in_stage-middle w (s.processes) xs p ys e in omega (arith, h)

pub member-Counted :
    (s : System) (xs : List Process) (p : Process) (ys : List Process)
    → s.processes ≡ xs ++ p ∷ ys
    → Counted s p
member-Counted s xs p ys e = record {
  fresh = member-le is_fresh s xs p ys e;
  waiting = member-le is_waiting s xs p ys e;
  started = member-le is_started s xs p ys e;
  finished = member-le is_finished s xs p ys e;
  over = member-le is_over s xs p ys e;
}

-- The second child waits for the first, twice.
abbrev pub Barriers : Stage → Stage → Type 0
Barriers p q = ((1 ≤ rank q) ⊎ (rank p ≤ 1)) × ((3 ≤ rank q) ⊎ (rank p ≤ 3))

-- No two children are on two sides of a barrier.
abbrev pub Apart : Counts → Type 0
Apart c =
    ((c.fresh ≡ 0) ⊎ (c.started + c.finished + c.over ≡ 0))
    × ((c.fresh + c.waiting + c.started ≡ 0) ⊎ (c.over ≡ 0))

pub Accounts-Apart : (n size : ℕ) (par : Parent) (c : Counts) → Accounts n size par c → Apart c
Accounts-Apart n size (gather_ready left) c h = (inr (omega (arith, h)), inr (omega (arith, h)))
Accounts-Apart n size (gather_done left) c h = (inl (omega (arith, h)), inr (omega (arith, h)))
Accounts-Apart n size (asking k) c h = (inl (omega (arith, h)), inl (omega (arith, h)))
Accounts-Apart n size (reading k left) c h = (inl (omega (arith, h)), inl (omega (arith, h)))
Accounts-Apart n size finished c h = (inl (omega (arith, h)), inl (omega (arith, h)))

pub Apart-Barriers :
    (s : System) (p q : Process)
    → Apart (counts s)
    → Counted s p
    → Counted s q
    → Barriers (stage_in p) (stage_in q)
Apart-Barriers s p q (h, k) a b =
    let u = rank-IsRanked (stage_in p) in
    let v = rank-IsRanked (stage_in q) in
    (omega (arith, h, a, b, u, v), omega (arith, k, a, b, u, v))
