-- ===== src/Lmbench/Child/Stages.antt =====
-- What can be seen of a child from outside.
use numafac.Lmbench.Results.{Results}
use numafac.Lmbench.Child.{Phase, warmup, timing_interval, cooldown, Child}
use numafac.Prelude.{Bool, true, false}

-- What the parent has heard of a child: nothing; that it is ready; that, and it has told the child
-- to start; that it is done; and nothing will follow, its results being these.
pub data Stage : Type 0 where
  fresh waiting started finished : Stage
  over : Results → Stage

-- The stage of a child by its state.
abbrev pub stage_of : Phase → Bool → Stage
stage_of warmup true = fresh
stage_of warmup false = waiting
stage_of timing_interval b = started
stage_of cooldown b = finished

abbrev pub stage : Child → Stage
stage c = stage_of (c.phase) (c.need_warmup)

abbrev pub after : Bool → Child → Stage
after true c = over (c.r)
after false c = stage c
