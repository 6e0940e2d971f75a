-- ===== src/Lmbench/System/Exchange.antt =====
-- What the parent and the children know of each other, in every state that they reach.
use numafac.Lmbench.System.{reading, finished, Process, stage_in, System, bytes_of, Reached}
use numafac.Lmbench.Child.{Doubles, report}
use numafac.Lmbench.Child.Progress.{Each}
use numafac.Lmbench.System.Counting.{counts}
use numafac.Lmbench.System.Steps.{at_parent, Reached-IsSound}
use numafac.Lmbench.System.Barriers.{Barriers, Apart-Barriers, Accounts-Apart, member-Counted}
use numafac.Lmbench.System.Bytes.{Answers, awaited, Accounts-Answers, Accounts-awaited}
use numafac.Lmbench.System.Complete.{IsComplete, Accounts-IsComplete}
use numafac.Lmbench.System.Reports.{reports_of}
use numafac.Lmbench.System.Collected.{at_parent-Collected, Reached-IsCollected, whole_report}
use mathlib.Core.List.{Perm}
use numafac.Lmbench.Results.{Results}
use numafac.Prelude.{ℕ, ◌≤◌, ◌<◌, ◌≡◌, List, ◌∷◌, ◌++◌, length, ℤ}

module _ {D : Type 0} (dbl : Doubles D) (n size : ℕ) (room : 0 < size) where
  -- Where a report has at least a byte, of two children of benchmp_parent, in every state that is
  -- reached, in whatever order parent and children run: no child starts its timing before each
  -- child has said that it is ready, and no child reports before each child has done its timing.
  pub Reached-Barriers :
      (get_n enough iterations : ℕ) (repetitions : ℤ) (s : System)
      → Reached dbl n size get_n enough iterations repetitions s
      → (xs : List Process) (p : Process) (ys : List Process) → s.processes ≡ xs ++ p ∷ ys
      → (us : List Process) (q : Process) (vs : List Process) → s.processes ≡ us ++ q ∷ vs
      → Barriers (stage_in p) (stage_in q)
  Reached-Barriers get_n enough iterations repetitions s r xs p ys e us q vs f =
      Apart-Barriers s p q
        (Accounts-Apart n size (s.parent) (counts s)
          (Reached-IsSound dbl n size room get_n enough iterations repetitions r))
        (member-Counted s xs p ys e) (member-Counted s us q vs f)

  -- Where a report has at least a byte, in every state that is reached, all that is in the pipe
  -- `response` is what benchmp_parent waits for in the loop where it stands (bytes of children that
  -- are ready, or done, or of results), and no more than it still reads there.
  pub Reached-Answers :
      (get_n enough iterations : ℕ) (repetitions : ℤ) (s : System)
      → Reached dbl n size get_n enough iterations repetitions s
      → Each (Answers (s.parent)) (s.response) × (length (s.response) ≤ awaited (s.parent))
  Reached-Answers get_n enough iterations repetitions s r =
      let h = Reached-IsSound dbl n size room get_n enough iterations repetitions r in
      (Accounts-Answers n size (s.parent) s h, Accounts-awaited n size (s.parent) s h)

  -- Where a report has at least a byte, in every state that is reached and in which benchmp_parent
  -- has read the last byte of a report, the bytes that it read since it asked are those of the
  -- report of one child, which it has not merged before: with it, what was merged is what the
  -- children reported, each report once.
  pub Reached-reading :
      (get_n enough iterations : ℕ) (repetitions : ℤ) (s : System)
      → Reached dbl n size get_n enough iterations repetitions s
      → (k : ℕ) → s.parent ≡ reading k 0
      → (r : Results) × (s.buffer ≡ bytes_of size (report r))
        × Perm (reports_of (s.processes)) (r ∷ s.merged)
  Reached-reading get_n enough iterations repetitions s r k e =
      whole_report dbl n size room k s
        (at_parent dbl n size room s (reading k 0) e
          (Reached-IsSound dbl n size room get_n enough iterations repetitions r))
        (at_parent-Collected dbl n size room s (reading k 0) e
          (Reached-IsCollected dbl n size room get_n enough iterations repetitions r))

  -- Where a report has at least a byte, from benchmp_parent and n children, just forked, in
  -- whatever order these run: when benchmp_parent has merged the last results, each of the children
  -- that it forked has reported, what was merged is what they reported, each report once, and
  -- nothing is left in the pipes.
  pub Reached-IsComplete :
      (get_n enough iterations : ℕ) (repetitions : ℤ) (s : System)
      → Reached dbl n size get_n enough iterations repetitions s
      → s.parent ≡ finished
      → IsComplete n s
  Reached-IsComplete get_n enough iterations repetitions s r e =
      Accounts-IsComplete n size s
        (at_parent dbl n size room s finished e
          (Reached-IsSound dbl n size room get_n enough iterations repetitions r))
        (at_parent-Collected dbl n size room s finished e
          (Reached-IsCollected dbl n size room get_n enough iterations repetitions r))
