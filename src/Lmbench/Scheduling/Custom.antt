-- ===== src/Lmbench/Scheduling/Custom.antt =====
-- The list of processors that a user gives.
use numafac.Libc.{TextBytes, decimal}
use numafac.Prelude.{ℕ, List, [], ◌∷◌, ◌++◌, Run, ok, ◌>>=◌}

-- Each number with a blank behind it.
abbrev pub spaced : List ℕ → TextBytes → TextBytes
spaced [] rest = rest
spaced (n ∷ ns) rest = decimal n ++ (32 ∷ spaced ns rest)

-- The values of the numbers in front, and what is made of the rest of the text.
with_values : List ℕ → Run (List ℕ) → Run (List ℕ)
with_values [] r = r
with_values (n ∷ ns) r = with_values ns r >>= λ vs. ok (n ∷ vs)
