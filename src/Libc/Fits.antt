-- ===== src/Libc/Fits.antt =====
-- A command that is put together by `strcpy` and `strcat` fits its buffer if the lengths add up.
use numafac.Libc.{TextBytes, strcpy, strcat, strcat-ok, strcpy-ok}
use numafac.Prelude.{ℕ, ◌+◌, ◌≤◌, ◌<◌, ◌++◌, arith, length, length-append, Run, ◌>>=◌, Returns}

abbrev pub FitsIn : ℕ → TextBytes → Type 0
FitsIn cap c = length c < cap

module _ (cap : ℕ) where
  pub strcpy-then :
      (s : TextBytes) (n : ℕ) (k : TextBytes → Run TextBytes)
      → length s ≤ n
      → n < cap
      → ((b : TextBytes) → length b ≤ n → Returns (k b) (FitsIn cap))
      → Returns (strcpy cap s >>= k) (FitsIn cap)
  strcpy-then s n k h fits rest = rw (strcpy-ok cap s (omega arith)) (rest s h)

  pub strcat-then :
      (buffer s : TextBytes) (n m : ℕ) (k : TextBytes → Run TextBytes)
      → length buffer ≤ n
      → length s ≤ m
      → n + m < cap
      → ((b : TextBytes) → length b ≤ n + m → Returns (k b) (FitsIn cap))
      → Returns (strcat cap buffer s >>= k) (FitsIn cap)
  strcat-then buffer s n m k h h' fits rest =
      rw (strcat-ok cap buffer s (omega arith))
        (rest (buffer ++ s) (rw length-append (omega arith)))

pub strcat-last :
    (cap : ℕ) (buffer s : TextBytes)
    → length buffer + length s < cap
    → Returns (strcat cap buffer s) (λ b. length b < cap)
strcat-last cap buffer s h = rw (strcat-ok cap buffer s h) (rw length-append h)
