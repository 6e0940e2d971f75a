-- ===== src/Libc/Tokens.antt =====
-- `strtok` over a text, with the rest of the text as its hidden state, and `fgets`.
use numafac.Libc.Text.{TextBytes}
use numafac.Prelude.{ℕ, zero, suc, ◌-◌, Bool, Option, none, some, [], ◌∷◌, ◌==◌, if◌then◌else◌}

-- The text from the first character on that does not satisfy `p`.
unfoldable pub skip_while : (ℕ → Bool) → TextBytes → TextBytes
skip_while p [] = []
skip_while p (c ∷ s) = if p c then skip_while p s else c ∷ s

-- The token at the front of the text, and what stands behind its delimiter.
unfoldable pub token_end : (ℕ → Bool) → TextBytes → TextBytes × TextBytes
token_end p [] = ([], [])
token_end p (c ∷ s) =
    if p c then ([], s) else (let (token, rest) = token_end p s in (c ∷ token, rest))

unfoldable pub token_at : (ℕ → Bool) → TextBytes → Option (TextBytes × TextBytes)
unfolding token_end
token_at p [] = none
token_at p (c ∷ s) = some (token_end p (c ∷ s))

-- strtok(s, delimiters), and strtok(NULL, delimiters) on the rest that it returns with the token.
unfoldable pub strtok : (ℕ → Bool) → TextBytes → Option (TextBytes × TextBytes)
unfolding skip_while token_at
strtok p s = token_at p (skip_while p s)

-- At most `n` characters of the first line, its newline included.
unfoldable pub line : ℕ → TextBytes → TextBytes
line zero s = []
line (suc n) [] = []
line (suc n) (c ∷ s) = if c == 10 then c ∷ [] else c ∷ line n s

-- fgets(buffer, n, fp): NULL at the end of the stream, and then the buffer is not written.
unfoldable pub fgets : ℕ → TextBytes → Option TextBytes
unfolding line
fgets n [] = none
fgets n (c ∷ s) = some (line (n - 1) (c ∷ s))
