-- ===== src/Libc/Scan.antt =====
-- `fscanf` with `%d`, and `atoi`. A stream is the text that is left to read.
-- Numerals outside of the range of `int` are undefined in C; here they are read exactly.
use numafac.Libc.Text.{TextBytes, is_digit, is_space}
use numafac.Prelude.{
  ℕ, ◌+◌, ◌-◌, ◌*◌, Option, none, some, [], ◌∷◌, ◌==◌, if◌then◌else◌, ℤ, pos, negate,
}

unfoldable pub skip_spaces : TextBytes → TextBytes
unfolding is_space
skip_spaces [] = []
skip_spaces (c ∷ s) = if is_space c then skip_spaces s else c ∷ s

-- The digits at the front continue the numeral `acc`.
unfoldable pub digits_value : ℕ → TextBytes → ℕ × TextBytes
unfolding is_digit
digits_value acc [] = (acc, [])
digits_value acc (c ∷ s) = if is_digit c then digits_value (acc * 10 + (c - 48)) s else (acc, c ∷ s)

unfoldable pub scan_unsigned : TextBytes → Option ℕ × TextBytes
unfolding digits_value is_digit
scan_unsigned [] = (none, [])
scan_unsigned (c ∷ s) =
    if is_digit c then (let (n, rest) = digits_value 0 (c ∷ s) in (some n, rest)) else (none, c ∷ s)

unfoldable pub with_sign : (ℕ → ℤ) → Option ℕ × TextBytes → Option ℤ × TextBytes
with_sign f (none, rest) = (none, rest)
with_sign f (some n, rest) = (some (f n), rest)

unfoldable pub scan_signed : TextBytes → Option ℤ × TextBytes
unfolding scan_unsigned with_sign
scan_signed [] = (none, [])
scan_signed (c ∷ s) =
    if c == 45
    then with_sign negate (scan_unsigned s)
    else if c == 43
    then with_sign pos (scan_unsigned s)
    else with_sign pos (scan_unsigned (c ∷ s))

-- fscanf(fp, "%d", &n): the number, if the conversion succeeds, and what is left of the stream.
unfoldable pub scan_int : TextBytes → Option ℤ × TextBytes
unfolding scan_signed skip_spaces
scan_int s = scan_signed (skip_spaces s)

-- atoi(s) is 0 where no number stands.
unfoldable pub atoi : TextBytes → ℤ
unfolding scan_int
atoi s = elim ((scan_int s).0) [ none ↦ pos 0 | some n ↦ n ]

-- The characters up to the next white space.
unfoldable pub until_space : TextBytes → TextBytes
unfolding is_space
until_space [] = []
until_space (c ∷ s) = if is_space c then [] else c ∷ until_space s

-- fscanf(fp, "%s", buffer), whose word is empty if the conversion fails.
unfoldable pub scan_word : TextBytes → TextBytes
unfolding skip_spaces until_space
scan_word s = until_space (skip_spaces s)
