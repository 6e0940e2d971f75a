-- ===== src/Libc/RoundTrip.antt =====
-- A list of numbers that a shell command prints is read back by `fgets`, `strtok` and `atoi`.
use numafac.Libc.{
  TextBytes, is_digit, is_space, decimal, decimal_fuel, decimal_fuel-append, digits_value,
  skip_spaces, scan_int, scan_signed, scan_unsigned, with_sign, atoi,
}
use numafac.Prelude.{
  ℕ, zero, suc, ◌+◌, ◌*◌, ◌/◌, ◌%◌, ◌<◌, ◌≡◌, refl, ap, ◌∙◌, inl, inr, Bool, true, false, some, [],
  ◌∷◌, ◌++◌, append-nil, arith, ltb, ltb→lt, Bool-cases, pos,
}

-- Every character satisfies `p`.
abbrev pub AllChars : (ℕ → Bool) → TextBytes → Type 0
AllChars p [] = Unit {0}
AllChars p (c ∷ s) = (p c ≡ true) × AllChars p s

decimal_fuel-AllChars :
    (f n : ℕ) (rest : TextBytes)
    → AllChars is_digit rest
    → AllChars is_digit (decimal_fuel f n rest)
unfolding decimal_fuel is_digit
decimal_fuel-AllChars zero n rest h = h
decimal_fuel-AllChars (suc f) n rest h =
    ground (arith, decimal_fuel-AllChars f (n / 10) ((48 + n % 10) ∷ rest))

pub decimal-AllChars : (n : ℕ) → AllChars is_digit (decimal n)
unfolding decimal
decimal-AllChars n = decimal_fuel-AllChars (suc n) n [] tt

-- A numeral is not empty.
decimal_fuel-cons :
    (f n : ℕ) (rest : TextBytes)
    → n < f
    → (c : ℕ) × (s : TextBytes) × (decimal_fuel f n rest ≡ c ∷ s)
unfolding decimal_fuel
decimal_fuel-cons zero n rest h = absurd (omega arith)
decimal_fuel-cons (suc f) n rest h = elim (Bool-cases (ltb n 10)) [
  | inl e ↦ (48 + n, rest, rw e)
  | inr e ↦ rw e (decimal_fuel-cons f (n / 10) ((48 + n % 10) ∷ rest) (ground arith))
]

pub decimal-cons : (n : ℕ) → (c : ℕ) × (s : TextBytes) × (decimal n ≡ c ∷ s)
unfolding decimal
decimal-cons n = decimal_fuel-cons (suc n) n [] (omega arith)

is_digit-digit : (d : ℕ) → d < 10 → is_digit (48 + d) ≡ true
unfolding is_digit
is_digit-digit d h = ground arith

digits_value-digit :
    (acc d : ℕ) (rest : TextBytes)
    → d < 10
    → digits_value acc ((48 + d) ∷ rest) ≡ digits_value (acc * 10 + d) rest
unfolding digits_value
digits_value-digit acc d rest h =
    rw (is_digit-digit d h) (ap (λ n. digits_value (acc * 10 + n) rest) (omega arith))

-- The digits of `n` lead the reader to `n`, whatever stands behind them.
digits_value-decimal_fuel :
    (f n : ℕ) (rest : TextBytes)
    → n < f
    → digits_value 0 (decimal_fuel f n rest) ≡ digits_value n rest
unfolding decimal_fuel
digits_value-decimal_fuel zero n rest h = absurd (omega arith)
digits_value-decimal_fuel (suc f) n rest h = elim (Bool-cases (ltb n 10)) [
  | inl e ↦
      rw e
        (digits_value-digit 0 n rest (ltb→lt n 10 e) ∙ ap (λ m. digits_value m rest) (omega arith))
  | inr e ↦ rw e (
      digits_value-decimal_fuel f (n / 10) ((48 + n % 10) ∷ rest) (ground arith)
      ∙ digits_value-digit (n / 10) (n % 10) rest (omega arith)
      ∙ ap (λ m. digits_value m rest) (omega arith))
]

-- Text that does not continue a numeral.
abbrev pub EndsNumeral : TextBytes → Type 0
EndsNumeral [] = Unit {0}
EndsNumeral (c ∷ s) = is_digit c ≡ false

digits_value-EndsNumeral :
    (n : ℕ) (rest : TextBytes) → EndsNumeral rest → digits_value n rest ≡ (n, rest)
unfolding digits_value
digits_value-EndsNumeral n [] h = refl
digits_value-EndsNumeral n (c ∷ s) h = rw h

-- The digits that `decimal` printed are read as the number, if no digit follows.
pub digits_value-decimal :
    (n : ℕ) (rest : TextBytes) → EndsNumeral rest → digits_value 0 (decimal n ++ rest) ≡ (n, rest)
unfolding decimal
digits_value-decimal n rest h =
    rw (← decimal_fuel-append (suc n) n [] rest)
      (digits_value-decimal_fuel (suc n) n rest (omega arith) ∙ digits_value-EndsNumeral n rest h)

-- A digit begins a number, and is neither white space nor a sign.
scan_int-digit :
    (c n : ℕ) (s rest : TextBytes)
    → is_digit c ≡ true
    → digits_value 0 (c ∷ s) ≡ (n, rest)
    → scan_int (c ∷ s) ≡ (some (pos n), rest)
unfolding scan_int skip_spaces is_space scan_signed scan_unsigned with_sign is_digit
scan_int-digit c n s rest h e = ground arith

-- `scan_int` reads a numeral that `decimal` printed, and stops behind it.
pub scan_int-decimal :
    (n : ℕ) (rest : TextBytes)
    → EndsNumeral rest
    → scan_int (decimal n ++ rest) ≡ (some (pos n), rest)
scan_int-decimal n rest h =
    let (c, s, e) = decimal-cons n in
    let digit : is_digit c ≡ true = (rw e at (decimal-AllChars n)).0 in
    rw e (scan_int-digit c n (s ++ rest) rest digit (rw e at (digits_value-decimal n rest h)))

pub atoi-decimal : (n : ℕ) → atoi (decimal n) ≡ pos n
unfolding atoi
atoi-decimal n = rw (← append-nil (decimal n)) (rw (scan_int-decimal n [] tt, atoi))

-- White space in front of a number does not matter.
pub scan_int-gap : (gap s : TextBytes) → AllChars is_space gap → scan_int (gap ++ s) ≡ scan_int s
unfolding scan_int skip_spaces
scan_int-gap [] s a = refl
scan_int-gap (c ∷ gap) s a = rw a.0 (scan_int-gap gap s a.1)
