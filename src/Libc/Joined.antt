-- ===== src/Libc/Joined.antt =====
-- Numbers on one line, joined by a separator, are read back by `fgets`, `strtok` and `atoi`.
use numafac.Libc.{fgets}
use numafac.Libc.{TextBytes, is_digit, decimal, strtok, token_end, line}
use numafac.Libc.RoundTrip.{AllChars, decimal-AllChars, decimal-cons}
use numafac.Prelude.{
  ℕ, zero, suc, ◌+◌, ◌-◌, ◌≤◌, ◌<◌, ◌≡◌, refl, ap, ◌∙◌, ◌≢◌, Bool, true, false, some, List, [], ◌∷◌,
  ◌++◌, arith, ◌==◌, length, length-append,
}

-- The numbers with `sep` between them and a newline behind the last.
unfoldable pub joined : ℕ → List ℕ → TextBytes
joined sep [] = []
joined sep (n ∷ []) = decimal n ++ (10 ∷ [])
joined sep (n ∷ m ∷ ns) = decimal n ++ sep ∷ joined sep (m ∷ ns)

-- A set of delimiters that holds the separator and the newline, and no digit.
pub record IsDelimiter (p : ℕ → Bool) (sep : ℕ) : Type 0 where
  pub separates : p sep ≡ true
  pub newline : p 10 ≡ true
  pub no_digit : (c : ℕ) → is_digit c ≡ true → p c ≡ false

module _ (p : ℕ → Bool) (no_digit : (c : ℕ) → is_digit c ≡ true → p c ≡ false) where
  token_end-digits :
      (s rest : TextBytes) (d : ℕ)
      → AllChars is_digit s
      → p d ≡ true
      → token_end p (s ++ d ∷ rest) ≡ (s, rest)
  unfolding token_end
  token_end-digits [] rest d h q = rw q
  token_end-digits (c ∷ s) rest d h q = rw (no_digit c h.0, token_end-digits s rest d h.1 q)

  -- `strtok` splits a numeral off at the delimiter behind it.
  pub strtok-decimal :
      (n d : ℕ) (rest : TextBytes)
      → p d ≡ true
      → strtok p (decimal n ++ d ∷ rest) ≡ some (decimal n, rest)
  unfolding strtok
  strtok-decimal n d rest q =
      let (c, s, e) = decimal-cons n in
      let digits : AllChars is_digit (c ∷ s) = rw e at (decimal-AllChars n) in
      rw e (opened c s digits)
    where
      opened :
          (c : ℕ) (s : TextBytes)
          → AllChars is_digit (c ∷ s)
          → strtok p (c ∷ s ++ d ∷ rest) ≡ some (c ∷ s, rest)
      opened c s digits =
          rw (no_digit c digits.0) (ap some (token_end-digits (c ∷ s) rest d digits q))

module _ (p : ℕ → Bool) (sep : ℕ) (d : IsDelimiter p sep) where
  pub strtok-joined :
      (n : ℕ) (ns : List ℕ) → strtok p (joined sep (n ∷ ns)) ≡ some (decimal n, joined sep ns)
  unfolding joined
  strtok-joined n [] = strtok-decimal p d.no_digit n 10 [] d.newline
  strtok-joined n (m ∷ ns) = strtok-decimal p d.no_digit n sep (joined sep (m ∷ ns)) d.separates

digit-ne-newline : (c : ℕ) → is_digit c ≡ true → (c == 10) ≡ false
unfolding is_digit
digit-ne-newline c h = ground arith

-- The end of a line of which the buffer still has room for one character.
line-newline : (k : ℕ) → 0 < k → line k (10 ∷ []) ≡ 10 ∷ []
unfolding line
line-newline zero h = elim h [ ]
line-newline (suc k) h = refl

line-separator :
    (k sep : ℕ) (rest : TextBytes)
    → sep ≢ 10
    → 0 < k
    → line (k - 1) rest ≡ rest
    → line k (sep ∷ rest) ≡ sep ∷ rest
unfolding line
line-separator zero sep rest ne h e = elim h [ ]
line-separator (suc k) sep rest ne h e =
    let e' : line k rest ≡ rest = ap (λ n. line n rest) (omega arith) ∙ e in ground arith

line-digits :
    (k : ℕ) (s rest : TextBytes)
    → AllChars is_digit s
    → length s ≤ k
    → line k (s ++ rest) ≡ s ++ line (k - length s) rest
unfolding line
line-digits k [] rest h q = ap (λ n. line n rest) (omega arith)
line-digits zero (c ∷ s) rest h q = absurd (omega arith)
line-digits (suc k) (c ∷ s) rest h q = rw (digit-ne-newline c h.0) (
    ap (λ t. c ∷ t)
      (line-digits k s rest h.1 (omega arith) ∙ ap (λ n. s ++ line n rest) (omega arith)))

-- A line that fits into the buffer is read whole.
pub line-joined :
    (sep k : ℕ) (ns : List ℕ)
    → sep ≢ 10
    → length (joined sep ns) ≤ k
    → line k (joined sep ns) ≡ joined sep ns
unfolding joined line
line-joined sep zero [] ne h = refl
line-joined sep (suc k) [] ne h = refl
line-joined sep k (n ∷ []) ne h =
    let room : length (decimal n) + 1 ≤ k =
      omega (arith, length-append {0} (decimal n) (10 ∷ [])) in
    line-digits k (decimal n) (10 ∷ []) (decimal-AllChars n) (omega arith)
    ∙ ap (λ t. decimal n ++ t) (line-newline (k - length (decimal n)) (omega arith))
line-joined sep k (n ∷ m ∷ ns) ne h =
    let tail = joined sep (m ∷ ns) in
    let room : length (decimal n) + suc (length tail) ≤ k =
      omega (arith, length-append {0} (decimal n) (sep ∷ tail)) in
    line-digits k (decimal n) (sep ∷ tail) (decimal-AllChars n) (omega arith)
    ∙ ap (λ t. decimal n ++ t)
        (line-separator (k - length (decimal n)) sep tail ne (omega arith)
          (line-joined sep (k - length (decimal n) - 1) (m ∷ ns) ne (omega arith)))

fgets-line : (n : ℕ) (s : TextBytes) → s ≢ [] → fgets n s ≡ some (line (n - 1) s)
unfolding fgets
fgets-line n [] h = absurd (h refl)
fgets-line n (c ∷ s) h = refl

module _ (p : ℕ → Bool) (sep : ℕ) (d : IsDelimiter p sep) (n : ℕ) (ns : List ℕ) where
  joined-ne-nil : joined sep (n ∷ ns) ≢ []
  unfolding strtok
  joined-ne-nil e = cc (rw e at (strtok-joined p sep d n ns))

  -- `fgets` with room for the line and the NUL reads the whole line.
  pub fgets-joined :
      (k : ℕ)
      → sep ≢ 10
      → length (joined sep (n ∷ ns)) ≤ k
      → fgets (k + 1) (joined sep (n ∷ ns)) ≡ some (joined sep (n ∷ ns))
  fgets-joined k ne h =
      fgets-line (k + 1) (joined sep (n ∷ ns)) joined-ne-nil
      ∙ ap some (line-joined sep (k + 1 - 1) (n ∷ ns) ne (omega arith))
