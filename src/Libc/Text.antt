-- ===== src/Libc/Text.antt =====
-- C strings as their bytes, without the terminating NUL, and the decimal printing of `sprintf`.
use Prim.Native.Char.{code}
use Prim.Native.String.{String}
use numafac.Prelude.{
  ℕ, zero, suc, ◌+◌, ◌*◌, ◌/◌, ◌%◌, ◌^◌, ◌≤◌, ◌<◌, ◌≡◌, refl, Bool, true, false, ◌&&◌, ◌||◌, List,
  [], ◌∷◌, ◌++◌, arith, ltb, leb, ◌==◌, if◌then◌else◌, length, ℤ, pos, negsuc, pos_part, neg_part,
}

abbrev pub TextBytes : Type 0
TextBytes = List ℕ

-- The bytes of a literal of ASCII characters.
abbrev pub codes : String → TextBytes
codes String.[] = []
codes (String.◌∷◌ c s) = code c ∷ codes s

unfoldable pub is_digit : ℕ → Bool
is_digit c = leb 48 c && leb c 57

-- What `isspace` accepts in the C locale.
unfoldable pub is_space : ℕ → Bool
is_space c = c == 32 || (leb 9 c && leb c 13)

-- strcmp(s, t) == 0.
unfoldable pub same_text : TextBytes → TextBytes → Bool
same_text [] [] = true
same_text [] (d ∷ t) = false
same_text (c ∷ s) [] = false
same_text (c ∷ s) (d ∷ t) = c == d && same_text s t

-- strncmp(p, s, strlen(p)) == 0.
unfoldable pub starts_with : TextBytes → TextBytes → Bool
starts_with [] s = true
starts_with (c ∷ p) [] = false
starts_with (c ∷ p) (d ∷ s) = c == d && starts_with p s

pub same_text→eq : (s t : TextBytes) → same_text s t ≡ true → s ≡ t
unfolding same_text
same_text→eq [] [] h = refl
same_text→eq [] (d ∷ t) h = ground arith
same_text→eq (c ∷ s) [] h = ground arith
same_text→eq (c ∷ s) (d ∷ t) h = ground (arith, same_text→eq s t)

pub same_text_refl : (s : TextBytes) → same_text s s ≡ true
unfolding same_text
same_text_refl [] = refl
same_text_refl (c ∷ s) = ground (arith, same_text_refl s)

-- The digits of `n` in front of `rest`; a number has fewer digits than `n + 1`.
unfoldable pub decimal_fuel : ℕ → ℕ → TextBytes → TextBytes
decimal_fuel zero n rest = rest
decimal_fuel (suc f) n rest =
    let longer = decimal_fuel f (n / 10) ((48 + n % 10) ∷ rest) in
    if ltb n 10 then (48 + n) ∷ rest else longer

unfoldable pub decimal : ℕ → TextBytes
unfolding decimal_fuel
decimal n = decimal_fuel (suc n) n []

-- sprintf(s, "%i", n).
unfoldable pub sprintf_i : ℤ → TextBytes
unfolding decimal
sprintf_i (pos n) = decimal n
sprintf_i (negsuc n) = 45 ∷ decimal (suc n)

pub decimal_fuel-append :
    (f n : ℕ) (xs ys : TextBytes) → decimal_fuel f n (xs ++ ys) ≡ decimal_fuel f n xs ++ ys
unfolding decimal_fuel
decimal_fuel-append zero n xs ys = refl
decimal_fuel-append (suc f) n xs ys =
    ground (arith, decimal_fuel-append f (n / 10) ((48 + n % 10) ∷ xs) ys)

-- 10 ^ k, by recursion.
abbrev pub pow10 : ℕ → ℕ
pow10 zero = 1
pow10 (suc k) = 10 * pow10 k

length-decimal_fuel :
    (k f n : ℕ) (rest : TextBytes)
    → n < pow10 (suc k)
    → length (decimal_fuel f n rest) ≤ suc k + length rest
unfolding decimal_fuel
length-decimal_fuel k zero n rest h = omega arith
length-decimal_fuel zero (suc f) n rest h = ground arith
length-decimal_fuel (suc k) (suc f) n rest h =
    ground (arith, length-decimal_fuel k f (n / 10) ((48 + n % 10) ∷ rest) (omega arith))

-- A number below 10 ^ k has at most k digits, for k > 0.
pub length-sprintf_i_pos : (k n : ℕ) → n < pow10 (suc k) → length (sprintf_i (pos n)) ≤ suc k
unfolding sprintf_i
length-sprintf_i_pos k n h = omega (arith, length-decimal_fuel k (suc n) n [] h)

-- An `int` has at most eleven characters.
pub length-sprintf_i : (n : ℤ) → pos_part n + neg_part n ≤ 2 ^ 31 → length (sprintf_i n) ≤ 11
unfolding sprintf_i
length-sprintf_i (pos n) h = omega (arith, length-decimal_fuel 9 (suc n) n [] (omega arith))
length-sprintf_i (negsuc n) h =
    omega (arith, length-decimal_fuel 9 (suc (suc n)) (suc n) [] (omega arith))
