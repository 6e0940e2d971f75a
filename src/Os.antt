-- ===== src/Os.antt =====
-- What the program uses of the machine: shell commands, files, directories, and CPU masks.
-- None of this is code of the repository, so it is a parameter.
use numafac.Prelude.{ok}
use numafac.Libc.{TextBytes, scan_int}
use numafac.Prelude.{ℕ, ◌≡◌, Option, none, some, List, arith, ℤ, Run, ◌>>=◌, deref}

-- The state of the machine does not change while a function runs, so the same command, file or
-- directory gives the same answer each time.
pub record Os : Type 0 where
  -- `popen(command, "r")`: what the command prints, or NULL.
  pub popen : TextBytes → Option TextBytes
  -- `fopen(path, "r")`: the content of the file, or NULL.
  pub fopen : TextBytes → Option TextBytes
  -- `opendir(path)`: the names that `readdir` returns, in its order, or NULL.
  pub opendir : TextBytes → Option (List TextBytes)

-- A type of floating point numbers, float or double, with its conversions of `scanf` and `printf`
-- and the operations used.
pub record Floats : Type 1 where
  pub F : Type 0
  -- A literal, in thousandths.
  pub thousandths : ℕ → F
  -- `fscanf(fp, "%f", &x)`, or `%lf` for a double: the number, if there is one, and what is left to
  -- read.
  pub scan : TextBytes → Option F × TextBytes
  -- `fprintf(fp, "%lf", x)`.
  pub print : F → TextBytes

-- What scanf documents of float and double: both conversions read the same numerals, and round the
-- value of the numeral each to its type.
pub record Numerals (single double : Floats) : Type 1 where
  pub Value : Type 0
  pub numeral : TextBytes → Option Value × TextBytes
  pub to_single : Value → single.F
  pub to_double : Value → double.F
  pub scan_single :
      (s : TextBytes) (v : Value) (rest : TextBytes)
      → numeral s ≡ (some v, rest)
      → single.scan s ≡ (some (to_single v), rest)
  pub scan_double :
      (s : TextBytes) (v : Value) (rest : TextBytes)
      → numeral s ≡ (some v, rest)
      → double.scan s ≡ (some (to_double v), rest)

-- fp = popen(command, "r"); fscanf(fp, "%d", &x); fclose(fp); with what `x` holds after it.
unfoldable pub read_into : Os → TextBytes → Option ℤ → Run (Option ℤ)
read_into os command x = do
  stream ← deref (os.popen command)
  ok (elim ((scan_int stream).0) [ none ↦ x | some n ↦ some n ])

-- The same at a variable that was initialised.
unfoldable pub read_int : Os → TextBytes → ℤ → Run ℤ
read_int os command x = do
  stream ← deref (os.popen command)
  ok (elim ((scan_int stream).0) [ none ↦ x | some n ↦ n ])

-- A command that runs and prints an integer is read as that integer.
pub read_int-ok :
    (os : Os) (command : TextBytes) (x n : ℤ) (s : TextBytes)
    → os.popen command ≡ some s
    → (scan_int s).0 ≡ some n
    → read_int os command x ≡ ok n
unfolding read_int
read_int-ok os command x n s h k = rw (h, deref) (ground arith)
