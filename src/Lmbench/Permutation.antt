-- ===== src/Lmbench/Permutation.antt =====
-- lmbench3/src/lib_timing.c: permutation, the random order in which blocks are visited.
pub mod Shuffled
use numafac.Prelude.{
  ℕ, zero, suc, ◌+◌, ◌*◌, ◌/◌, ◌%◌, ◌^◌, Option, none, some, ◌==◌, if◌then◌else◌, ℤ, ulong, Run, ok,
  fault, ◌>>=◌, ◌>>◌, Array, load, store, fill, division_by_zero,
}

-- The exclusive or of two numbers of so many bits.
unfoldable pub xor : ℕ → ℕ → ℕ → ℕ
xor zero a b = 0
xor (suc bits) a b = (if a % 2 == b % 2 then 0 else 1) + 2 * xor bits (a / 2) (b / 2)

-- result[i] = i * (size_t)scale;
abbrev pub scaled_to : ℤ → ℕ → ℕ
scaled_to scale i = i * ulong scale % 2 ^ 64

-- v = result[k]; result[k] = result[i]; result[i] = v;
unfoldable pub swap : ℕ → ℕ → Array ℕ → Run (Array ℕ)
swap k i result = do
  v ← load result k
  x ← load result i
  result ← store result k x
  store result i v

-- for (i = max - 1; i > 0; --i), where `rand i` is what rand() gives in round i: r, and result.
unfoldable pub randomize : (ℕ → ℕ) → ℕ → ℕ → Array ℕ → Run (ℕ × Array ℕ)
randomize rand zero r result = ok (r, result)
randomize rand (suc i) r result = do
  let r = xor 64 (r * 2 % 2 ^ 64) (rand (suc i))
  result ← swap (r % (suc i + 1)) (suc i) result
  randomize rand i r result

-- permutation, with the static r before, the number that is taken for it if it is 0, and the block
-- from malloc, if there is one: r afterwards, and the result. With max 0, the loop starts at the
-- greatest size_t, and divides by i + 1.
unfoldable pub permutation : (ℕ → ℕ) → ℕ → Option (Array ℕ) → ℕ → ℤ → ℕ → Run (ℕ × Option (Array ℕ))
permutation rand seed none max scale r = ok (r, none)
permutation rand seed (some block) zero scale r = fault division_by_zero
permutation rand seed (some block) (suc n) scale r = do
  result ← fill (λ i. ok (scaled_to scale i)) (suc n) 0 block
  (r, result) ← randomize rand n (if r == 0 then seed else r) result
  ok (r, some result)
