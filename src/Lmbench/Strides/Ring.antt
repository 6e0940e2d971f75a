-- ===== src/Lmbench/Strides/Ring.antt =====
-- stride_initialize links the addresses of the region into one ring, if the pointers do not overlap.
use numafac.Lmbench.Strides.{Memory}
use numafac.Prelude.{ℕ, zero, suc, ◌+◌, ◌≤◌, ◌<◌, ◌≡◌, Option, none, some, List, [], ◌∷◌, length}

-- Each address points to the next one, and the last to `first`.
abbrev pub Circular : Memory → ℕ → ℕ → List ℕ → Type 0
Circular memory first a [] = memory a ≡ some first
Circular memory first a (b ∷ xs) = (memory a ≡ some b) × Circular memory first b xs

-- The addresses behind `a`, each a stride further, up to the last one below the end.
abbrev pub Strided : ℕ → ℕ → ℕ → List ℕ → Type 0
Strided end stride a [] = end ≤ a + stride
Strided end stride a (b ∷ xs) = (b ≡ a + stride) × (b < end) × Strided end stride b xs

-- The pointer that is reached by following so many.
abbrev pub follow : Memory → ℕ → ℕ → Option ℕ
follow memory zero p = some p
follow memory (suc n) p = elim (memory p) [ none ↦ none | some q ↦ follow memory n q ]

module _ (addr range stride : ℕ) where
  -- What the loop leaves, where `a` is the address in front of `i`.
  Rings : ℕ → Memory → Memory → Type 0
  Rings a before memory =
      ((x : ℕ) → x + 8 ≤ a → memory x ≡ before x)
      × (xs : List ℕ) × Strided (addr + range) stride a xs
      × Circular memory addr a xs

  -- What stride_initialize returns.
  abbrev pub IsRing : Memory × ℕ → Type 0
  IsRing (memory, first) =
      (first ≡ addr)
      × (xs : List ℕ) × Strided (addr + range) stride addr xs
      × Circular memory addr addr xs
      × (follow memory (suc (length xs)) addr ≡ some addr)
