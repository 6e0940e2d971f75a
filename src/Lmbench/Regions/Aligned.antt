-- ===== src/Lmbench/Regions/Aligned.antt =====
-- The base of a measured region is the start of a page within the block.
use native.Mathlib.Nat.{div-add-mod, mod-lt, zero-mod, add-mul-mod_self_left}
use numafac.Latencies.{MemState}
use numafac.Lmbench.Regions.{Region, align, based, base_initialize}
use numafac.Prelude.{
  ℕ, ◌+◌, ◌-◌, ◌*◌, ◌/◌, ◌%◌, ◌≤◌, ◌<◌, ◌≡◌, refl, ap, ◌∙◌, inl, inr, some, arith, ◌==◌, Bool-cases,
}

past_page : (m p : ℕ) → 0 < m → p + (m - p % m) ≡ 0 + m * (p / m + 1)
past_page m p h = arrange (p / m) (p % m) (div-add-mod p m) (mod-lt p h)
  where
    arrange : (q r : ℕ) → m * q + r ≡ p → r < m → p + (m - r) ≡ 0 + m * (q + 1)
    arrange q r e b = let spread : m * (q + 1) ≡ m * q + m = omega arith in omega arith

align-page : (m p : ℕ) → 0 < m → (align m p % m ≡ 0) × (p ≤ align m p) × (align m p < p + m)
unfolding align
align-page m p h = elim (Bool-cases (p % m == 0)) [
  | inl e ↦ rw e (ground arith, omega arith, omega arith)
  | inr e ↦ rw e (
    ap (λ x. x % m) (past_page m p h) ∙ add-mul-mod_self_left 0 m (p / m + 1) ∙ zero-mod m,
    omega arith,
    ground arith,
  )
]

-- For a page size that is not zero, and where both allocations succeed, base_initialize marks the
-- region as initialized; its base is the first multiple of the page size in the block, so that
-- the region ends at least a page before the end of the block of maxlen + 2 * pagesize bytes.
pub base_initialize-page :
    (state : MemState) (p q : ℕ) (r : Region)
    → 0 < state.pagesize
    → ((base_initialize 0 state (some p) (some q) r).initialized ≡ 1)
      × ((base_initialize 0 state (some p) (some q) r).base % state.pagesize ≡ 0)
      × (p ≤ (base_initialize 0 state (some p) (some q) r).base)
      × ((base_initialize 0 state (some p) (some q) r).base + state.maxlen + state.pagesize
          < p + (state.maxlen + 2 * state.pagesize))
unfolding base_initialize based
base_initialize-page state p q r h =
    let (aligned, above, below) = align-page (state.pagesize) p h in
    (refl, aligned, above, omega (arith, below))
