-- ===== src/Prelude/Runs.antt =====
-- What a call of a C function comes to: a value, a call of `exit`, undefined behaviour, or a
-- recursion that the fuel of the model did not suffice for.
use mathlib.Core.Path.{◌≡◌, refl, sym}
use mathlib.Core.Option.{Option, none, some}
use Prim.Native.Nat.{ℕ}

-- `overflow` is a write past the end of a char array, `out_of_bounds` an access outside of an array
-- of numbers, `indeterminate` a read of memory that nothing was written to, `failed_assertion` what
-- assert ends with, and `signed_overflow` an int out of its range.
pub data Fault : Type 0 where
  overflow null_pointer indeterminate out_of_bounds division_by_zero failed_assertion : Fault
  signed_overflow : Fault

pub data Run {ℓ} (A : Type ℓ) : Type ℓ where
  ok : A → Run A
  exit : ℕ → Run A
  fault : Fault → Run A
  out_of_fuel : Run A

infixl 5 ◌>>=◌ ◌>>◌
abbrev pub ◌>>=◌ {ℓ κ} : {A : Type ℓ} {B : Type κ} → Run A → (A → Run B) → Run B
ok a >>= f = f a
exit n >>= f = exit n
fault e >>= f = fault e
out_of_fuel >>= f = out_of_fuel

abbrev pub ◌>>◌ {ℓ} : {B : Type ℓ} → Run (Unit {0}) → Run B → Run B
m >> k = m >>= λ _. k

-- The use of a pointer that may be NULL.
abbrev pub deref {ℓ} : {A : Type ℓ} → Option A → Run A
deref none = fault null_pointer
deref (some a) = ok a

-- The use of a value that may not have been written.
abbrev pub determinate {ℓ} : {A : Type ℓ} → Option A → Run A
determinate none = fault indeterminate
determinate (some a) = ok a

-- An element that may lie outside.
abbrev pub element {ℓ} : {A : Type ℓ} → Option A → Run A
element none = fault out_of_bounds
element (some a) = ok a

-- Total correctness: the run returns, and its value satisfies `P`.
abbrev pub Returns {ℓ} : {A : Type ℓ} → Run A → (A → Type 0) → Type 0
Returns (ok a) P = P a
Returns (exit n) P = ⊥
Returns (fault e) P = ⊥
Returns out_of_fuel P = ⊥

module _ {ℓ} {A : Type ℓ} {P Q : A → Type 0} where
  pub Returns_mono : (r : Run A) → ((a : A) → P a → Q a) → Returns r P → Returns r Q
  Returns_mono (ok a) f h = f a h
  Returns_mono (exit n) f h = elim h [ ]
  Returns_mono (fault e) f h = elim h [ ]
  Returns_mono out_of_fuel f h = elim h [ ]

-- The value of a run that returns, and `d` for any other.
abbrev pub value_or {ℓ} : {A : Type ℓ} → A → Run A → A
value_or d (ok a) = a
value_or d (exit n) = d
value_or d (fault e) = d
value_or d out_of_fuel = d

pub Returns-value_or {ℓ} :
    {A : Type ℓ} (P : A → Type 0) (d : A) (r : Run A) → Returns r P → r ≡ ok (value_or d r)
Returns-value_or P d (ok a) h = refl
Returns-value_or P d (exit n) h = elim h [ ]
Returns-value_or P d (fault e) h = elim h [ ]
Returns-value_or P d out_of_fuel h = elim h [ ]

pub bind_assoc {ℓ κ μ} :
    {A : Type ℓ} {B : Type κ} {C : Type μ} (m : Run A) (f : A → Run B) (g : B → Run C)
    → ((m >>= f) >>= g) ≡ (m >>= λ a. f a >>= g)
bind_assoc (ok a) f g = refl
bind_assoc (exit n) f g = refl
bind_assoc (fault e) f g = refl
bind_assoc out_of_fuel f g = refl

pub bind_cong {ℓ κ} :
    {A : Type ℓ} {B : Type κ} (m : Run A) (f g : A → Run B)
    → ((a : A) → f a ≡ g a)
    → (m >>= f) ≡ (m >>= g)
bind_cong (ok a) f g h = h a
bind_cong (exit n) f g h = refl
bind_cong (fault e) f g h = refl
bind_cong out_of_fuel f g h = refl

-- A chain that returns: its first part does, and so does the rest on that value.
pub first_returns {ℓ κ} :
    {X : Type ℓ} {Y : Type κ} {y : Y} (k : X → Run Y) (r : Run X)
    → ok y ≡ (r >>= k)
    → (x : X) × (k x ≡ ok y) × (r ≡ ok x)
first_returns k out_of_fuel e = cc
first_returns k (fault x) e = cc
first_returns k (exit n) e = cc
first_returns k (ok x) e = (x, sym e, refl)

-- The rule for a chain: what holds of the value of the first part is enough for the second.
pub Returns-bind {ℓ κ} :
    {A : Type ℓ} {B : Type κ} (P : A → Type 0) (Q : B → Type 0) (r : Run A) (f : A → Run B)
    → Returns r P
    → ((a : A) → P a → Returns (f a) Q)
    → Returns (r >>= f) Q
Returns-bind P Q (ok a) f h k = k a h
Returns-bind P Q (exit n) f h k = elim h [ ]
Returns-bind P Q (fault e) f h k = elim h [ ]
Returns-bind P Q out_of_fuel f h k = elim h [ ]

-- Partial correctness: if the run returns, its value satisfies `P`.
abbrev pub Ensures {ℓ} : {A : Type ℓ} → Run A → (A → Type 0) → Type 0
Ensures (ok a) P = P a
Ensures (exit n) P = Unit {0}
Ensures (fault e) P = Unit {0}
Ensures out_of_fuel P = Unit {0}

pub Ensures-bind {ℓ κ} :
    {A : Type ℓ} {B : Type κ} (P : A → Type 0) (Q : B → Type 0) (r : Run A) (f : A → Run B)
    → Ensures r P
    → ((a : A) → P a → Ensures (f a) Q)
    → Ensures (r >>= f) Q
Ensures-bind P Q (ok a) f h k = k a h
Ensures-bind P Q (exit n) f h k = tt
Ensures-bind P Q (fault e) f h k = tt
Ensures-bind P Q out_of_fuel f h k = tt

pub Ensures_always {ℓ} : {A : Type ℓ} (P : A → Type 0) (r : Run A) → ((a : A) → P a) → Ensures r P
Ensures_always P (ok a) k = k a
Ensures_always P (exit n) k = tt
Ensures_always P (fault e) k = tt
Ensures_always P out_of_fuel k = tt

-- A run that returns has what it ensures, too.
pub Returns_with {ℓ} :
    {A : Type ℓ} (P Q : A → Type 0) (r : Run A)
    → Returns r P
    → Ensures r Q
    → Returns r (λ a. P a × Q a)
Returns_with P Q (ok a) h e = (h, e)
Returns_with P Q (exit n) h e = elim h [ ]
Returns_with P Q (fault f) h e = elim h [ ]
Returns_with P Q out_of_fuel h e = elim h [ ]

pub Ensures_mono {ℓ} :
    {A : Type ℓ} (P Q : A → Type 0) (r : Run A) → ((a : A) → P a → Q a) → Ensures r P → Ensures r Q
Ensures_mono P Q (ok a) k h = k a h
Ensures_mono P Q (exit n) k h = tt
Ensures_mono P Q (fault e) k h = tt
Ensures_mono P Q out_of_fuel k h = tt

pub Returns-Ensures {ℓ} : {A : Type ℓ} (P : A → Type 0) (r : Run A) → Returns r P → Ensures r P
Returns-Ensures P out_of_fuel h = tt
Returns-Ensures P (fault e) h = tt
Returns-Ensures P (exit n) h = tt
Returns-Ensures P (ok a) h = h
