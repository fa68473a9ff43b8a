-- ===== src/Prelude/Run.antt =====
-- The outcome of a run of C code: a value, the exit of `lprintf(fatal, …)`, an access outside an
-- object, or a loop that has used up its fuel.
use mathlib.Core.Path.{◌≡◌, ap, ◌∙◌}

pub data Run {ℓ} (A : Type ℓ) : Type ℓ where
  ok : A → Run A
  fatal : Run A
  fault : Run A
  out_of_fuel : Run A

infixl 5 ◌>>=◌
abbrev pub ◌>>=◌ {ℓ κ} : {A : Type ℓ} {B : Type κ} → Run A → (A → Run B) → Run B
ok a >>= f = f a
fatal >>= f = fatal
fault >>= f = fault
out_of_fuel >>= f = out_of_fuel

-- The run ends with a value that satisfies `P`.
abbrev pub Returns {ℓ κ} : {A : Type ℓ} → Run A → (A → Type κ) → Type (ℓ ⊔ κ)
Returns {A = A} m P = (a : A) × (m ≡ ok a) × P a

-- The value of a run, or another one where it has none.
abbrev pub value_or {ℓ} : {A : Type ℓ} → A → Run A → A
value_or a (ok b) = b
value_or a fatal = a
value_or a fault = a
value_or a out_of_fuel = a

pub ok-injective {ℓ} : {A : Type ℓ} → (a b : A) → ok a ≡ ok b → a ≡ b
ok-injective a b e = ap (value_or a) e

-- One part of a run after the other.
pub Returns-bind {ℓ κ μ ν} :
    {A : Type ℓ} {B : Type κ} {P : A → Type μ} {Q : B → Type ν} {m : Run A} {f : A → Run B}
    → Returns m P
    → ((a : A) → P a → Returns (f a) Q)
    → Returns (m >>= f) Q
Returns-bind {f = f} (a, e, p) k = let (b, e', q) = k a p in (b, ap (λ m. m >>= f) e ∙ e', q)
