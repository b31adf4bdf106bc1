-- ===== src/Common/Results.antt =====
-- Rust's `Result<T, E>`, with `?` as bind.
use mathlib.Core.Bool.{Bool, true, false}

pub data Result {ℓ κ} (A : Type ℓ) (E : Type κ) : Type (ℓ ⊔ κ) where
  ok : A → Result A E
  err : E → Result A E

infixl 5 ◌>>=◌ ◌>>◌
abbrev pub ◌>>=◌ {ℓ κ ν} :
    {A : Type ℓ} {B : Type κ} {E : Type ν} → Result A E → (A → Result B E) → Result B E
ok a >>= f = f a
err e >>= f = err e

abbrev pub ◌>>◌ {κ ν} : {B : Type κ} {E : Type ν} → Result (Unit {0}) E → Result B E → Result B E
m >> k = m >>= λ _. k

-- `if !test { return Err(e) }`
abbrev pub guard {ν} : {E : Type ν} → Bool → E → Result (Unit {0}) E
guard true e = ok tt
guard false e = err e
