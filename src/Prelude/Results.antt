-- ===== src/Prelude/Results.antt =====
-- `Result<A, E>` with its `?` operator as `do` notation.
use mathlib.Core.Bool.{Bool, true}

pub data Result {ℓ} (E A : Type ℓ) : Type ℓ where
  ok : A → Result E A
  err : E → Result E A

infixl 5 ◌>>=◌
abbrev pub ◌>>=◌ {ℓ} : {E A B : Type ℓ} → Result E A → (A → Result E B) → Result E B
ok a >>= f = f a
err e >>= f = err e

-- A test of the value of a result, passed by every error.
abbrev pub holds {ℓ} : {E A : Type ℓ} → (A → Bool) → Result E A → Bool
holds p (ok a) = p a
holds p (err e) = true
