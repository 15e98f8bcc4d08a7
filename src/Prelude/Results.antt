-- ===== src/Prelude/Results.antt =====
-- What a call over a buffer of untrusted bytes comes to: a value, a C++ exception, or a fault.
use mathlib.Core.Path.{◌≡◌, refl}
use mathlib.Core.Logic.{◌⊎◌, inl, inr}

-- `fault` is no C++ value: a read outside the buffer, or a loop whose fuel has run out.
pub data Outcome {ℓ} (E : Type 0) (A : Type ℓ) : Type ℓ where
  ok : A → Outcome E A
  throw : E → Outcome E A
  fault : Outcome E A

infixl 5 ◌>>=◌
abbrev pub ◌>>=◌ {ℓ κ} :
    {E : Type 0} {A : Type ℓ} {B : Type κ} → Outcome E A → (A → Outcome E B) → Outcome E B
ok a >>= f = f a
throw e >>= f = throw e
fault >>= f = fault

-- The result is a value that has the property, or an exception: never a fault.
abbrev pub Ensures {ℓ} : {E : Type 0} {A : Type ℓ} → (A → Type 0) → Outcome E A → Type 0
Ensures P (ok a) = P a
Ensures P (throw e) = Unit {0}
Ensures P fault = ⊥

pub Ensures-cases {ℓ} :
    {E : Type 0} {A : Type ℓ} (P : A → Type 0) (m : Outcome E A)
    → Ensures P m
    → ((a : A) × (m ≡ ok a) × P a) ⊎ ((e : E) × (m ≡ throw e))
Ensures-cases P (ok a) h = inl (a, refl, h)
Ensures-cases P (throw e) h = inr (e, refl)
Ensures-cases P fault h = absurd h
