-- ===== src/Prelude/Result.antt =====
-- A value, or the exception that was raised.
use mathlib.Core.Logic.{◌⊎◌, inl, inr}
use native.Mathlib.Omega.{arith}
use mathlib.Core.Path.{◌≡◌, refl}

pub data Result {ℓ κ} (E : Type ℓ) (A : Type κ) : Type (ℓ ⊔ κ) where
  err : (raised : E) → Result E A
  ok : (value : A) → Result E A

infixl 5 ◌>>=◌
-- what follows a call, which a raise leaves out
abbrev pub ◌>>=◌ {ℓ κ λ'} :
    {E : Type ℓ} {A : Type κ} {B : Type λ'} → Result E A → (A → Result E B) → Result E B
◌>>=◌ (err raised) rest = err raised
◌>>=◌ (ok value) rest = rest value

-- A returned value is the one that was given.
pub ok_injective {ℓ κ} :
    {E : Type ℓ} {A : Type κ} (a b : A) → ◌≡◌ {A = Result E A} (ok a) (ok b) → a ≡ b
ok_injective a b h = cc

pub Result-cases {ℓ κ} :
    {E : Type ℓ} {A : Type κ} (r : Result E A) → ((a : A) × (r ≡ ok a)) ⊎ ((e : E) × (r ≡ err e))
Result-cases (err e) = inr (e, refl)
Result-cases (ok a) = inl (a, refl)

-- A sequence returns what its second part returns on the value of the first.
pub returned {ℓ κ μ} :
    {E : Type ℓ} {A : Type κ} {B : Type μ} (b : B) (first : Result E A) (rest : A → Result E B)
    → ◌≡◌ {A = Result E B} (first >>= rest) (ok b)
    → (value : A) × (first ≡ ok value) × (rest value ≡ ok b)
returned b (err raised) rest h = absurd (ground (arith, h))
returned b (ok value) rest h = (value, refl, h)
