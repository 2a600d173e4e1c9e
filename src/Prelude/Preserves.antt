-- ===== src/Prelude/Preserves.antt =====
-- Methods that keep a property of the state, whether they return or raise.
use schema_sentry.Prelude.Exec.{Exec, continue, ◌>>=◌, handle}
use schema_sentry.Prelude.Result.{Result, ok, err}

module _ {ℓ κ ρ} {S : Type ℓ} {E : Type κ} (P : S → Type ρ) where
  abbrev pub Preserves {μ} : {A : Type μ} → Exec S E A → Type (ℓ ⊔ ρ)
  Preserves m = (s : S) → P s → P (m s).1

  -- The property of the state that a method which returns leaves.
  abbrev pub Returned {μ} : {A : Type μ} → Result E A × S → Type ρ
  Returned (ok a, s) = P s
  Returned (err e, s) = Unit

  pub Returned-of {μ} : {A : Type μ} (r : Result E A × S) → P r.1 → Returned r
  Returned-of (ok a, s) h = h
  Returned-of (err e, s) h = tt

  module _ {μ ν} {A : Type μ} {B : Type ν} where
    pub continue-Returned :
        (r : Result E A × S) (f : A → Exec S E B)
        → Returned r
        → ((a : A) (s : S) → P s → Returned (f a s))
        → Returned (continue r f)
    continue-Returned (ok a, s) f h rest = rest a s h
    continue-Returned (err e, s) f h rest = tt

  module _ {μ ν} {A : Type μ} {B : Type ν} where
    pub continue-keeps :
        (r : Result E A × S) (f : A → Exec S E B)
        → P r.1
        → ((a : A) → Preserves (f a))
        → P (continue r f).1
    continue-keeps (ok a, s) f h rest = rest a s h
    continue-keeps (err e, s) f h rest = h

    -- A sequence keeps what both of its parts keep.
    pub bind-keeps :
        (m : Exec S E A) (f : A → Exec S E B)
        → Preserves m
        → ((a : A) → Preserves (f a))
        → Preserves (m >>= f)
    bind-keeps m f first rest s h = continue-keeps (m s) f (first s h) rest

  module _ {μ} {A : Type μ} where
    pub handle-keeps :
        (r : Result E A × S) (f : E → Exec S E A)
        → P r.1
        → ((e : E) → Preserves (f e))
        → P (handle r f).1
    handle-keeps (ok a, s) f h rest = h
    handle-keeps (err e, s) f h rest = rest e s h
