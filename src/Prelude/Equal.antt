-- ===== src/Prelude/Equal.antt =====
-- Decidable equality as an interface: Python's `==` on the values that the program compares.
use Prim.Native.Nat.{ℕ, compare, Ordering}
use Prim.Native.String.{String}
use mathlib.Core.Path.{◌≡◌, refl}
use mathlib.Core.Logic.{◌↔◌, ◌⊎◌}
use mathlib.Core.List.Memᴰ
use mathlib.Core.Bool.{Bool, true, false, ◌&&◌, ◌||◌}
use mathlib.Core.List.{List, [], ◌∷◌, Memᴰ}
use mathlib.Core.Option.{Option, none, some}
use native.Mathlib.Omega.{arith}
use schema_sentry.Prelude.Lists.{Memᴰ-cons}
use text.Mathlib.Text.{◌==◌ as str_eq}
use text.Mathlib.TextEquality.{eq_iff}

pub record Eq {ℓ} (A : Type ℓ) : Type ℓ where
  pub test : A → A → Bool
  pub test_iff : (a b : A) → (test a b ≡ true) ↔ (a ≡ b)

infix 50 ◌==◌
abbrev pub ◌==◌ {ℓ} : {A : Type ℓ} ⦃e : Eq A⦄ → A → A → Bool
◌==◌ ⦃e⦄ = e.test

abbrev ℕ_test : ℕ → ℕ → Bool
ℕ_test a b = elim (compare a b) [ Ordering.eq ↦ true | _ ↦ false ]

pub ℕ_test_iff : (a b : ℕ) → (ℕ_test a b ≡ true) ↔ (a ≡ b)
ℕ_test_iff a b = ground arith

instance abbrev pub ℕ_eq : Eq ℕ
ℕ_eq = record { test = ℕ_test; test_iff = ℕ_test_iff }

instance abbrev pub String_eq : Eq String
String_eq = record { test = str_eq; test_iff = eq_iff }

abbrev Bool_test : Bool → Bool → Bool
Bool_test true b = b
Bool_test false true = false
Bool_test false false = true

pub Bool_test_iff : (a b : Bool) → (Bool_test a b ≡ true) ↔ (a ≡ b)
Bool_test_iff a b = ground arith

instance abbrev pub Bool_eq : Eq Bool
Bool_eq = record { test = Bool_test; test_iff = Bool_test_iff }

module _ {ℓ} {A : Type ℓ} ⦃e : Eq A⦄ where
  abbrev Option_test : Option A → Option A → Bool
  Option_test none none = true
  Option_test (some a) (some b) = a == b
  Option_test _ _ = false

  pub Option_test_iff : (a b : Option A) → (Option_test a b ≡ true) ↔ (a ≡ b)
  Option_test_iff none none = ground arith
  Option_test_iff (some a) (some b) = ground (arith, e.test_iff a b)
  Option_test_iff none (some b) = ground arith
  Option_test_iff (some a) none = ground arith

  instance abbrev pub Option_eq : Eq (Option A)
  Option_eq = record { test = Option_test; test_iff = Option_test_iff }

  pub test_refl : (a : A) → (a == a) ≡ true
  test_refl a = (e.test_iff a a).1 refl

  -- `a in xs`
  abbrev pub contains : A → List A → Bool
  contains a [] = false
  contains a (x ∷ xs) = a == x || contains a xs

  pub contains_head : (a : A) (xs : List A) → contains a (a ∷ xs) ≡ true
  contains_head a xs = rw (test_refl a) refl

  pub contains_tail : (a x : A) (xs : List A) → contains a xs ≡ true → contains a (x ∷ xs) ≡ true
  contains_tail a x xs h = ground arith

  pub contains_cases :
      (a x : A) (xs : List A) → contains a (x ∷ xs) ≡ true → (x ≡ a) ⊎ (contains a xs ≡ true)
  contains_cases a x xs h = ground (arith, e.test_iff a x)

  pub contains_iff : (a : A) (xs : List A) → (contains a xs ≡ true) ↔ Memᴰ a xs
  contains_iff a [] = (λ h. ground arith, λ m. absurd (Memᴰ.not-nil m))
  contains_iff a (x ∷ xs) = ground (arith, contains_iff a xs, e.test_iff a x, Memᴰ-cons a x xs)

module _ {ℓ κ} {A : Type ℓ} {B : Type κ} ⦃e : Eq A⦄ ⦃f : Eq B⦄ where
  abbrev pair_test : A × B → A × B → Bool
  pair_test x y = x.0 == y.0 && x.1 == y.1

  pub pair_test_iff : (x y : A × B) → (pair_test x y ≡ true) ↔ (x ≡ y)
  pair_test_iff x y = ground (arith, e.test_iff x.0 y.0, f.test_iff x.1 y.1)

  instance abbrev pub pair_eq : Eq (A × B)
  pair_eq = record { test = pair_test; test_iff = pair_test_iff }
