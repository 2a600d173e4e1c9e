-- ===== src/Prelude/Sets.antt =====
-- Python's `set` of a list, as the list of its elements without repetition.
use mathlib.Core.Path.{◌≡◌, refl, ap, sym, ◌∙◌, subst}
use mathlib.Core.Logic.{◌↔◌, inl, inr}
use mathlib.Core.Bool.{Bool, false}
use mathlib.Core.List.{List, [], ◌∷◌, map, Memᴰ}
use mathlib.Core.List.Memᴰ
use Prim.Native.Nat.{◌≤◌}
use native.Mathlib.Omega.{arith}
use schema_sentry.Prelude.Tests.{if◌then◌else◌, Bool-cases}
use schema_sentry.Prelude.Lists.{length, filter, Memᴰ-cons, mem-map_of_mem}
use schema_sentry.Prelude.Equal.{Eq, contains, contains_iff}

module _ {ℓ} {A : Type ℓ} ⦃e : Eq A⦄ where
  abbrev pub to_set : List A → List A
  to_set [] = []
  to_set (x ∷ xs) = let rest = to_set xs in if contains x xs then rest else x ∷ rest

  abbrev pub IsUnique : List A → Type 0
  IsUnique [] = Unit
  IsUnique (x ∷ xs) = (contains x xs ≡ false) × IsUnique xs

  pub Memᴰ-to_set : (a : A) (xs : List A) → Memᴰ a (to_set xs) ↔ Memᴰ a xs
  Memᴰ-to_set a [] = (λ m. m, λ m. m)
  Memᴰ-to_set a (x ∷ xs) = ground (
    arith,
    Memᴰ-to_set a xs,
    Memᴰ-cons a x xs,
    Memᴰ-cons a x (to_set xs),
    contains_iff x xs,
    same_mem,
  )
    where
      same_mem : a ≡ x → Memᴰ x xs → Memᴰ a xs
      same_mem same m = ground (arith, same, m)

  pub length-to_set : (xs : List A) → length (to_set xs) ≤ length xs
  length-to_set [] = omega arith
  length-to_set (x ∷ xs) = ground (arith, length-to_set xs)

  -- `len(xs) == len(set(xs))`
  pub length-to_set-eq_iff : (xs : List A) → (length (to_set xs) ≡ length xs) ↔ IsUnique xs
  length-to_set-eq_iff [] = (λ _. tt, λ _. refl)
  length-to_set-eq_iff (x ∷ xs) =
      ground (arith, length-to_set xs, length-to_set-eq_iff xs, Bool-cases (contains x xs))

-- Elements with the same image are equal where the images are unique.
pub eq_of_IsUnique-map {ℓ κ} :
    {A : Type ℓ} {B : Type κ} ⦃e : Eq B⦄ (f : A → B) (xs : List A) (a b : A)
    → IsUnique (map f xs)
    → Memᴰ a xs
    → Memᴰ b xs
    → f a ≡ f b
    → a ≡ b
eq_of_IsUnique-map f [] a b u m k h = absurd (Memᴰ.not-nil m)
eq_of_IsUnique-map f (x ∷ xs) a b u (Memᴰ.head p) (Memᴰ.head q) h = p ∙ sym q
eq_of_IsUnique-map f (x ∷ xs) a b u (Memᴰ.head p) (Memᴰ.tail k) h = absurd (
    ground (
      arith,
      contains_iff (f x) (map f xs),
      u.0,
      subst (λ y. Memᴰ y (map f xs)) (sym h ∙ ap f p) (mem-map_of_mem f xs k),
    ))
eq_of_IsUnique-map f (x ∷ xs) a b u (Memᴰ.tail m) (Memᴰ.head q) h = absurd (
    ground (
      arith,
      contains_iff (f x) (map f xs),
      u.0,
      subst (λ y. Memᴰ y (map f xs)) (h ∙ ap f q) (mem-map_of_mem f xs m),
    ))
eq_of_IsUnique-map f (x ∷ xs) a b u (Memᴰ.tail m) (Memᴰ.tail k) h =
    eq_of_IsUnique-map f xs a b u.1 m k h

contains-map-filter {ℓ κ} :
    {A : Type ℓ} {B : Type κ} ⦃e : Eq B⦄ (f : A → B) (p : A → Bool) (b : B) (xs : List A)
    → contains b (map f xs) ≡ false
    → contains b (map f (filter p xs)) ≡ false
contains-map-filter f p b [] h = h
contains-map-filter f p b (x ∷ xs) h = ground (arith, contains-map-filter f p b xs)

-- A part of a table keeps distinct images.
pub IsUnique-map-filter {ℓ κ} :
    {A : Type ℓ} {B : Type κ} ⦃e : Eq B⦄ (f : A → B) (p : A → Bool) (xs : List A)
    → IsUnique (map f xs)
    → IsUnique (map f (filter p xs))
IsUnique-map-filter f p [] h = h
IsUnique-map-filter f p (x ∷ xs) h =
    let rest = IsUnique-map-filter f p xs h.1 in
    elim (Bool-cases (p x)) [
      | inl e ↦ rw e (contains-map-filter f p (f x) xs h.0, rest)
      | inr e ↦ rw e rest
    ]
