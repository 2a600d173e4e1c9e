-- ===== src/Prelude/Lists.antt =====
-- Lists: native lengths, Boolean filters, and membership.
use Prim.Native.Nat.{ℕ, suc, ◌+◌}
use mathlib.Core.Path.{◌≡◌, refl, ap, subst}
use mathlib.Core.Logic.{◌⊎◌, inl, inr, ◌↔◌, ⊎_elim}
use mathlib.Core.Bool.{Bool, true, false, false≢true, ◌&&◌, ◌||◌}
use mathlib.Core.List.{List, [], ◌∷◌, ◌++◌, map, Memᴰ}
use mathlib.Core.List.Memᴰ
use native.Mathlib.Omega.{arith}
use schema_sentry.Prelude.Tests.{if◌then◌else◌, Bool-cases}

module _ {ℓ} {A : Type ℓ} where
  abbrev pub length : List A → ℕ
  length [] = 0
  length (x ∷ xs) = suc (length xs)

  -- `[x for x in xs if p(x)]`
  abbrev pub filter : (A → Bool) → List A → List A
  filter p [] = []
  filter p (x ∷ xs) = if p x then x ∷ filter p xs else filter p xs

  -- `any(p(x) for x in xs)`
  abbrev pub any : (A → Bool) → List A → Bool
  any p [] = false
  any p (x ∷ xs) = p x || any p xs

  -- `all(p(x) for x in xs)`
  abbrev pub all : (A → Bool) → List A → Bool
  all p [] = true
  all p (x ∷ xs) = p x && all p xs

  abbrev pub All {κ} : (A → Type κ) → List A → Type κ
  All P [] = Unit
  All P (x ∷ xs) = P x × All P xs

  pub length-append : (xs ys : List A) → length (xs ++ ys) ≡ length xs + length ys
  length-append [] ys = omega arith
  length-append (x ∷ xs) ys = omega (arith, length-append xs ys)

  pub List-cases : (xs : List A) → (xs ≡ []) ⊎ ((x : A) × (rest : List A) × (xs ≡ x ∷ rest))
  List-cases [] = inl refl
  List-cases (x ∷ xs) = inr (x, xs, refl)

  pub Memᴰ-cons : (a x : A) (xs : List A) → Memᴰ a (x ∷ xs) ↔ ((a ≡ x) ⊎ Memᴰ a xs)
  Memᴰ-cons a x xs = (Memᴰ.cases_cons, ⊎_elim Memᴰ.head Memᴰ.tail)

  pub Memᴰ-append : (a : A) (xs ys : List A) → Memᴰ a (xs ++ ys) ↔ (Memᴰ a xs ⊎ Memᴰ a ys)
  Memᴰ-append a xs ys = (Memᴰ.append_cases xs, ⊎_elim (Memᴰ.append_left ys) (Memᴰ.append_right xs))

  pub Memᴰ-filter :
      (p : A → Bool) (a : A) (xs : List A) → Memᴰ a (filter p xs) ↔ (Memᴰ a xs × (p a ≡ true))
  Memᴰ-filter p a [] = (λ m. absurd (Memᴰ.not-nil m), λ m. absurd (Memᴰ.not-nil m.0))
  Memᴰ-filter p a (x ∷ xs) =
      ground (arith, Memᴰ-filter p a xs, Memᴰ-cons a x xs, Memᴰ-cons a x (filter p xs))

  pub any_of_mem : (p : A → Bool) {a : A} (xs : List A) → Memᴰ a xs → p a ≡ true → any p xs ≡ true
  any_of_mem p [] m h = absurd (Memᴰ.not-nil m)
  any_of_mem p (x ∷ xs) (Memᴰ.head e) h = rw (← e) (ground arith)
  any_of_mem p (x ∷ xs) (Memᴰ.tail m) h = ground (arith, any_of_mem p xs m h)

  pub mem_of_any :
      (p : A → Bool) (xs : List A) → any p xs ≡ true → (a : A) × Memᴰ a xs × (p a ≡ true)
  mem_of_any p [] h = absurd (false≢true h)
  mem_of_any p (x ∷ xs) h = elim (Bool-cases (p x)) [
    | inl e ↦ (x, Memᴰ.head refl, e)
    | inr e ↦ let (a, m, q) = mem_of_any p xs (ground arith) in (a, Memᴰ.tail m, q)
  ]

  pub eq_nil_of_empty : (xs : List A) → ((a : A) → ¬ Memᴰ a xs) → xs ≡ []
  eq_nil_of_empty [] h = refl
  eq_nil_of_empty (x ∷ xs) h = absurd (h x (Memᴰ.head refl))

pub append-nil {ℓ} : {A : Type ℓ} (xs : List A) → xs ++ [] ≡ xs
append-nil [] = refl
append-nil (x ∷ xs) = ap (λ ys. x ∷ ys) (append-nil xs)

pub append_assoc {ℓ} : {A : Type ℓ} (xs ys zs : List A) → (xs ++ ys) ++ zs ≡ xs ++ (ys ++ zs)
append_assoc [] ys zs = refl
append_assoc (x ∷ xs) ys zs = ap (λ l. x ∷ l) (append_assoc xs ys zs)

pub length-map {ℓ κ} :
    {A : Type ℓ} {B : Type κ} (f : A → B) (xs : List A) → length (map f xs) ≡ length xs
length-map f [] = refl
length-map f (x ∷ xs) = omega (arith, length-map f xs)

module _ {ℓ κ} {A : Type ℓ} {B : Type κ} where
  pub mem-map_of_mem : (f : A → B) {a : A} (xs : List A) → Memᴰ a xs → Memᴰ (f a) (map f xs)
  mem-map_of_mem f [] m = absurd (Memᴰ.not-nil m)
  mem-map_of_mem f (x ∷ xs) (Memᴰ.head e) = Memᴰ.head (ap f e)
  mem-map_of_mem f (x ∷ xs) (Memᴰ.tail m) = Memᴰ.tail (mem-map_of_mem f xs m)

  pub mem_of_mem-map :
      (f : A → B) {b : B} (xs : List A) → Memᴰ b (map f xs) → (a : A) × Memᴰ a xs × (b ≡ f a)
  mem_of_mem-map f [] m = absurd (Memᴰ.not-nil m)
  mem_of_mem-map f (x ∷ xs) (Memᴰ.head e) = (x, Memᴰ.head refl, e)
  mem_of_mem-map f (x ∷ xs) (Memᴰ.tail m) =
      let (a, n, e) = mem_of_mem-map f xs m in (a, Memᴰ.tail n, e)

module _ {ℓ κ} {A : Type ℓ} {B : Type κ} (f : A → List B) where
  abbrev pub concat_map : List A → List B
  concat_map [] = []
  concat_map (x ∷ xs) = f x ++ concat_map xs

  pub Memᴰ-concat_map :
      (b : B) (xs : List A) → Memᴰ b (concat_map xs) ↔ ((a : A) × Memᴰ a xs × Memᴰ b (f a))
  Memᴰ-concat_map b [] = (λ m. absurd (Memᴰ.not-nil m), λ (a, m, n). absurd (Memᴰ.not-nil m))
  Memᴰ-concat_map b (x ∷ xs) = (to (Memᴰ-concat_map b xs).0, from (Memᴰ-concat_map b xs).1)
    where
      skip_head : ((a : A) × Memᴰ a xs × Memᴰ b (f a)) → (a : A) × Memᴰ a (x ∷ xs) × Memᴰ b (f a)
      skip_head (a, n, k) = (a, Memᴰ.tail n, k)

      to :
          (Memᴰ b (concat_map xs) → (a : A) × Memᴰ a xs × Memᴰ b (f a))
          → Memᴰ b (f x ++ concat_map xs)
          → (a : A) × Memᴰ a (x ∷ xs) × Memᴰ b (f a)
      to later m =
          ⊎_elim (λ here. (x, Memᴰ.head refl, here)) (λ n. skip_head (later n))
            ((Memᴰ-append b (f x) (concat_map xs)).0 m)

      from :
          (((a : A) × Memᴰ a xs × Memᴰ b (f a)) → Memᴰ b (concat_map xs))
          → ((a : A) × Memᴰ a (x ∷ xs) × Memᴰ b (f a))
          → Memᴰ b (f x ++ concat_map xs)
      from later (a, Memᴰ.head same, n) =
          (Memᴰ-append b (f x) (concat_map xs)).1 (inl (subst (λ y. Memᴰ b (f y)) same n))
      from later (a, Memᴰ.tail m, n) =
          (Memᴰ-append b (f x) (concat_map xs)).1 (inr (later (a, m, n)))
