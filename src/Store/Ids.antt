-- ===== src/Store/Ids.antt =====
-- Primary keys: the ids of a table are distinct, and smaller than the next id.

use schema_sentry.Prelude.{
  ℕ, suc, ◌≤◌, ◌<◌, Bool, false, List, [], ◌∷◌, ◌++◌, map, ◌≡◌, refl, ap, subst, arith, ℕ_eq, All,
  contains, IsUnique,
}
use schema_sentry.Store.{update}

abbrev pub HasIds : ℕ → List ℕ → Type 0
HasIds n is = All (λ i. i < n) is × IsUnique is

All-weaken : (n m : ℕ) (is : List ℕ) → n ≤ m → All (λ i. i < n) is → All (λ i. i < m) is
All-weaken n m [] le h = tt
All-weaken n m (i ∷ is) le h = (omega (arith, h.0), All-weaken n m is le h.1)

pub HasIds-weaken : (n m : ℕ) (is : List ℕ) → n ≤ m → HasIds n is → HasIds m is
HasIds-weaken n m is le h = (All-weaken n m is le h.0, h.1)

contains-fresh : (n : ℕ) (is : List ℕ) → All (λ i. i < n) is → contains n is ≡ false
contains-fresh n [] h = refl
contains-fresh n (i ∷ is) h = ground (arith, contains-fresh n is h.1, ℕ_eq.test_iff n i, h.0)

contains-append_other :
    (n i : ℕ) (is : List ℕ) → i < n → contains i is ≡ false → contains i (is ++ n ∷ []) ≡ false
contains-append_other n i [] lt h = ground (arith, ℕ_eq.test_iff i n)
contains-append_other n i (j ∷ is) lt h = ground (arith, contains-append_other n i is lt)

-- A row with the next id is added.
pub HasIds-append_new : (n : ℕ) (is : List ℕ) → HasIds n is → HasIds (suc n) (is ++ n ∷ [])
HasIds-append_new n [] h = ((omega arith, tt), (refl, tt))
HasIds-append_new n (i ∷ is) h =
    let rest = HasIds-append_new n is (h.0.1, h.1.1) in
    ((omega (arith, h.0.0), rest.0), (contains-append_other n i is h.0.0 h.1.0, rest.1))

module _ {ℓ} {A : Type ℓ} (id : A → ℕ) where
  pub ids-append_new :
      (n : ℕ) (xs : List A) (x : A)
      → id x ≡ n
      → HasIds n (map id xs)
      → HasIds (suc n) (map id (xs ++ x ∷ []))
  ids-append_new n xs x same h =
      subst (HasIds (suc n)) (ids_eq xs) (HasIds-append_new n (map id xs) h)
    where
      ids_eq : (ys : List A) → map id ys ++ n ∷ [] ≡ map id (ys ++ x ∷ [])
      ids_eq [] = ap (λ i. i ∷ []) (subst (λ k. k ≡ id x) same refl)
      ids_eq (y ∷ ys) = ap (λ l. id y ∷ l) (ids_eq ys)

  -- An update that keeps the ids of the rows keeps the ids of the table.
  pub ids-update :
      (p : A → Bool) (f : A → A) (xs : List A)
      → ((x : A) → id (f x) ≡ id x)
      → map id (update p f xs) ≡ map id xs
  ids-update p f [] keep = refl
  ids-update p f (x ∷ xs) keep = ground (arith, keep x, ids-update p f xs keep)

  pub All-of_ids : (n : ℕ) (xs : List A) → All (λ i. i < n) (map id xs) → All (λ x. id x < n) xs
  All-of_ids n [] h = tt
  All-of_ids n (x ∷ xs) h = (h.0, All-of_ids n xs h.1)
