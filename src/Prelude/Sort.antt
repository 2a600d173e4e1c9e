-- ===== src/Prelude/Sort.antt =====
-- Python's `sorted(xs, key=…)`: a stable sort. An element is put in front of the first one whose
-- key is not smaller, from the last element of the list to the first.
use Prim.Native.Nat.{suc}
use mathlib.Core.Path.{◌≡◌, refl, ap, ◌∙◌}
use mathlib.Core.Logic.{◌⊎◌, inl, inr, ◌↔◌}
use mathlib.Core.Bool.{true}
use mathlib.Core.List.{List, [], ◌∷◌, Memᴰ, Perm}
use mathlib.Core.List.Perm
use native.Mathlib.Omega.{arith}
use schema_sentry.Prelude.Tests.{if◌then◌else◌, Bool-cases}
use schema_sentry.Prelude.Lists.{length, All, Memᴰ-cons}
use schema_sentry.Prelude.Order.{Ord, le, le_total, le_trans}

module _ {ℓ κ} {A : Type ℓ} {K : Type κ} ⦃o : Ord K⦄ (key : A → K) where
  insert_by : A → List A → List A
  insert_by x [] = x ∷ []
  insert_by x (y ∷ ys) = if le (key x) (key y) then x ∷ y ∷ ys else y ∷ insert_by x ys

  unfoldable pub sort_by : List A → List A
  unfolding insert_by
  sort_by [] = []
  sort_by (x ∷ xs) = insert_by x (sort_by xs)

  -- Every key is at most the keys after it.
  abbrev pub IsSortedBy : List A → Type ℓ
  IsSortedBy [] = Unit
  IsSortedBy (x ∷ xs) = All (λ y. le (key x) (key y) ≡ true) xs × IsSortedBy xs

  insert_by-perm : (x : A) (l : List A) → Perm (insert_by x l) (x ∷ l)
  unfolding insert_by
  insert_by-perm x [] = Perm.rfl
  insert_by-perm x (y ∷ ys) = elim (Bool-cases (le (key x) (key y))) [
    | inl e ↦ rw (e, insert_by) Perm.rfl
    | inr e ↦ rw (e, insert_by) (Perm.trans (Perm.cons y (insert_by-perm x ys)) (Perm.swap x y ys))
  ]

  -- Sorting loses and invents nothing.
  pub sort_by-perm : (l : List A) → Perm (sort_by l) l
  unfolding sort_by
  sort_by-perm [] = Perm.rfl
  sort_by-perm (x ∷ xs) = Perm.trans (insert_by-perm x (sort_by xs)) (Perm.cons x (sort_by-perm xs))

  Memᴰ-insert_by : (a x : A) (l : List A) → Memᴰ a (insert_by x l) ↔ ((a ≡ x) ⊎ Memᴰ a l)
  unfolding insert_by
  Memᴰ-insert_by a x [] = Memᴰ-cons a x []
  Memᴰ-insert_by a x (y ∷ ys) = ground (
    arith,
    Memᴰ-insert_by a x ys,
    Memᴰ-cons a x (y ∷ ys),
    Memᴰ-cons a y ys,
    Memᴰ-cons a y (insert_by x ys),
  )

  pub Memᴰ-sort_by : (a : A) (l : List A) → Memᴰ a (sort_by l) ↔ Memᴰ a l
  unfolding sort_by
  Memᴰ-sort_by a [] = (λ m. m, λ m. m)
  Memᴰ-sort_by a (x ∷ xs) =
      ground (arith, Memᴰ-insert_by a x (sort_by xs), Memᴰ-sort_by a xs, Memᴰ-cons a x xs)

  length-insert_by : (x : A) (l : List A) → length (insert_by x l) ≡ suc (length l)
  unfolding insert_by
  length-insert_by x [] = refl
  length-insert_by x (y ∷ ys) = ground (arith, length-insert_by x ys)

  pub length-sort_by : (l : List A) → length (sort_by l) ≡ length l
  unfolding sort_by
  length-sort_by [] = refl
  length-sort_by (x ∷ xs) = length-insert_by x (sort_by xs) ∙ ap suc (length-sort_by xs)

  All-le_trans :
      (a b : K) (l : List A)
      → le a b ≡ true
      → All (λ z. le b (key z) ≡ true) l
      → All (λ z. le a (key z) ≡ true) l
  All-le_trans a b [] h p = tt
  All-le_trans a b (z ∷ l) h p = (le_trans a b (key z) h p.0, All-le_trans a b l h p.1)

  All-insert_by :
      (k : K) (x : A) (l : List A)
      → le k (key x) ≡ true
      → All (λ z. le k (key z) ≡ true) l
      → All (λ z. le k (key z) ≡ true) (insert_by x l)
  unfolding insert_by
  All-insert_by k x [] h p = (h, tt)
  All-insert_by k x (y ∷ ys) h p = elim (Bool-cases (le (key x) (key y))) [
    | inl e ↦ rw (e, insert_by) (h, p)
    | inr e ↦ rw (e, insert_by) (p.0, All-insert_by k x ys h p.1)
  ]

  insert_by-IsSortedBy : (x : A) (l : List A) → IsSortedBy l → IsSortedBy (insert_by x l)
  unfolding insert_by
  insert_by-IsSortedBy x [] s = (tt, tt)
  insert_by-IsSortedBy x (y ∷ ys) s = elim (Bool-cases (le (key x) (key y))) [
    | inl e ↦ rw (e, insert_by) ((e, All-le_trans (key x) (key y) ys e s.0), s)
    | inr e ↦
        rw (e, insert_by)
          (
            All-insert_by (key y) x ys (le_total (key x) (key y) e) s.0,
            insert_by-IsSortedBy x ys s.1,
          )
  ]

  -- The result ascends by its keys.
  pub sort_by-IsSortedBy : (l : List A) → IsSortedBy (sort_by l)
  unfolding sort_by
  sort_by-IsSortedBy [] = tt
  sort_by-IsSortedBy (x ∷ xs) = insert_by-IsSortedBy x (sort_by xs) (sort_by-IsSortedBy xs)
