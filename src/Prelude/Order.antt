-- ===== src/Prelude/Order.antt =====
-- Total orders: what Python's `<` is on the keys that the program sorts by.
use Prim.Native.Char.{code}
use Prim.Native.Nat.{ℕ, compare as compare_ℕ, Ordering}
use Prim.Native.String.compare
use Prim.Native.String.{String, [], ◌∷◌, compare, then}
use mathlib.Core.Path.{◌≡◌, refl}
use mathlib.Core.Bool.{Bool, true, false}
use native.Mathlib.Omega.{arith}
use text.Mathlib.TextEquality.{path_by_compare}
use text.Mathlib.TextPositions.{compare_refl}

abbrev pub flip : Ordering → Ordering
flip Ordering.lt = Ordering.gt
flip Ordering.eq = Ordering.eq
flip Ordering.gt = Ordering.lt

pub record Ord {ℓ} (A : Type ℓ) : Type ℓ where
  pub cmp : A → A → Ordering
  pub cmp_eq : (a b : A) → cmp a b ≡ Ordering.eq → a ≡ b
  pub cmp_refl : (a : A) → cmp a a ≡ Ordering.eq
  pub cmp_flip : (a b : A) → cmp b a ≡ flip (cmp a b)
  pub cmp_trans :
      (a b c : A) → cmp a b ≡ Ordering.lt → cmp b c ≡ Ordering.lt → cmp a c ≡ Ordering.lt

abbrev pub le {ℓ} : {A : Type ℓ} ⦃o : Ord A⦄ → A → A → Bool
le ⦃o⦄ a b = elim (o.cmp a b) [ Ordering.gt ↦ false | _ ↦ true ]

-- ---------------------------------------------------------------- lexicographic order

pub then_eq : (p q : Ordering) → then p q ≡ Ordering.eq → (p ≡ Ordering.eq) × (q ≡ Ordering.eq)
then_eq p q h = ground arith

flip-then : (p q : Ordering) → flip (then p q) ≡ then (flip p) (flip q)
flip-then p q = ground arith

-- ---------------------------------------------------------------- numbers and texts

pub ℕ_cmp_eq : (a b : ℕ) → compare_ℕ a b ≡ Ordering.eq → a ≡ b
ℕ_cmp_eq a b h = ground arith

pub ℕ_cmp_refl : (a : ℕ) → compare_ℕ a a ≡ Ordering.eq
ℕ_cmp_refl a = ground arith

pub ℕ_cmp_flip : (a b : ℕ) → compare_ℕ b a ≡ flip (compare_ℕ a b)
ℕ_cmp_flip a b = ground arith

pub ℕ_cmp_trans :
    (a b c : ℕ)
    → compare_ℕ a b ≡ Ordering.lt
    → compare_ℕ b c ≡ Ordering.lt
    → compare_ℕ a c ≡ Ordering.lt
ℕ_cmp_trans a b c h k = ground arith

pub compare-flip : (s t : String) → compare t s ≡ flip (compare s t)
compare-flip [] [] = refl
compare-flip [] (d ∷ t) = rw (compare.cons-nil, compare.nil-cons)
compare-flip (c ∷ s) [] = rw (compare.cons-nil, compare.nil-cons)
compare-flip (c ∷ s) (d ∷ t) = rw (
  compare.cons-cons d c t s,
  compare.cons-cons c d s t,
  ℕ_cmp_flip (code c) (code d),
  compare-flip s t,
  flip-then,
)

-- one character of a comparison, with the rest of the texts behind it
then_trans :
    (a b c : ℕ) (p q r : Ordering)
    → (p ≡ Ordering.lt → q ≡ Ordering.lt → r ≡ Ordering.lt)
    → then (compare_ℕ a b) p ≡ Ordering.lt
    → then (compare_ℕ b c) q ≡ Ordering.lt
    → then (compare_ℕ a c) r ≡ Ordering.lt
then_trans a b c p q r f h k = ground arith

pub compare_trans :
    (s t u : String)
    → compare s t ≡ Ordering.lt
    → compare t u ≡ Ordering.lt
    → compare s u ≡ Ordering.lt
compare_trans [] [] u h k = k
compare_trans (c ∷ s) [] u h k = cc (compare.cons-nil c s)
compare_trans s (d ∷ t) [] h k = cc (compare.cons-nil d t)
compare_trans [] (d ∷ t) (e ∷ u) h k = compare.nil-cons e u
compare_trans (c ∷ s) (d ∷ t) (e ∷ u) h k = rw (compare.cons-cons c e s u) (
    then_trans (code c) (code d) (code e) _ _ _ (compare_trans s t u)
      (rw (compare.cons-cons c d s t) at h) (rw (compare.cons-cons d e t u) at k))

instance abbrev pub ℕ_ord : Ord ℕ
ℕ_ord = record {
  cmp = compare_ℕ;
  cmp_eq = ℕ_cmp_eq;
  cmp_refl = ℕ_cmp_refl;
  cmp_flip = ℕ_cmp_flip;
  cmp_trans = ℕ_cmp_trans;
}

instance abbrev pub String_ord : Ord String
String_ord = record {
  cmp = compare;
  cmp_eq = path_by_compare;
  cmp_refl = compare_refl;
  cmp_flip = compare-flip;
  cmp_trans = compare_trans;
}

-- ---------------------------------------------------------------- pairs, first component first

module _ {ℓ κ} {A : Type ℓ} {B : Type κ} ⦃o : Ord A⦄ ⦃p : Ord B⦄ where
  abbrev pub pair_cmp : A × B → A × B → Ordering
  pair_cmp (a, b) (c, d) = then (o.cmp a c) (p.cmp b d)

  pub pair_cmp_eq : (x y : A × B) → pair_cmp x y ≡ Ordering.eq → x ≡ y
  pair_cmp_eq (a, b) (c, d) h = ground (arith, o.cmp_eq a c, p.cmp_eq b d)

  pub pair_cmp_refl : (x : A × B) → pair_cmp x x ≡ Ordering.eq
  pair_cmp_refl (a, b) = ground (arith, o.cmp_refl a, p.cmp_refl b)

  pub pair_cmp-flip : (x y : A × B) → pair_cmp y x ≡ flip (pair_cmp x y)
  pair_cmp-flip (a, b) (c, d) = ground (arith, o.cmp_flip a c, p.cmp_flip b d)

  pub pair_cmp_trans :
      (x y z : A × B)
      → pair_cmp x y ≡ Ordering.lt
      → pair_cmp y z ≡ Ordering.lt
      → pair_cmp x z ≡ Ordering.lt
  pair_cmp_trans (a, b) (c, d) (e, f) h k =
      ground (arith, o.cmp_eq a c, o.cmp_eq c e, o.cmp_refl a, o.cmp_trans a c e, p.cmp_trans b d f)

  instance abbrev pub pair_ord : Ord (A × B)
  pair_ord = record {
    cmp = pair_cmp;
    cmp_eq = pair_cmp_eq;
    cmp_refl = pair_cmp_refl;
    cmp_flip = pair_cmp-flip;
    cmp_trans = pair_cmp_trans;
  }

-- ---------------------------------------------------------------- the order as a Boolean test

module _ {ℓ} {A : Type ℓ} ⦃o : Ord A⦄ where
  pub le_total : (a b : A) → le a b ≡ false → le b a ≡ true
  le_total a b h = ground (arith, o.cmp_flip a b)

  pub le_trans : (a b c : A) → le a b ≡ true → le b c ≡ true → le a c ≡ true
  le_trans a b c h k = ground (arith, o.cmp_eq a b, o.cmp_eq b c, o.cmp_trans a b c, o.cmp_refl a)

  pub le_antisymm : (a b : A) → le a b ≡ true → le b a ≡ true → a ≡ b
  le_antisymm a b h k = ground (arith, o.cmp_flip a b, o.cmp_eq a b)
