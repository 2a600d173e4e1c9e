-- ===== src/Prelude/Int.antt =====
-- Python's `int`, under the library's names: `negsuc n` is -(n + 1).
use Prim.Native.Nat.{ℕ, zero, suc, compare, Ordering, ◌+◌, ◌≤◌}
use mathlib.Core.Path.{◌≡◌}
use mathlib.Core.Logic.{◌↔◌}
use mathlib.Core.Bool.{Bool, true, false}
use native.Mathlib.Omega.{arith}
use schema_sentry.Prelude.Tests.{leb}
use schema_sentry.Prelude.Order.{Ord, flip}
use schema_sentry.Prelude.Equal.{Eq, ◌==◌, ℕ_eq}

pub data ℤ : Type 0 where
  pos : ℕ → ℤ
  negsuc : ℕ → ℤ

abbrev pub pos_part : ℤ → ℕ
pos_part (pos n) = n
pos_part (negsuc n) = 0

abbrev pub neg_part : ℤ → ℕ
neg_part (pos n) = 0
neg_part (negsuc n) = suc n

abbrev pub ◌≤ℤ◌ : ℤ → ℤ → Type 0
◌≤ℤ◌ a b = pos_part a + neg_part b ≤ pos_part b + neg_part a

infix 50 ◌≤ℤ◌
-- `a <= b`
abbrev pub leb_ℤ : ℤ → ℤ → Bool
leb_ℤ a b = leb (pos_part a + neg_part b) (pos_part b + neg_part a)

abbrev ℤ_test : ℤ → ℤ → Bool
ℤ_test (pos m) (pos n) = m == n
ℤ_test (negsuc m) (negsuc n) = m == n
ℤ_test _ _ = false

pub ℤ_test_iff : (a b : ℤ) → (ℤ_test a b ≡ true) ↔ (a ≡ b)
ℤ_test_iff (pos m) (pos n) = ground arith
ℤ_test_iff (negsuc m) (negsuc n) = ground arith
ℤ_test_iff (pos m) (negsuc n) = ground arith
ℤ_test_iff (negsuc m) (pos n) = ground arith

instance abbrev pub ℤ_eq : Eq ℤ
ℤ_eq = record { test = ℤ_test; test_iff = ℤ_test_iff }

abbrev pub negate : ℕ → ℤ
negate zero = pos zero
negate (suc n) = negsuc n

abbrev ℤ_cmp : ℤ → ℤ → Ordering
ℤ_cmp a b = compare (pos_part a + neg_part b) (pos_part b + neg_part a)

pub ℤ_cmp_eq : (a b : ℤ) → ℤ_cmp a b ≡ Ordering.eq → a ≡ b
ℤ_cmp_eq a b h = ground arith

pub ℤ_cmp_refl : (a : ℤ) → ℤ_cmp a a ≡ Ordering.eq
ℤ_cmp_refl a = ground arith

pub ℤ_cmp-flip : (a b : ℤ) → ℤ_cmp b a ≡ flip (ℤ_cmp a b)
ℤ_cmp-flip a b = ground arith

pub ℤ_cmp_trans :
    (a b c : ℤ) → ℤ_cmp a b ≡ Ordering.lt → ℤ_cmp b c ≡ Ordering.lt → ℤ_cmp a c ≡ Ordering.lt
ℤ_cmp_trans a b c h k = ground arith

instance abbrev pub ℤ_ord : Ord ℤ
ℤ_ord = record {
  cmp = ℤ_cmp;
  cmp_eq = ℤ_cmp_eq;
  cmp_refl = ℤ_cmp_refl;
  cmp_flip = ℤ_cmp-flip;
  cmp_trans = ℤ_cmp_trans;
}
