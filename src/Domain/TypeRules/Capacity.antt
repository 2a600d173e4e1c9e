-- ===== src/Domain/TypeRules/Capacity.antt =====
-- What `classify_type_change` promises: which values a column of a PostgreSQL type can hold, and that a
-- change that is not BREAKING leaves room for all of them.
use Prim.Native.String.{count}
use Prim.Native.Nat.{◌%◌}
use native.Mathlib.Nat.{pow-le-pow_right}
use schema_sentry.Prelude.{
  ℕ, zero, suc, ◌+◌, ◌*◌, ◌/◌, ◌^◌, ◌≤◌, ◌<◌, String, ◌≡◌, ◌≢◌, refl, Bool, true, false, ◌&&◌,
  Option, none, some, arith, ltb, is_none, ◌==◌, String_eq, ℕ_eq, Option_eq, if◌then◌else◌,
  Bool-cases, inl, inr,
}
use schema_sentry.Prelude.Int.{ℤ, pos, negsuc, pos_part, neg_part, leb_ℤ, ℤ_eq}
use schema_sentry.Domain.Enums.{breaking}
use schema_sentry.Domain.Models.{CanonicalType, CanonicalType_eq, type_test_iff}
use schema_sentry.Domain.TypeRules.{
  integer_rank, classify_integers, classify_varying, classify_precision, classify_families, by_rank,
  classify_type_change,
}

-- A stored value: an integer, a text, the number n / 10 ^ places, or a value of another type.
pub data Value : Type 0 where
  integer : ℤ → Value
  characters : String → Value
  decimal : (unscaled : ℤ) (places : ℕ) → Value
  opaque : ℕ → Value

-- one more than the largest number of the type
abbrev half_range : ℕ → ℕ
half_range zero = 2 ^ 15
half_range (suc zero) = 2 ^ 31
half_range (suc (suc r)) = 2 ^ 63

integer_fits : ℕ → Value → Bool
integer_fits rank (integer (pos n)) = ltb n (half_range rank)
integer_fits rank (integer (negsuc n)) = ltb n (half_range rank)
integer_fits rank _ = false

varying_fits : Option ℤ → Value → Bool
varying_fits none (characters s) = true
varying_fits (some n) (characters s) = leb_ℤ (pos (count s)) n
varying_fits length _ = false

-- `n / 10 ^ places` in units of 10 ^ -scale, where no scale is 0, has at most `precision` digits
digits_fit : Option ℤ → Option ℤ → ℕ → ℕ → Bool
digits_fit none scale n places = true
digits_fit (some p) none n places =
    ℕ_eq.test (n % 10 ^ places) 0 && ltb (n / 10 ^ places) (10 ^ pos_part p)
digits_fit (some p) (some s) n places =
    let units = n * 10 ^ pos_part s in
    let one = 10 ^ (places + neg_part s) in
    ℕ_eq.test (units % one) 0 && ltb (units / one) (10 ^ pos_part p)

numeric_fits : Option ℤ → Option ℤ → Value → Bool
unfolding digits_fit
numeric_fits precision scale (decimal u places) =
    digits_fit precision scale (pos_part u + neg_part u) places
numeric_fits precision scale _ = false

-- `other` says which values the types outside the three families hold.
module _ (other : CanonicalType → Value → Bool) where
  family_fits : CanonicalType → Value → Bool
  family_fits t v =
      if t.name == "character varying"
      then varying_fits t.length v
      else if t.name == "text"
      then varying_fits none v
      else if t.name == "numeric"
      then numeric_fits t.precision t.scale v
      else other t v

  fits_by : Option ℕ → CanonicalType → Value → Bool
  fits_by (some rank) t v = integer_fits rank v
  fits_by none t v = family_fits t v

  unfoldable pub fits : CanonicalType → Value → Bool
  unfolding fits_by family_fits integer_fits varying_fits numeric_fits
  fits t v = fits_by (integer_rank t.name) t v

half_range_mono : (a b : ℕ) → a < b → half_range a ≤ half_range b
half_range_mono zero (suc zero) h = omega arith
half_range_mono zero (suc (suc b)) h = omega arith
half_range_mono (suc zero) (suc (suc b)) h = omega arith
half_range_mono (suc (suc a)) (suc (suc b)) h = omega arith
half_range_mono zero zero h = omega arith
half_range_mono (suc a) zero h = omega arith
half_range_mono (suc a) (suc zero) h = omega arith

integers_safe :
    (b a : ℕ) (v : Value)
    → (classify_integers b a).severity ≢ breaking
    → integer_fits b v ≡ true
    → integer_fits a v ≡ true
unfolding classify_integers integer_fits
integers_safe b a (integer (pos n)) h f = ground (arith, half_range_mono b a)
integers_safe b a (integer (negsuc n)) h f = ground (arith, half_range_mono b a)
integers_safe b a (characters s) h f = ground arith
integers_safe b a (decimal u k) h f = ground arith
integers_safe b a (opaque n) h f = ground arith

varying_safe :
    (b a : Option ℤ) (v : Value)
    → (classify_varying b a).severity ≢ breaking
    → varying_fits b v ≡ true
    → varying_fits a v ≡ true
unfolding classify_varying varying_fits
varying_safe none none v h f = f
varying_safe none (some a) v h f = ground arith
varying_safe (some b) none (characters s) h f = refl
varying_safe (some b) (some a) (characters s) h f = ground arith
varying_safe (some b) _ (integer n) h f = ground arith
varying_safe (some b) _ (decimal u k) h f = ground arith
varying_safe (some b) _ (opaque n) h f = ground arith

digits_fit_mono :
    (b a : ℤ) (s : Option ℤ) (n k : ℕ)
    → leb_ℤ b a ≡ true
    → digits_fit (some b) s n k ≡ true
    → digits_fit (some a) s n k ≡ true
unfolding digits_fit
digits_fit_mono b a none n k h f =
    let wider : pos_part b ≤ pos_part a = ground arith in
    let room : 10 ^ pos_part b ≤ 10 ^ pos_part a = pow-le-pow_right (omega arith) wider in
    ground arith
digits_fit_mono b a (some s) n k h f =
    let wider : pos_part b ≤ pos_part a = ground arith in
    let room : 10 ^ pos_part b ≤ 10 ^ pos_part a = pow-le-pow_right (omega arith) wider in
    ground arith

both_of_precision :
    (b a : ℤ) (same_scale : Bool)
    → (classify_precision (some b) (some a) same_scale).severity ≢ breaking
    → (same_scale ≡ true) × (leb_ℤ b a ≡ true)
unfolding classify_precision
both_of_precision b a same_scale h = (ground arith, ground arith)

digits_safe :
    (b a s t : Option ℤ) (n k : ℕ)
    → (classify_precision b a (s == t)).severity ≢ breaking
    → digits_fit b s n k ≡ true
    → digits_fit a t n k ≡ true
unfolding classify_precision digits_fit
digits_safe b none s t n k h f = refl
digits_safe none (some a) s t n k h f = ground arith
digits_safe (some b) (some a) s t n k h f =
    let (same, wider) = both_of_precision b a (s == t) h in
    rw (← (Option_eq.test_iff s t).0 same) (digits_fit_mono b a s n k wider f)

numeric_safe :
    (b a s t : Option ℤ) (v : Value)
    → (classify_precision b a (s == t)).severity ≢ breaking
    → numeric_fits b s v ≡ true
    → numeric_fits a t v ≡ true
unfolding numeric_fits
numeric_safe b a s t (decimal u k) h f = digits_safe b a s t (pos_part u + neg_part u) k h f
numeric_safe b a s t (integer n) h f = f
numeric_safe b a s t (characters n) h f = f
numeric_safe b a s t (opaque n) h f = f

capacity_free : (n : Option ℤ) → (classify_varying n none).severity ≢ breaking
unfolding classify_varying
capacity_free none e = cc
capacity_free (some n) e = cc

varying_fits_any : (n : Option ℤ) (v : Value) → varying_fits n v ≡ true → varying_fits none v ≡ true
varying_fits_any n v f = varying_safe n none v (capacity_free n) f

-- The names of the other families are no integer types.
integer_rank_others :
    (integer_rank "character varying" ≡ none)
    × (integer_rank "text" ≡ none)
    × (integer_rank "numeric" ≡ none)
unfolding integer_rank
integer_rank_others = (refl, refl, refl)

module _ (other : CanonicalType → Value → Bool) where
  families_safe :
      (b a : CanonicalType) (v : Value)
      → (classify_families b a).severity ≢ breaking
      → family_fits other b v ≡ true
      → family_fits other a v ≡ true
  unfolding classify_families family_fits
  families_safe b a v h f = ground (
    arith,
    String_eq.test_iff b.name a.name,
    String_eq.test_iff b.name "character varying",
    String_eq.test_iff a.name "character varying",
    String_eq.test_iff b.name "text",
    String_eq.test_iff a.name "text",
    String_eq.test_iff b.name "numeric",
    String_eq.test_iff a.name "numeric",
    varying_safe b.length a.length v,
    varying_fits_any b.length v,
    numeric_safe b.precision a.precision b.scale a.scale v,
  )

  -- an integer type and a type of another family
  families_of_integer :
      (b a : CanonicalType)
      → (is_none (integer_rank b.name) ≡ is_none (integer_rank a.name) → ⊥)
      → (classify_families b a).severity ≡ breaking
  unfolding classify_families
  families_of_integer b a differ = ground (
    arith,
    String_eq.test_iff b.name a.name,
    String_eq.test_iff b.name "character varying",
    String_eq.test_iff a.name "character varying",
    String_eq.test_iff b.name "text",
    String_eq.test_iff a.name "text",
    integer_rank_others,
    differ,
  )

  by_rank_safe :
      (m n : Option ℕ) (b a : CanonicalType) (v : Value)
      → m ≡ integer_rank b.name
      → n ≡ integer_rank a.name
      → (by_rank m n b a).severity ≢ breaking
      → fits_by other m b v ≡ true
      → fits_by other n a v ≡ true
  unfolding by_rank fits_by
  by_rank_safe (some m) (some n) b a v p q h f = integers_safe m n v h f
  by_rank_safe none none b a v p q h f = families_safe b a v h f
  by_rank_safe (some m) none b a v p q h f =
      absurd (h (families_of_integer b a (λ e. ground arith)))
  by_rank_safe none (some n) b a v p q h f =
      absurd (h (families_of_integer b a (λ e. ground arith)))

  -- A change of type that is not BREAKING loses no value: whatever a column of the old type can hold,
  -- a column of the new type can hold too. This is for every pair of types and every value, whatever
  -- values the types outside the integer, text and numeric families hold.
  pub classify_type_change_safe :
      (b a : CanonicalType) (v : Value)
      → (classify_type_change b a).severity ≢ breaking
      → fits other b v ≡ true
      → fits other a v ≡ true
  unfolding classify_type_change fits
  classify_type_change_safe b a v h f = elim (Bool-cases (b == a)) [
    | inl e ↦ rw (← (type_test_iff b a).0 e) f
    | inr e ↦
        by_rank_safe (integer_rank b.name) (integer_rank a.name) b a v refl refl
          (rw (e, classify_type_change) at h) f
  ]
