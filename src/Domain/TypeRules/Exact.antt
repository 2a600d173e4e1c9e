-- ===== src/Domain/TypeRules/Exact.antt =====
-- Where `classify_type_change` is exact: a BREAKING change inside the integer family or the text family
-- loses a value. Inside the numeric family it is stricter.
use Prim.Native.Char.{Char}
use Prim.Native.Nat.{◌%◌}
use Prim.Native.String.{[] as empty, ◌∷◌ as cons, count}
use text.Mathlib.TextLemmas.{length-cons, length-nil}
use native.Mathlib.Nat.{
  pow-suc, pow-zero, add-zero, add-suc, div-add-mod', mul-mod_left, mul-div_cancel, one-le-pow,
}
use schema_sentry.Prelude.{
  ℕ, zero, suc, ◌+◌, ◌*◌, ◌/◌, ◌^◌, ◌<◌, String, ◌≡◌, refl, ◌∙◌, ap, Bool, true, false, Option,
  none, some, arith, String_eq, Option_eq, ℕ_eq,
}
use schema_sentry.Prelude.Int.{pos, pos_part, neg_part, ℤ_eq, leb_ℤ}
use schema_sentry.Domain.Enums.{breaking}
use schema_sentry.Domain.Models.{CanonicalType, plain}
use schema_sentry.Domain.TypeRules.{integer_rank, classify_type_change}
use schema_sentry.Domain.TypeRules.Capacity.{Value, integer, characters, decimal, fits}

-- `character varying` with or without a length, `numeric` with a precision and a scale
abbrev pub varying : Option ℕ → CanonicalType
varying none = plain "character varying"
varying (some n) = record (plain "character varying") { length = some (pos n) }

abbrev pub numeric : ℕ → ℕ → CanonicalType
numeric p s = record (plain "numeric") { precision = some (pos p); scale = some (pos s) }

filler : ℕ → String
filler zero = empty
filler (suc n) = cons (Prim.Native.Char.char 97 tt) (filler n)

count-filler : (n : ℕ) → count (filler n) ≡ n
unfolding filler
count-filler zero = length-nil
count-filler (suc n) = length-cons _ (filler n) ∙ ap suc (count-filler n)

pow-add : (n i j : ℕ) → n ^ (i + j) ≡ n ^ i * n ^ j
pow-add n i zero = rw (pow-zero n, add-zero) (grind arith)
pow-add n i (suc j) = rw (add-suc, pow-suc n (i + j), pow-suc n j, pow-add n i j) (grind arith)

-- A number of whole units stays one in units that are `c` times smaller.
scaled :
    (units one top c : ℕ)
    → 0 < one
    → 0 < c
    → units % one ≡ 0
    → units / one < top
    → ((units * c) % one ≡ 0) × ((units * c) / one < top * c)
scaled units one top c h g e l =
    let q = units / one in
    let whole : units * c ≡ q * c * one = grind (arith, div-add-mod' units one) in
    (rw whole (mul-mod_left (q * c) one), rw (whole, mul-div_cancel (q * c) h) (grind arith))

module _ (other : CanonicalType → Value → Bool) where
  fits-varying :
      (n : ℕ) (s : String)
      → fits other (varying (some n)) (characters s) ≡ leb_ℤ (pos (count s)) (pos n)
  unfolding fits integer_rank
  fits-varying n s = refl

  -- Narrowing `character varying` is BREAKING only where a text is lost: one that the old column can hold
  -- and the new column cannot.
  pub varying_narrowing_loses :
      (b : Option ℕ) (a : ℕ)
      → (classify_type_change (varying b) (varying (some a))).severity ≡ breaking
      → (v : Value) × (fits other (varying b) v ≡ true) × (fits other (varying (some a)) v ≡ false)
  unfolding classify_type_change fits
  varying_narrowing_loses none a h =
      (characters (filler (suc a)), refl, rw (fits-varying a, count-filler (suc a)) (ground arith))
  varying_narrowing_loses (some b) a h = (
    characters (filler b),
    rw (fits-varying b, count-filler b) (ground arith),
    rw (fits-varying a, count-filler b) (ground arith),
  )

  numeric_rescaling_fits :
      (p s k : ℕ) (v : Value)
      → fits other (numeric p s) v ≡ true
      → fits other (numeric (p + k) (s + k)) v ≡ true
  unfolding fits integer_rank
  numeric_rescaling_fits p s k (decimal u places) f =
      let n = pos_part u + neg_part u in
      let smaller =
        scaled (n * 10 ^ s) (10 ^ (places + 0)) (10 ^ p) (10 ^ k)
          (one-le-pow (places + 0) 10 (omega arith)) (one-le-pow k 10 (omega arith)) (ground arith)
          (ground arith) in
      let units : n * 10 ^ (s + k) ≡ n * 10 ^ s * 10 ^ k = grind (arith, pow-add 10 s k) in
      rw (units, pow-add 10 p k) (ground (arith, smaller))
  numeric_rescaling_fits p s k (integer n) f = ground arith
  numeric_rescaling_fits p s k (characters n) f = ground arith
  numeric_rescaling_fits p s k (Value.opaque n) f = ground arith

  -- The numeric family is stricter than its values: more digits with as many more places is BREAKING,
  -- though the new column can hold every number that the old one can.
  pub numeric_rescaling_flagged :
      (p s k : ℕ)
      → 0 < k
      → ((classify_type_change (numeric p s) (numeric (p + k) (s + k))).severity ≡ breaking)
        × ((v : Value)
            → fits other (numeric p s) v ≡ true
            → fits other (numeric (p + k) (s + k)) v ≡ true)
  unfolding classify_type_change
  numeric_rescaling_flagged p s k h = (ground arith, numeric_rescaling_fits p s k)
