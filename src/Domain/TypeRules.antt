-- ===== src/Domain/TypeRules.antt =====
-- src/schema_sentry/domain/type_rules.py: names of PostgreSQL types, the two ways a type is read, and
-- the severity of a change of type. A regular expression is the parser of the language it matches.
pub mod Capacity
pub mod Exact
use Prim.Native.Char.{Char, code}
use Prim.Native.String.{◌∷◌ as cons, [] as empty, ◌++◌}
use schema_sentry.Prelude.{
  ℕ, String, ◌≡◌, refl, Bool, true, false, not, ◌&&◌, ◌||◌, Option, none, some, List, [], ◌∷◌, ltb,
  is_some, is_none, ◌==◌, String_eq, ℕ_eq, Option_eq, contains, if◌then◌else◌,
}
use schema_sentry.Prelude.Int.{ℤ, leb_ℤ, ℤ_eq}
use schema_sentry.Prelude.Result.{Result, ok, err, ◌>>=◌}
use schema_sentry.Prelude.Text.{strip, lower, split, split_on, join, int}
use schema_sentry.Domain.Enums.{Severity, info, warning, breaking}
use schema_sentry.Domain.Models.{CanonicalType, plain, CanonicalType_eq}

-- a dictionary of literals
lookup {ℓ} : {V : Type ℓ} → String → List (String × V) → Option V
lookup k [] = none
lookup k ((j, v) ∷ d) = if j == k then some v else lookup k d

abbrev pub aliases : List (String × String)
aliases =
    ("bool", "boolean")
    ∷ ("decimal", "numeric")
    ∷ ("float8", "double precision")
    ∷ ("int2", "smallint")
    ∷ ("int4", "integer")
    ∷ ("int8", "bigint")
    ∷ ("timestamp", "timestamp without time zone")
    ∷ ("timestamptz", "timestamp with time zone")
    ∷ ("varchar", "character varying")
    ∷ []

abbrev pub ranks : List (String × ℕ)
ranks = ("smallint", 0) ∷ ("integer", 1) ∷ ("bigint", 2) ∷ []

pub integer_rank : String → Option ℕ
unfolding lookup
integer_rank name = lookup name ranks

or_self : String → Option String → String
or_self s none = s
or_self s (some t) = t

pub normalize_name : String → String
unfolding lookup or_self
normalize_name name =
    let normalized = join " " (split (lower (strip name))) in
    or_self normalized (lookup normalized aliases)

-- ---------------------------------------------------------------- type specifications

-- the reasons for which a `ValueError` is raised
pub data ValueError : Type 0 where
  invalid_type unsupported_modifiers invalid_literal : ValueError

-- the characters before the first parenthesis, and the text from it on
before_paren : String → String × String
before_paren empty = (empty, empty)
before_paren (cons c s) =
    let (name, rest) = before_paren s in
    if code c == b'(' || code c == b')' then (empty, cons c s) else (cons c name, rest)

-- `([^()]*)\)` at the end: the text up to the one parenthesis, which closes and ends it
arguments_of : String → Option String
unfolding before_paren
arguments_of s = let (args, rest) = before_paren s in if rest == ")" then some args else none

-- the second group of the pattern, where `none` is no match
suffix : String → Option (Option String)
suffix empty = some none
suffix (cons c s) =
    if code c == b'('
    then elim (arguments_of s) [ none ↦ none | some args ↦ some (some args) ]
    else none

-- `_TYPE_PATTERN.fullmatch`, with its two groups
match_type : String → Option (String × Option String)
unfolding before_paren arguments_of suffix
match_type s =
    let (name, rest) = before_paren s in
    if name == ""
    then none
    else elim (suffix rest) [ none ↦ none | some group ↦ some (name, group) ]

-- `tuple(int(value.strip()) for value in values)`
integers : List String → Result ValueError (List ℤ)
integers [] = ok []
integers (v ∷ vs) = elim (int (strip v)) [
  | none ↦ err invalid_literal
  | some n ↦ integers vs >>= λ ns. ok (n ∷ ns)
]

abbrev pub sized : List String
sized = "character" ∷ "character varying" ∷ "bit" ∷ "bit varying" ∷ []

-- the tests on the name and on `len(values)`
with_values : String → List ℤ → Result ValueError CanonicalType
with_values name (n ∷ []) =
    if contains name sized
    then ok (record { name = name; length = some n; precision = none; scale = none })
    else if name == "numeric"
    then ok (record { name = name; length = none; precision = some n; scale = none })
    else err unsupported_modifiers
with_values name (p ∷ s ∷ []) =
    if name == "numeric"
    then ok (record { name = name; length = none; precision = some p; scale = some s })
    else err unsupported_modifiers
with_values name _ = err unsupported_modifiers

with_arguments : String → Option String → Result ValueError CanonicalType
unfolding with_values integers
with_arguments name none = ok (plain name)
with_arguments name (some args) = integers (split_on b',' args) >>= with_values name

unfoldable pub parse_postgres_type : String → Result ValueError CanonicalType
unfolding match_type with_arguments normalize_name
parse_postgres_type spec = elim (match_type (lower (strip spec))) [
  | none ↦ err invalid_type
  | some (name, args) ↦ with_arguments (normalize_name name) args
]

unfoldable pub canonicalize_postgres_type :
    String → String → Option ℤ → Option ℤ → Option ℤ → CanonicalType
unfolding normalize_name
canonicalize_postgres_type data_type udt_name max_length precision scale =
    let name = normalize_name (if not (data_type == "USER-DEFINED") then data_type else udt_name) in
    if contains name sized
    then record { name = name; length = max_length; precision = none; scale = none }
    else if name == "numeric"
    then record { name = name; length = none; precision = precision; scale = scale }
    else plain name

-- ---------------------------------------------------------------- the severity of a change

pub data Reason : Type 0 where
  unchanged integer_widened integer_narrowed capacity_widened capacity_narrowed : Reason
  capacity_constrained numeric_constraint_removed numeric_constraint_added : Reason
  precision_widened precision_or_scale_narrowed incompatible_families : Reason

pub record TypeChangeAssessment : Type 0 where
  pub severity : Severity
  pub reason : Reason

abbrev assess : Severity → Reason → TypeChangeAssessment
assess s r = record { severity = s; reason = r }

classify_integers : ℕ → ℕ → TypeChangeAssessment
classify_integers before after =
    if ltb before after then assess warning integer_widened else assess breaking integer_narrowed

-- `after is None or (before is not None and after >= before)`
capacity_grows : Option ℤ → Option ℤ → Bool
capacity_grows before none = true
capacity_grows none (some a) = false
capacity_grows (some b) (some a) = leb_ℤ b a

classify_varying : Option ℤ → Option ℤ → TypeChangeAssessment
unfolding capacity_grows
classify_varying before after =
    if capacity_grows before after
    then assess warning capacity_widened
    else assess breaking capacity_narrowed

classify_precision : Option ℤ → Option ℤ → Bool → TypeChangeAssessment
classify_precision before none same_scale = assess warning numeric_constraint_removed
classify_precision none (some a) same_scale = assess breaking numeric_constraint_added
classify_precision (some b) (some a) same_scale =
    if same_scale && leb_ℤ b a
    then assess warning precision_widened
    else assess breaking precision_or_scale_narrowed

classify_families : CanonicalType → CanonicalType → TypeChangeAssessment
unfolding classify_varying classify_precision
classify_families before after =
    if before.name == after.name && after.name == "character varying"
    then classify_varying before.length after.length
    else if before.name == "character varying" && after.name == "text"
    then assess warning capacity_widened
    else if before.name == "text" && after.name == "character varying"
    then assess breaking capacity_constrained
    else if before.name == after.name && after.name == "numeric"
    then classify_precision before.precision after.precision (before.scale == after.scale)
    else assess breaking incompatible_families

by_rank : Option ℕ → Option ℕ → CanonicalType → CanonicalType → TypeChangeAssessment
unfolding classify_integers classify_families
by_rank (some b) (some a) before after = classify_integers b a
by_rank (some b) none before after = classify_families before after
by_rank none _ before after = classify_families before after

unfoldable pub classify_type_change : CanonicalType → CanonicalType → TypeChangeAssessment
unfolding by_rank integer_rank
classify_type_change before after =
    if before == after
    then assess info unchanged
    else by_rank (integer_rank before.name) (integer_rank after.name) before after
