-- ===== src/Domain/Diff/Columns.antt =====
-- The changes of one column, without the exceptions: `compare_column` never raises.
use mathlib.Core.List.Memᴰ
use schema_sentry.Prelude.{
  ◌≡◌, ◌↔◌, refl, inl, inr, Bool-cases, true, false, not, ◌&&◌, Option, none, some, List, [], ◌∷◌,
  ◌++◌, Memᴰ, ◌==◌, Bool_eq, contains, if◌then◌else◌, arith, ap, Memᴰ-append, ◌∙◌,
}
use mathlib.Core.Logic.{⊎_elim}
use schema_sentry.Prelude.Result.{ok}
use schema_sentry.Domain.Enums.{
  add_column, drop_column, type_change, nullability_change, info, warning, breaking, ChangeType,
  Severity,
}
use schema_sentry.Domain.Models.{
  ColumnRef, ColumnRef_eq, ColumnDefinition, column_ref, SchemaChange, change_ref, CanonicalType_eq,
  type_test_iff,
}
use schema_sentry.Domain.TypeRules.{classify_type_change}
use schema_sentry.Domain.Diff.{compare_column}

-- a change whose column is the given one
abbrev pub changed :
    ColumnDefinition
    → ChangeType
    → Severity
    → Option ColumnDefinition
    → Option ColumnDefinition
    → SchemaChange
changed c t s b a = record {
  dataset = c.dataset;
  column_name = c.name;
  change_type = t;
  severity = s;
  before = b;
  after = a;
}

-- The policy for one column that is on both sides.
unfoldable pub type_changes : ColumnDefinition → ColumnDefinition → List SchemaChange
type_changes b a =
    if b.data_type == a.data_type
    then []
    else changed b type_change (classify_type_change b.data_type a.data_type).severity (some b)
        (some a)
      ∷ []

unfoldable pub nullability_changes :
    ColumnRef → ColumnDefinition → ColumnDefinition → List ColumnRef → List SchemaChange
nullability_changes ref b a deps =
    let severity =
      if not b.nullable && a.nullable && contains ref deps then breaking else warning in
    if b.nullable == a.nullable
    then []
    else changed b nullability_change severity (some b) (some a) ∷ []

both_changes : ColumnRef → ColumnDefinition → ColumnDefinition → List ColumnRef → List SchemaChange
unfolding type_changes nullability_changes
both_changes ref b a deps = type_changes b a ++ nullability_changes ref b a deps

-- The policy for one column.
unfoldable pub column_changes :
    ColumnRef
    → Option ColumnDefinition
    → Option ColumnDefinition
    → List ColumnRef
    → List SchemaChange
unfolding both_changes
column_changes ref none none deps = []
column_changes ref none (some a) deps =
    changed a add_column (if a.nullable then info else warning) none (some a) ∷ []
column_changes ref (some b) none deps =
    changed b drop_column (if contains ref deps then breaking else warning) (some b) none ∷ []
column_changes ref (some b) (some a) deps = both_changes ref b a deps

pub compare_column-eq-ok :
    (ref : ColumnRef) (b a : Option ColumnDefinition) (deps : List ColumnRef)
    → compare_column ref b a deps ≡ ok (column_changes ref b a deps)
unfolding compare_column column_changes
compare_column-eq-ok ref none none deps = refl
compare_column-eq-ok ref none (some a) deps = refl
compare_column-eq-ok ref (some b) none deps = refl
compare_column-eq-ok ref (some b) (some a) deps = ground arith

-- No drift in a column: it is on neither side, or on both with the same type and nullability. Its default,
-- its place in the table and its dependants do not matter.
abbrev pub Agrees : Option ColumnDefinition → Option ColumnDefinition → Type 0
Agrees none none = Unit
Agrees (some b) (some a) = (b.data_type ≡ a.data_type) × (b.nullable ≡ a.nullable)
Agrees none (some a) = ⊥
Agrees (some b) none = ⊥

pub column_changes-eq-nil_iff :
    (ref : ColumnRef) (b a : Option ColumnDefinition) (deps : List ColumnRef)
    → (column_changes ref b a deps ≡ []) ↔ Agrees b a
unfolding column_changes
column_changes-eq-nil_iff ref none none deps = (λ h. tt, λ h. refl)
column_changes-eq-nil_iff ref none (some a) deps = (λ h. ground arith, λ h. absurd h)
column_changes-eq-nil_iff ref (some b) none deps = (λ h. ground arith, λ h. absurd h)
column_changes-eq-nil_iff ref (some b) (some a) deps =
    ground (arith, type_test_iff b.data_type a.data_type, Bool_eq.test_iff b.nullable a.nullable)

change_ref-type_changes :
    (c : SchemaChange) (b a : ColumnDefinition) {ref : ColumnRef}
    → column_ref b ≡ ref
    → Memᴰ c (type_changes b a)
    → change_ref c ≡ ref
unfolding type_changes
change_ref-type_changes c b a h m = elim (Bool-cases (b.data_type == a.data_type)) [
  | inl e ↦ absurd (Memᴰ.not-nil (rw (e, type_changes) at m))
  | inr e ↦ ap change_ref (Memᴰ.eq_of_singleton (rw (e, type_changes) at m)) ∙ h
]

change_ref-nullability_changes :
    (ref : ColumnRef) (c : SchemaChange) (b a : ColumnDefinition) (deps : List ColumnRef)
    → column_ref b ≡ ref
    → Memᴰ c (nullability_changes ref b a deps)
    → change_ref c ≡ ref
unfolding nullability_changes
change_ref-nullability_changes ref c b a deps h m = elim (Bool-cases (b.nullable == a.nullable)) [
  | inl e ↦ absurd (Memᴰ.not-nil (rw (e, nullability_changes) at m))
  | inr e ↦ ap change_ref (Memᴰ.eq_of_singleton (rw (e, nullability_changes) at m)) ∙ h
]

abbrev pub HasRef : ColumnRef → Option ColumnDefinition → Type 0
HasRef ref none = Unit
HasRef ref (some c) = column_ref c ≡ ref

-- Every change of a column names that column.
pub change_ref-column_changes :
    (ref : ColumnRef) (b a : Option ColumnDefinition) (deps : List ColumnRef) (c : SchemaChange)
    → HasRef ref b
    → HasRef ref a
    → Memᴰ c (column_changes ref b a deps)
    → change_ref c ≡ ref
unfolding column_changes
change_ref-column_changes ref none none deps c hb ha m = absurd (Memᴰ.not-nil m)
change_ref-column_changes ref none (some a) deps c hb ha m =
    ap change_ref (Memᴰ.eq_of_singleton m) ∙ ha
change_ref-column_changes ref (some b) none deps c hb ha m =
    ap change_ref (Memᴰ.eq_of_singleton m) ∙ hb
change_ref-column_changes ref (some b) (some a) deps c hb ha m =
    ⊎_elim (change_ref-type_changes c b a hb) (change_ref-nullability_changes ref c b a deps hb)
      ((Memᴰ-append c (type_changes b a) (nullability_changes ref b a deps)).0 m)

pub mem-type_changes :
    (b a : ColumnDefinition)
    → (b.data_type == a.data_type) ≡ false
    → Memᴰ
        (changed b type_change
          (classify_type_change b.data_type a.data_type).severity
          (some b)
          (some a))
        (type_changes b a)
unfolding type_changes
mem-type_changes b a h = rw h (Memᴰ.head refl)

pub mem-nullability_changes :
    (ref : ColumnRef) (b a : ColumnDefinition) (deps : List ColumnRef)
    → contains ref deps ≡ true
    → b.nullable ≡ false
    → a.nullable ≡ true
    → Memᴰ
        (changed b nullability_change breaking (some b) (some a))
        (nullability_changes ref b a deps)
unfolding nullability_changes
mem-nullability_changes ref b a deps h p q = rw (p, q, h) (Memᴰ.head refl)
