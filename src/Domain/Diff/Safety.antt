-- ===== src/Domain/Diff/Safety.antt =====
-- What the absence of BREAKING changes promises to the pipelines.

use schema_sentry.Prelude.{
  ◌≡◌, ◌≢◌, refl, Bool, true, false, Option, none, some, List, Memᴰ, Memᴰ-append, inl, inr,
  Bool-cases, ◌==◌, Bool_eq, contains, subst,
}
use schema_sentry.Prelude.Result.{ok}
use schema_sentry.Domain.Enums.{breaking}
use schema_sentry.Domain.Models.{
  CanonicalType, CanonicalType_eq, type_test_iff, ColumnRef, ColumnRef_eq, ColumnDefinition,
  SchemaChange,
}
use schema_sentry.Domain.TypeRules.Capacity.{Value, fits, classify_type_change_safe}
use schema_sentry.Domain.Diff.{diff_columns}
use schema_sentry.Domain.Diff.Columns.{
  column_changes, type_changes, nullability_changes, mem-type_changes, mem-nullability_changes,
}
use schema_sentry.Domain.Diff.Drift.{column_at, mem_of_policy}

module _ (other : CanonicalType → Value → Bool) where
  -- What a pipeline that reads a column relies on: it is there, its type holds every value that it held
  -- before, and a column without nulls has none still.
  pub record StillServes (b : ColumnDefinition) (observed : Option ColumnDefinition) : Type 0 where
    pub column : ColumnDefinition
    pub present : observed ≡ some column
    pub holds : (v : Value) → fits other b.data_type v ≡ true → fits other column.data_type v ≡ true
    pub not_null : b.nullable ≡ false → column.nullable ≡ false

  module _ (ref : ColumnRef) (deps : List ColumnRef) (registered : contains ref deps ≡ true) where
    abbrev NoneBreaking : List SchemaChange → Type 0
    NoneBreaking cs = (c : SchemaChange) → Memᴰ c cs → c.severity ≢ breaking

    type_kept :
        (b a : ColumnDefinition)
        → NoneBreaking (type_changes b a)
        → (v : Value) → fits other b.data_type v ≡ true
        → fits other a.data_type v ≡ true
    type_kept b a h v f = elim (Bool-cases (b.data_type == a.data_type)) [
      | inl e ↦ subst (λ t. fits other t v ≡ true) ((type_test_iff b.data_type a.data_type).0 e) f
      | inr e ↦
          classify_type_change_safe other b.data_type a.data_type v (h _ (mem-type_changes b a e)) f
    ]

    null_kept :
        (b a : ColumnDefinition)
        → NoneBreaking (nullability_changes ref b a deps)
        → b.nullable ≡ false
        → a.nullable ≡ false
    null_kept b a h p = elim (Bool-cases a.nullable) [
      | inr e ↦ e
      | inl e ↦ absurd (h _ (mem-nullability_changes ref b a deps registered p e) refl)
    ]

    column_served :
        (b : ColumnDefinition) (o : Option ColumnDefinition)
        → NoneBreaking (column_changes ref (some b) o deps)
        → StillServes b o
    unfolding column_changes
    column_served b none h = absurd (h _ (Memᴰ.head refl) (rw registered))
    column_served b (some a) h = record {
      column = a;
      present = refl;
      holds = type_kept b a (λ c m.
          h c ((Memᴰ-append c (type_changes b a) (nullability_changes ref b a deps)).1 (inl m)));
      not_null = null_kept b a (λ c m.
          h c ((Memᴰ-append c (type_changes b a) (nullability_changes ref b a deps)).1 (inr m)));
    }

  -- If a comparison finds no BREAKING change, every registered column of the baseline is still observed,
  -- with a type that holds every value that it held before, and without nulls if it had none.
  pub no_breaking_serves :
      (expected observed : List ColumnDefinition) (deps : List ColumnRef)
      (changes : List SchemaChange) (ref : ColumnRef) (b : ColumnDefinition)
      → diff_columns expected observed deps ≡ ok changes
      → ((c : SchemaChange) → Memᴰ c changes → c.severity ≢ breaking)
      → contains ref deps ≡ true
      → column_at ref expected ≡ some b
      → StillServes b (column_at ref observed)
  no_breaking_serves expected observed deps changes ref b h none_breaking registered p =
      column_served ref deps registered b (column_at ref observed)
        (λ c m. none_breaking c (mem_of_policy expected observed deps c ref changes h (rw p m)))
