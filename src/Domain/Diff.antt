-- ===== src/Domain/Diff.antt =====
-- src/schema_sentry/domain/diff.py. `ValueError` is the one exception that it can raise.

pub mod Columns
pub mod Drift
pub mod Safety
use schema_sentry.Prelude.{
  String, ◌≡◌, Bool, true, false, not, ◌&&◌, Option, none, some, List, [], ◌∷◌, ◌++◌, ◌==◌, Bool_eq,
  contains, filter, is_none, if◌then◌else◌,
}
use schema_sentry.Prelude.Dict
use schema_sentry.Prelude.Dict.{Dict, index_by, keys}
use schema_sentry.Prelude.Order.{String_ord, pair_ord}
use schema_sentry.Prelude.Result.{Result, ok, err, ◌>>=◌}
use schema_sentry.Prelude.Sort.{sort_by}
use schema_sentry.Domain.Enums.{
  ChangeType, add_column, drop_column, type_change, nullability_change, Severity, info, warning,
  breaking, change_type_value,
}
use schema_sentry.Domain.Models.{
  ColumnRef, ColumnDefinition, column_ref, SchemaChange, ColumnRef_eq, CanonicalType_eq, ref_key,
}
use schema_sentry.Domain.TypeRules.{classify_type_change}

pub data ChangeError : Type 0 where
  value_error : ChangeError

-- `before or after`
either_column : Option ColumnDefinition → Option ColumnDefinition → Option ColumnDefinition
either_column (some b) after = some b
either_column none after = after

-- `_change`
make_change :
    ChangeType
    → Severity
    → Option ColumnDefinition
    → Option ColumnDefinition
    → Result ChangeError SchemaChange
unfolding either_column
make_change t s before after = elim (either_column before after) [
  | none ↦ err value_error
  | some c ↦ ok (record {
    dataset = c.dataset;
    column_name = c.name;
    change_type = t;
    severity = s;
    before = before;
    after = after;
  })
]

-- `changes.append(_change(…))` under a test
append_if :
    Bool
    → Result ChangeError SchemaChange
    → List SchemaChange
    → Result ChangeError (List SchemaChange)
append_if true m changes = m >>= λ c. ok (changes ++ c ∷ [])
append_if false m changes = ok changes

compare_both :
    ColumnRef
    → ColumnDefinition
    → ColumnDefinition
    → List ColumnRef
    → Result ChangeError (List SchemaChange)
unfolding make_change append_if
compare_both ref b a dependencies = do
  typed ←
      append_if (not (b.data_type == a.data_type))
        (make_change type_change (classify_type_change b.data_type a.data_type).severity (some b)
          (some a))
        []
  let severity =
      if not b.nullable && a.nullable && contains ref dependencies then breaking else warning
  append_if (not (b.nullable == a.nullable))
      (make_change nullability_change severity (some b) (some a)) typed

-- `(_change(…),)`
one_change : Result ChangeError SchemaChange → Result ChangeError (List SchemaChange)
one_change m = m >>= λ c. ok (c ∷ [])

pub compare_column :
    ColumnRef
    → Option ColumnDefinition
    → Option ColumnDefinition
    → List ColumnRef
    → Result ChangeError (List SchemaChange)
unfolding make_change one_change compare_both
compare_column ref none (some a) dependencies =
    one_change (make_change add_column (if a.nullable then info else warning) none (some a))
compare_column ref (some b) none dependencies = one_change (
    make_change drop_column (if contains ref dependencies then breaking else warning) (some b) none)
compare_column ref none none dependencies = ok []
compare_column ref (some b) (some a) dependencies = compare_both ref b a dependencies

abbrev pub change_sort_key : SchemaChange → ((String × String) × String) × String
change_sort_key c =
    (((c.dataset.schema, c.dataset.table), c.column_name), change_type_value c.change_type)

-- the loop over the sorted references, which extends `changes`
extend_all :
    Dict ColumnRef ColumnDefinition
    → Dict ColumnRef ColumnDefinition
    → List ColumnRef
    → List ColumnRef
    → Result ChangeError (List SchemaChange)
extend_all expected observed dependencies [] = ok []
extend_all expected observed dependencies (ref ∷ refs) = do
  found ← compare_column ref (Dict.get ref expected) (Dict.get ref observed) dependencies
  rest ← extend_all expected observed dependencies refs
  ok (found ++ rest)

-- `expected.keys() | observed.keys()`
key_union : Dict ColumnRef ColumnDefinition → Dict ColumnRef ColumnDefinition → List ColumnRef
key_union expected observed =
    keys expected ++ filter (λ ref. is_none (Dict.get ref expected)) (keys observed)

pub diff_columns :
    List ColumnDefinition
    → List ColumnDefinition
    → List ColumnRef
    → Result ChangeError (List SchemaChange)
unfolding extend_all key_union
diff_columns expected observed dependencies = do
  let expected_by_ref = index_by column_ref expected
  let observed_by_ref = index_by column_ref observed
  changes ←
      extend_all expected_by_ref observed_by_ref dependencies
        (sort_by ref_key (key_union expected_by_ref observed_by_ref))
  ok (sort_by change_sort_key changes)
