-- ===== src/Scan/Reading.antt =====
-- The parts of `SqlAlchemyScanRepository` that read: the source, the baseline and the dependencies.
use schema_sentry.Prelude.{
  ℕ, String, Option, none, some, List, [], ◌∷◌, ◌++◌, map, filter, ◌==◌, ℕ_eq, String_eq,
}
use schema_sentry.Prelude.Int.{ℤ, ℤ_ord}
use schema_sentry.Prelude.Dict.{Dict, index_by}
use schema_sentry.Prelude.Exec.{Exec, pure, raise, gets, lift, ◌>>=◌}
use schema_sentry.Prelude.Order.{String_ord, pair_ord}
use schema_sentry.Prelude.Result
use schema_sentry.Prelude.Result.{Result, ok, err}
use schema_sentry.Prelude.Sort.{sort_by}
use schema_sentry.Domain.Models.{DatasetRef, DatasetRef_eq, ColumnRef, ColumnDefinition}
use schema_sentry.Store.{
  Db, DataSourceRow, DatasetRow, ExpectedColumnRow, ScanRunRow, LineageEdgeRow, Exception,
  source_not_found, lookup_error, type_error, find,
}
use schema_sentry.Store.Types.{type_of_dict}

abbrev pub Session {ℓ} : Type ℓ → Type ℓ
Session A = Exec Db Exception A

unfoldable pub or_raise {ℓ} : {A : Type ℓ} → Exception → Option A → Session A
or_raise e none = raise e
or_raise e (some a) = pure a

-- `_source`
unfoldable pub get_source : String → Session DataSourceRow
unfolding or_raise
get_source source_key db =
    or_raise (source_not_found source_key) (find (λ s. s.key == source_key) db.sources) db

-- `_scan`
unfoldable pub get_scan : ℕ → Session ScanRunRow
unfolding or_raise
get_scan scan_id db = or_raise lookup_error (find (λ s. s.id == scan_id) db.scans) db

abbrev pub dataset_ref : DatasetRow → DatasetRef
dataset_ref d = record { schema = d.schema_name; table = d.table_name }

-- the datasets of a source
abbrev pub datasets_of : ℕ → Db → List DatasetRow
datasets_of source_id db = filter (λ d. d.source_id == source_id) db.datasets

-- the rows that a row joins with, `JOIN datasets ON datasets.id = dataset_id`
abbrev pub joined {ℓ} : {A : Type ℓ} → (A → ℕ) → List DatasetRow → List A → List (A × DatasetRow)
joined key datasets [] = []
joined key datasets (a ∷ as') =
    map (λ d. (a, d)) (filter (λ d. d.id == key a) datasets) ++ joined key datasets as'

unfoldable pub read_column : ExpectedColumnRow × DatasetRow → Result Exception ColumnDefinition
read_column (c, d) = elim (type_of_dict c.data_type_json) [
  | none ↦ err type_error
  | some t ↦ ok (record {
    dataset = dataset_ref d;
    name = c.name;
    data_type = t;
    nullable = c.nullable;
    default = c.default_expression;
    ordinal = c.ordinal;
  })
]

unfoldable pub read_columns :
    List (ExpectedColumnRow × DatasetRow) → Result Exception (List ColumnDefinition)
unfolding read_column
read_columns [] = ok []
read_columns (r ∷ rs) =
    Result.◌>>=◌ (read_column r) (λ c. Result.◌>>=◌ (read_columns rs) (λ cs. ok (c ∷ cs)))

abbrev pub expected_order : ExpectedColumnRow × DatasetRow → (String × String) × ℤ
expected_order r = ((r.1.schema_name, r.1.table_name), r.0.ordinal)

unfoldable pub load_expected_columns : String → Session (List ColumnDefinition)
unfolding get_source read_columns
load_expected_columns source_key = do
  source ← get_source source_key
  rows ← gets (λ db. joined (λ c. c.dataset_id) (datasets_of source.id db) db.expected)
  lift (read_columns (sort_by expected_order rows))

abbrev dependency_order : LineageEdgeRow × DatasetRow → (String × String) × String
dependency_order r = ((r.1.schema_name, r.1.table_name), r.0.upstream_column)

unfoldable pub load_dependency_columns : String → Session (List ColumnRef)
unfolding get_source
load_dependency_columns source_key = do
  source ← get_source source_key
  rows ← gets (λ db. joined (λ e. e.upstream_dataset_id) (datasets_of source.id db) db.edges)
  pure (
      map (λ (e, d). record { dataset = dataset_ref d; name = e.upstream_column })
        (sort_by dependency_order rows))

-- `_datasets_by_ref`
abbrev pub datasets_by_ref : ℕ → Db → Dict DatasetRef DatasetRow
datasets_by_ref source_id db = index_by dataset_ref (datasets_of source_id db)
