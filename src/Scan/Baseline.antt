-- ===== src/Scan/Baseline.antt =====
-- The baseline that the first scan stores: `complete_initial_baseline` of `SqlAlchemyScanRepository`.
use schema_sentry.Prelude.{ℕ, suc, String, none, some, List, [], ◌∷◌, ◌++◌}
use schema_sentry.Prelude.Dict
use schema_sentry.Prelude.Dict.{Dict}
use schema_sentry.Prelude.Exec.{modify, ◌>>=◌, ◌>>◌}
use schema_sentry.Domain.Models.{DatasetRef, DatasetRef_eq, ColumnDefinition, type_dict}
use schema_sentry.Store.{Db, DatasetRow, ExpectedColumnRow}
use schema_sentry.Scan.Reading.{Session, get_source, get_scan, datasets_by_ref}
use schema_sentry.Scan.Writing.{persist_observations, complete_scan}

-- the row of a baseline column
unfoldable pub expected_row : ℕ → ColumnDefinition → ExpectedColumnRow
expected_row dataset_id c = record {
  dataset_id = dataset_id;
  name = c.name;
  data_type_json = type_dict c.data_type;
  nullable = c.nullable;
  default_expression = c.default;
  ordinal = c.ordinal;
}

unfoldable pub add_expected : ℕ → ColumnDefinition → Db → Db
unfolding expected_row
add_expected dataset_id c db = record db {
  expected = db.expected ++ expected_row dataset_id c ∷ [];
}

-- a dataset of the source for a reference that has none
unfoldable pub new_dataset : ℕ → DatasetRef → Db → DatasetRow
new_dataset source_id ref db = record {
  id = db.next_id;
  source_id = source_id;
  schema_name = ref.schema;
  table_name = ref.table;
}

unfoldable pub add_dataset : DatasetRow → Db → Db
add_dataset d db = record db { datasets = db.datasets ++ d ∷ []; next_id = suc db.next_id }

-- the loop over the observed columns
unfoldable pub add_baseline : ℕ → Dict DatasetRef DatasetRow → List ColumnDefinition → Db → Db
unfolding add_expected new_dataset add_dataset
add_baseline source_id datasets [] db = db
add_baseline source_id datasets (c ∷ cs) db = elim (Dict.get c.dataset datasets) [
  | some d ↦ add_baseline source_id datasets cs (add_expected d.id c db)
  | none ↦
      let d = new_dataset source_id c.dataset db in
      add_baseline source_id (Dict.put c.dataset d datasets) cs
        (add_expected d.id c (add_dataset d db))
]

unfoldable pub complete_initial_baseline :
    ℕ → String → List ColumnDefinition → ℕ → Session (Unit {0})
unfolding get_source get_scan add_baseline persist_observations complete_scan
complete_initial_baseline scan_id source_key observed now = do
  source ← get_source source_key
  scan ← get_scan scan_id
  modify (λ db. add_baseline source.id (datasets_by_ref source.id db) observed db)
  modify (persist_observations scan observed)
  modify (complete_scan scan now)
