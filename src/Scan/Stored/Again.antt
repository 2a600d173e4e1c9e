-- ===== src/Scan/Stored/Again.antt =====
-- The scan after the first one of a source.
use mathlib.Core.List.Memᴰ
use schema_sentry.Prelude.Int.{ℤ_ord}
use schema_sentry.Prelude.{
  ℕ, String, Option, none, some, List, [], map, Memᴰ, ◌≡◌, ◌↔◌, ◌≢◌, inl, inr, refl, sym, ap, ◌∙◌,
  subst, arith, ◌==◌, ℕ_eq, String_eq, Option-cases, Memᴰ-filter, is_some, ◌<◌,
}
use schema_sentry.Prelude.Dict
use schema_sentry.Prelude.Dict.{
  Dict, index_by, latest, get-index_by, key_of_latest, mem_of_latest, latest_of_mem,
}
use schema_sentry.Prelude.Order.{String_ord, pair_ord, ℕ_ord}
use schema_sentry.Prelude.Result.{ok}
use schema_sentry.Domain.Diff.{diff_columns}
use schema_sentry.Domain.Diff.Columns.{Agrees}
use schema_sentry.Domain.Diff.Drift.{column_at, diff_columns-eq-nil_iff}
use schema_sentry.Domain.Models.{
  DatasetRef, DatasetRef_eq, ColumnRef, ColumnRef_eq, column_ref, ColumnDefinition,
}
use schema_sentry.Store.{Db, DataSourceRow, DatasetRow, ExpectedColumnRow, ScanRunRow, find}
use schema_sentry.Store.Ids.{HasIds}
use schema_sentry.Scan.Reading.{
  dataset_ref, datasets_of, datasets_by_ref, load_expected_columns, get_source, get_scan, or_raise,
}
use schema_sentry.Scan.Writing.{persist_observations, complete_scan}
use schema_sentry.Scan.Baseline.{add_baseline, complete_initial_baseline}
use schema_sentry.Scan.Stored.{IsStored, add_baseline-IsStored}
use schema_sentry.Scan.Stored.Loaded.{load-IsStored}

-- Lists with the same columns, one for each reference, have the same column at a reference.
column_at-same :
    (xs ys : List ColumnDefinition) (ref : ColumnRef)
    → ((c : ColumnDefinition) → Memᴰ c xs ↔ Memᴰ c ys)
    → ((a b : ColumnDefinition) → Memᴰ a ys → Memᴰ b ys → column_ref a ≡ column_ref b → a ≡ b)
    → column_at ref xs ≡ column_at ref ys
column_at-same xs ys ref iff unique = elim (Option-cases (column_at ref xs)) [
  | inl none_x ↦ elim (Option-cases (column_at ref ys)) [
    | inl none_y ↦ none_x ∙ sym none_y
    | inr (b, some_y) ↦
        let m = (iff b).1 (mem_of_latest column_ref ref ys some_y) in
        absurd (
          ground (
            arith,
            latest_of_mem column_ref b xs m,
            key_of_latest column_ref ref ys some_y,
            ap is_some none_x,
          ))
  ]
  | inr (a, some_x) ↦ elim (Option-cases (column_at ref ys)) [
    | inl none_y ↦
        let m = (iff a).0 (mem_of_latest column_ref ref xs some_x) in
        absurd (
          ground (
            arith,
            latest_of_mem column_ref a ys m,
            key_of_latest column_ref ref xs some_x,
            ap is_some none_y,
          ))
    | inr (b, some_y) ↦
        let same =
          unique a b ((iff a).0 (mem_of_latest column_ref ref xs some_x))
            (mem_of_latest column_ref ref ys some_y)
            (key_of_latest column_ref ref xs some_x
              ∙ sym (key_of_latest column_ref ref ys some_y)) in
        some_x ∙ ap some same ∙ sym some_y
  ]
]

Agrees-refl : (o : Option ColumnDefinition) → Agrees o o
Agrees-refl none = tt
Agrees-refl (some c) = (refl, refl)

-- Let the dataset ids be distinct and in use, the rows of the baseline name ids that are in use, the source and
-- the scan be stored, no dataset of the source have a column yet, and the observed columns differ in their
-- dataset or name. Then the first scan of the source stores the columns that it observed: what the next scan
-- loads are exactly these columns, and compared with the same observation they give no change.
pub complete_initial_baseline-loaded :
    (scan_id : ℕ) (key : String) (observed : List ColumnDefinition) (now : ℕ) (db : Db)
    (source : DataSourceRow) (scan : ScanRunRow) (deps : List ColumnRef)
    → find (λ s. s.key == key) db.sources ≡ some source
    → find (λ s. s.id == scan_id) db.scans ≡ some scan
    → HasIds db.next_id (map (λ d. d.id) db.datasets)
    → ((r : ExpectedColumnRow) → Memᴰ r db.expected → r.dataset_id < db.next_id)
    → ((r : ExpectedColumnRow) (d : DatasetRow)
        → Memᴰ r db.expected
        → Memᴰ d db.datasets
        → d.source_id ≡ source.id
        → d.id ≢ r.dataset_id)
    → ((a b : ColumnDefinition)
        → Memᴰ a observed
        → Memᴰ b observed
        → column_ref a ≡ column_ref b
        → a ≡ b)
    → (loaded : List ColumnDefinition) × (db' : Db) × (complete_initial_baseline scan_id key
          observed now db
        ≡ (ok tt, db'))
      × (load_expected_columns key db' ≡ (ok loaded, db'))
      × ((c : ColumnDefinition) → Memᴰ c loaded ↔ Memᴰ c observed)
      × (diff_columns loaded observed deps ≡ ok [])
unfolding complete_initial_baseline get_source get_scan or_raise persist_observations complete_scan
complete_initial_baseline-loaded scan_id key observed now db source scan deps has_source has_scan
      ids known fresh unique =
    let datasets = datasets_by_ref source.id db in
    let start : IsStored source.id db.sources db datasets [] = record {
      same_sources = refl;
      ids = ids;
      known = known;
      found = indexed;
      of_row = λ r d m n s e. absurd (fresh r d m n s e);
      of_column = λ c m. absurd (Memᴰ.not-nil m);
    } in
    let (datasets', stored) =
      add_baseline-IsStored source.id db.sources observed db datasets [] start in
    let written =
      complete_scan scan now
        (persist_observations scan observed (add_baseline source.id datasets observed db)) in
    let after : IsStored source.id db.sources written datasets' observed = record {
      same_sources = stored.same_sources;
      ids = stored.ids;
      known = stored.known;
      found = stored.found;
      of_row = stored.of_row;
      of_column = stored.of_column;
    } in
    let (loaded, loads, iff) =
      load-IsStored source key db.sources has_source written datasets' observed after in
    (
      loaded,
      written,
      rw (has_source, has_scan) refl,
      loads,
      iff,
      (diff_columns-eq-nil_iff loaded observed deps).1 (λ r.
          subst (λ o. Agrees o (column_at r observed))
            (sym (column_at-same loaded observed r iff unique))
            (Agrees-refl (column_at r observed))),
    )
  where
    indexed :
        (ref : DatasetRef) (d : DatasetRow)
        → Dict.get ref (datasets_by_ref source.id db) ≡ some d
        → Memᴰ d db.datasets × (d.source_id ≡ source.id) × (dataset_ref d ≡ ref)
    indexed ref d h =
        let found = sym (get-index_by dataset_ref ref (datasets_of source.id db)) ∙ h in
        let (n, test) =
          (Memᴰ-filter (λ x. x.source_id == source.id) d db.datasets).0
            (mem_of_latest dataset_ref ref (datasets_of source.id db) found) in
        (
          n,
          (ℕ_eq.test_iff d.source_id source.id).0 test,
          key_of_latest dataset_ref ref (datasets_of source.id db) found,
        )
