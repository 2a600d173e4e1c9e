-- ===== src/Scan/Frame.antt =====
-- What the steps of a scan leave of the table of scans.
use schema_sentry.Prelude.{
  ℕ, String, Bool, true, false, some, List, [], ◌∷◌, map, filter, ◌≡◌, refl, ap, ◌∙◌, ◌==◌, ℕ_eq,
  inl, inr, String_eq, is_some, Bool-cases, Option-cases, ◌||◌,
}
use schema_sentry.Prelude.Dict
use schema_sentry.Prelude.Dict.{Dict, index_by}
use schema_sentry.Prelude.Exec.{pure, continue}
use schema_sentry.Prelude.Json.{Json}
use schema_sentry.Prelude.Result.{Result, ok, err}
use schema_sentry.Domain.Enums.{AlertChannel}
use schema_sentry.Domain.Models.{DatasetRef, DatasetRef_eq, SchemaChange, ColumnDefinition}
use schema_sentry.Store.{
  Db, Exception, DataSourceRow, DatasetRow, ScanRunRow, SchemaChangeRow, find, update,
}
use schema_sentry.Scan.Baseline.{
  add_baseline, add_expected, add_dataset, new_dataset, complete_initial_baseline,
}
use schema_sentry.Scan.Reading.{get_source, get_scan, datasets_by_ref}
use schema_sentry.Scan.Recording.{recorded}
use schema_sentry.Scan.Writing.{
  record_changes, complete_drift_scan, persist_observations, complete_scan,
  create_pending_deliveries, add_change, change_fingerprint, alertable, completed_row, is_open_of,
  finish_drift,
}

-- A call that returns leaves the second table of scans, a call that raises the first.
abbrev pub Finishes {ℓ} :
    {A : Type ℓ} → List ScanRunRow → List ScanRunRow → Result Exception A × Db → Type 0
Finishes before after (ok a, db) = db.scans ≡ after
Finishes before after (err e, db) = db.scans ≡ before

-- A call that leaves the scans as they were, and what follows it.
pub continue-Finishes {ℓ κ} :
    {A : Type ℓ} {B : Type κ} (before after : List ScanRunRow) (r : Result Exception A × Db)
    (f : A → Db → Result Exception B × Db)
    → r.1.scans ≡ before
    → ((a : A) (db : Db) → db.scans ≡ before → Finishes before after (f a db))
    → Finishes before after (continue r f)
continue-Finishes before after (ok a, db) f same next = next a db same
continue-Finishes before after (err e, db) f same next = same

-- A value that is made of what a call returned.
pub returned-Finishes {ℓ κ} :
    {A : Type ℓ} {B : Type κ} (before after : List ScanRunRow) (r : Result Exception A × Db)
    (f : A → B)
    → Finishes before after r
    → Finishes before after (continue r (λ a. pure (f a)))
returned-Finishes before after (ok a, db) f h = h
returned-Finishes before after (err e, db) f h = h

pub create_pending_deliveries-scans :
    (channels : List AlertChannel) (scan : ScanRunRow) (db : Db)
    → (create_pending_deliveries channels scan db).scans ≡ db.scans
unfolding create_pending_deliveries
create_pending_deliveries-scans [] scan db = refl
create_pending_deliveries-scans (c ∷ cs) scan db = create_pending_deliveries-scans cs scan _

add_baseline-scans :
    (source_id : ℕ) (columns : List ColumnDefinition) (datasets : Dict DatasetRef DatasetRow)
    (db : Db)
    → (add_baseline source_id datasets columns db).scans ≡ db.scans
unfolding add_baseline add_expected add_dataset new_dataset
add_baseline-scans source_id [] datasets db = refl
add_baseline-scans source_id (c ∷ cs) datasets db =
    elim (Option-cases (Dict.get c.dataset datasets)) [
      | inl missing ↦ rw (missing, add_baseline) (add_baseline-scans source_id cs _ _)
      | inr (d, found) ↦ rw (found, add_baseline) (add_baseline-scans source_id cs datasets _)
    ]

module _ (digest : Json → String) (scan : ScanRunRow) (source : DataSourceRow)
    (datasets : Dict DatasetRef DatasetRow) (opened : Dict String SchemaChangeRow)
    (key : String) where
  record_changes-scans :
      (changes : List SchemaChange) (alert : Bool) (db : Db)
      → (recorded digest scan source datasets opened key changes alert db).1.scans ≡ db.scans
  unfolding record_changes add_change
  record_changes-scans [] alert db = refl
  record_changes-scans (c ∷ cs) alert db =
      elim (Bool-cases (is_some (Dict.get (change_fingerprint digest key c) opened))) [
        | inl known ↦ rw (known, record_changes) (record_changes-scans cs alert db)
        | inr unknown ↦ elim (Option-cases (Dict.get c.dataset datasets)) [
          | inl missing ↦ rw (unknown, missing, record_changes) refl
          | inr (d, found) ↦
              rw (unknown, found, record_changes)
                (record_changes-scans cs (alert || alertable c.severity) _)
        ]
      ]

-- ---------------------------------------------------------------- the end of a scan

module _ (scan : ScanRunRow) (now : ℕ) (before : List ScanRunRow) where
  abbrev pub completed_scans : List ScanRunRow
  completed_scans = update (λ s. s.id == scan.id) (completed_row now) before

module _ (channels : List AlertChannel) (scan_id : ℕ) (key : String)
    (observed : List ColumnDefinition) (now : ℕ) (scan : ScanRunRow) where
  pub complete_initial_baseline-Finishes :
      (db : Db)
      → find (λ s. s.id == scan_id) db.scans ≡ some scan
      → Finishes db.scans
          (completed_scans scan now db.scans)
          (complete_initial_baseline scan_id key observed now db)
  unfolding complete_initial_baseline get_source get_scan persist_observations complete_scan
  complete_initial_baseline-Finishes db found =
      elim (Option-cases (find (λ s. s.key == key) db.sources)) [
        | inl missing ↦ rw missing refl
        | inr (source, h) ↦
            rw (h, found)
              (ap (update (λ s. s.id == scan.id) (completed_row now))
                (add_baseline-scans source.id observed _ db))
      ]

  finish_drift-scans :
      (opened : Dict String SchemaChangeRow) (active : List String) (before : List ScanRunRow)
      → (alert : Bool) (db : Db) → db.scans ≡ before
      → Finishes before
          (completed_scans scan now before)
          (finish_drift channels scan opened active now alert db)
  unfolding finish_drift complete_scan
  finish_drift-scans opened active before true db same =
      ap (update (λ s. s.id == scan.id) (completed_row now))
        (create_pending_deliveries-scans channels scan _ ∙ same)
  finish_drift-scans opened active before false db same =
      ap (update (λ s. s.id == scan.id) (completed_row now)) same

  pub complete_drift_scan-Finishes :
      (digest : Json → String) (changes : List SchemaChange) (db : Db)
      → find (λ s. s.id == scan_id) db.scans ≡ some scan
      → Finishes db.scans
          (completed_scans scan now db.scans)
          (complete_drift_scan digest channels scan_id key observed changes now db)
  unfolding complete_drift_scan get_source get_scan persist_observations complete_scan
  complete_drift_scan-Finishes digest changes db found =
      elim (Option-cases (find (λ s. s.key == key) db.sources)) [
        | inl missing ↦ rw missing refl
        | inr (source, h) ↦
            let opened = index_by (λ r. r.fingerprint) (filter (is_open_of source.id) db.changes) in
            let datasets = datasets_by_ref source.id db in
            rw (h, found)
              (continue-Finishes db.scans (completed_scans scan now db.scans)
                (recorded digest scan source datasets opened key changes false
                  (persist_observations scan observed db))
                (finish_drift channels scan opened (map (change_fingerprint digest key) changes)
                  now)
                (record_changes-scans digest scan source datasets opened key changes false _)
                (finish_drift-scans opened (map (change_fingerprint digest key) changes) db.scans))
      ]
