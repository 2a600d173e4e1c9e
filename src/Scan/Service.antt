-- ===== src/Scan/Service.antt =====
-- src/schema_sentry/application/scan_service.py, and the request `POST /api/v1/scans` of api/routers/scans.py
-- with the transaction that `get_database_session` of api/dependencies.py puts around it. The lock's
-- answer, the collector's result and the readings of the clock are arguments.

use schema_sentry.Prelude.{ℕ, String, Bool, true, false, List, [], ◌∷◌, length}
use schema_sentry.Prelude.Exec.{pure, raise, lift, handle, ◌>>=◌, ◌>>◌}
use schema_sentry.Prelude.Json.{Json}
use schema_sentry.Prelude.Result.{Result, ok, err}
use schema_sentry.Domain.Diff.{ChangeError, diff_columns}
use schema_sentry.Domain.Enums.{ScanTrigger, manual, AlertChannel}
use schema_sentry.Domain.Models.{ColumnDefinition, SchemaChange}
use schema_sentry.Store.{
  Db, Exception, source_not_found, scan_already_running, empty_schema_snapshot, lookup_error,
  key_error, attribute_error, value_error, type_error, driver_error, change_not_found,
  baseline_version_conflict,
}
use schema_sentry.Scan.Reading.{Session, load_expected_columns, load_dependency_columns}
use schema_sentry.Scan.Baseline.{complete_initial_baseline}
use schema_sentry.Scan.Writing.{create_running_scan, complete_drift_scan, fail_scan}

pub record ScanReport : Type 0 where
  pub scan_id : ℕ
  pub source_key : String
  pub trigger : ScanTrigger
  pub baseline_created : Bool
  pub observed_count : ℕ
  pub changes : List SchemaChange

-- `type(exc).__name__`
unfoldable pub exception_name : Exception → String
exception_name (source_not_found key) = "SourceNotFound"
exception_name (scan_already_running key) = "ScanAlreadyRunning"
exception_name (empty_schema_snapshot key) = "EmptySchemaSnapshot"
exception_name lookup_error = "LookupError"
exception_name key_error = "KeyError"
exception_name attribute_error = "AttributeError"
exception_name value_error = "ValueError"
exception_name type_error = "TypeError"
exception_name (driver_error name) = name
exception_name (change_not_found id) = "ChangeNotFound"
exception_name (baseline_version_conflict expected actual) = "BaselineVersionConflict"

-- an exception of domain/diff.py, raised
unfoldable pub of_diff :
    Result ChangeError (List SchemaChange) → Result Exception (List SchemaChange)
of_diff (ok changes) = ok changes
of_diff (err e) = err value_error

-- the readings of the clock in one scan
pub record Clock : Type 0 where
  pub started_at : ℕ
  pub finished_at : ℕ
  pub failed_at : ℕ

module _ (digest : Json → String) (channels : List AlertChannel) (scan_id : ℕ) (source_key : String)
    (trigger : ScanTrigger) where
  unfoldable pub first_scan : List ColumnDefinition → ℕ → Session ScanReport
  unfolding complete_initial_baseline
  first_scan observed now = do
    complete_initial_baseline scan_id source_key observed now
    pure (record {
      scan_id = scan_id;
      source_key = source_key;
      trigger = trigger;
      baseline_created = true;
      observed_count = length observed;
      changes = [];
    })

  unfoldable pub drift_scan : List ColumnDefinition → List ColumnDefinition → ℕ → Session ScanReport
  unfolding load_dependency_columns of_diff complete_drift_scan
  drift_scan expected observed now = do
    dependencies ← load_dependency_columns source_key
    changes ← lift (of_diff (diff_columns expected observed dependencies))
    complete_drift_scan digest channels scan_id source_key observed changes now
    pure (record {
      scan_id = scan_id;
      source_key = source_key;
      trigger = trigger;
      baseline_created = false;
      observed_count = length observed;
      changes = changes;
    })

  unfoldable pub compare_snapshot :
      List ColumnDefinition → ℕ → List ColumnDefinition → Session ScanReport
  unfolding first_scan drift_scan
  compare_snapshot observed now [] = first_scan observed now
  compare_snapshot observed now (e ∷ es) = drift_scan (e ∷ es) observed now

  unfoldable pub scan_snapshot : ℕ → List ColumnDefinition → Session ScanReport
  unfolding load_expected_columns compare_snapshot
  scan_snapshot now [] = raise (empty_schema_snapshot source_key)
  scan_snapshot now (c ∷ cs) = load_expected_columns source_key >>= compare_snapshot (c ∷ cs) now

  -- the body of the `try`
  unfoldable pub scan_body : Result Exception (List ColumnDefinition) → ℕ → Session ScanReport
  unfolding scan_snapshot
  scan_body collected now = lift collected >>= scan_snapshot now

  -- the `except`
  unfoldable pub record_failure : ℕ → Exception → Session ScanReport
  unfolding fail_scan exception_name
  record_failure now e =
      fail_scan channels scan_id (exception_name e) "schema collection failed" now >> raise e

module _ (digest : Json → String) (channels : List AlertChannel) where
  unfoldable pub run_scan :
      Bool
      → Result Exception (List ColumnDefinition)
      → Clock
      → String
      → ScanTrigger
      → Session ScanReport
  unfolding create_running_scan scan_body record_failure
  run_scan false collected clock source_key trigger = raise (scan_already_running source_key)
  run_scan true collected clock source_key trigger = do
    scan_id ← create_running_scan source_key trigger clock.started_at
    λ db.
        handle (scan_body digest channels scan_id source_key trigger collected clock.finished_at db)
          (record_failure digest channels scan_id source_key trigger clock.failed_at)

-- ---------------------------------------------------------------- the request

-- A response of the service: 201 with a report, or an error status.
pub data Response : Type 0 where
  created : ScanReport → Response
  error : ℕ → Response

-- whether the transaction's writes stay
pub data Outcome : Type 0 where
  commit rollback : Outcome

-- `run_scan` of the router, and the transaction's end
unfoldable pub respond : Result Exception ScanReport → Response × Outcome
respond (ok report) = (created report, commit)
respond (err (scan_already_running key)) = (error 409, commit)
respond (err (source_not_found key)) = (error 404, commit)
respond (err (driver_error name)) = (error 503, commit)
respond (err (empty_schema_snapshot key)) = (error 503, commit)
respond (err lookup_error) = (error 500, rollback)
respond (err key_error) = (error 500, rollback)
respond (err attribute_error) = (error 500, rollback)
respond (err value_error) = (error 500, rollback)
respond (err type_error) = (error 500, rollback)
respond (err (change_not_found id)) = (error 500, rollback)
respond (err (baseline_version_conflict expected actual)) = (error 500, rollback)

unfoldable pub end_transaction : Db → Response × Outcome → Db → Response × Db
end_transaction before (r, commit) after = (r, after)
end_transaction before (r, rollback) after = (r, before)

module _ (digest : Json → String) (channels : List AlertChannel) where
  unfoldable pub post_scan :
      Bool → Result Exception (List ColumnDefinition) → Clock → String → Db → Response × Db
  unfolding run_scan respond end_transaction
  post_scan acquired collected clock source_key db =
      let (r, after) = run_scan digest channels acquired collected clock source_key manual db in
      end_transaction db (respond r) after
