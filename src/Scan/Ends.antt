-- ===== src/Scan/Ends.antt =====
-- How `run_scan` ends: what it leaves of the row of its scan.
use schema_sentry.Prelude.{
  ℕ, suc, ◌<◌, String, Bool, true, false, Option, none, some, List, [], ◌∷◌, ◌++◌, ◌≡◌, inl, inr,
  refl, sym, ap, subst, arith, ◌==◌, ℕ_eq, String_eq, if◌then◌else◌, Option-cases, All,
}
use schema_sentry.Prelude.Exec.{lift, handle}
use schema_sentry.Prelude.Json.{Json}
use schema_sentry.Prelude.Result.{Result, ok, err}
use schema_sentry.Domain.Diff.{diff_columns}
use schema_sentry.Domain.Enums.{AlertChannel, ScanStatus, running, completed, ScanTrigger}
use schema_sentry.Domain.Models.{ColumnDefinition}
use schema_sentry.Store.{Db, Exception, DataSourceRow, ScanRunRow, find, update}
use schema_sentry.Scan.Baseline.{complete_initial_baseline}
use schema_sentry.Scan.Frame.{
  Finishes, create_pending_deliveries-scans, continue-Finishes, completed_scans, returned-Finishes,
  complete_initial_baseline-Finishes, complete_drift_scan-Finishes,
}
use schema_sentry.Scan.Reading.{
  get_source, get_scan, load_expected_columns, load_dependency_columns,
}
use schema_sentry.Scan.Service.{
  ScanReport, Clock, exception_name, of_diff, first_scan, drift_scan, compare_snapshot,
  scan_snapshot, scan_body, record_failure, run_scan,
}
use schema_sentry.Scan.Writing.{
  create_running_scan, complete_drift_scan, completed_row, failed_row, fail_scan,
}

load_expected_columns-state : (key : String) (db : Db) → (load_expected_columns key db).1 ≡ db
unfolding load_expected_columns get_source
load_expected_columns-state key db = elim (Option-cases (find (λ s. s.key == key) db.sources)) [
  | inl missing ↦ rw missing refl
  | inr (source, h) ↦ rw h refl
]

load_dependency_columns-state : (key : String) (db : Db) → (load_dependency_columns key db).1 ≡ db
unfolding load_dependency_columns get_source
load_dependency_columns-state key db = elim (Option-cases (find (λ s. s.key == key) db.sources)) [
  | inl missing ↦ rw missing refl
  | inr (source, h) ↦ rw h refl
]

-- A row that is changed in place is found again.
find-update :
    (n : ℕ) (f : ScanRunRow → ScanRunRow) (xs : List ScanRunRow) (s : ScanRunRow)
    → ((r : ScanRunRow) → (f r).id ≡ r.id)
    → find (λ s. s.id == n) xs ≡ some s
    → find (λ s. s.id == n) (update (λ r. r.id == s.id) f xs) ≡ some (f s)
find-update n f [] s keep h = ground (arith, h)
find-update n f (x ∷ xs) s keep h = ground (
  arith,
  find-update n f xs s keep,
  keep x,
  keep s,
  found_id n xs s,
  ℕ_eq.test_iff x.id n,
  ℕ_eq.test_iff x.id s.id,
  ℕ_eq.test_iff (f x).id n,
)
  where
    found_id :
        (n : ℕ) (xs : List ScanRunRow) (s : ScanRunRow)
        → find (λ s. s.id == n) xs ≡ some s
        → s.id ≡ n
    found_id n [] s h = ground (arith, h)
    found_id n (x ∷ xs) s h = ground (arith, found_id n xs s, ℕ_eq.test_iff x.id n, h)

module _ (digest : Json → String) (channels : List AlertChannel) (scan_id : ℕ) (key : String)
    (trigger : ScanTrigger) (now : ℕ) (scan : ScanRunRow) where
  abbrev IsFinished : List ScanRunRow → Result Exception ScanReport × Db → Type 0
  IsFinished before r = Finishes before (completed_scans scan now before) r

  -- the call begins in a state with the scan's row
  abbrev HasScan : Db → Type 0
  HasScan db = find (λ s. s.id == scan_id) db.scans ≡ some scan

  first_scan-Finishes :
      (observed : List ColumnDefinition) (db : Db)
      → HasScan db
      → IsFinished db.scans (first_scan digest channels scan_id key trigger observed now db)
  unfolding first_scan
  first_scan-Finishes observed db found =
      returned-Finishes db.scans (completed_scans scan now db.scans)
        (complete_initial_baseline scan_id key observed now db) _
        (complete_initial_baseline-Finishes channels scan_id key observed now scan db found)

  drift_scan-Finishes :
      (expected observed : List ColumnDefinition) (db : Db)
      → HasScan db
      → IsFinished db.scans
          (drift_scan digest channels scan_id key trigger expected observed now db)
  unfolding drift_scan
  drift_scan-Finishes expected observed db found =
      let after = completed_scans scan now db.scans in
      continue-Finishes db.scans after (load_dependency_columns key db) _
        (ap (λ d. d.scans) (load_dependency_columns-state key db))
        (λ dependencies d same.
          continue-Finishes db.scans after
            (lift (of_diff (diff_columns expected observed dependencies)) d) _ same
            (λ changes d' same'.
              returned-Finishes db.scans after
                (complete_drift_scan digest channels scan_id key observed changes now d') _
                (subst
                  (λ before.
                    Finishes before (completed_scans scan now before)
                      (complete_drift_scan digest channels scan_id key observed changes now d'))
                  same'
                  (complete_drift_scan-Finishes channels scan_id key observed now scan digest
                    changes d'
                    (subst (λ before. find (λ s. s.id == scan_id) before ≡ some scan) (sym same')
                      found)))))

  compare_snapshot-Finishes :
      (observed expected : List ColumnDefinition) (db : Db)
      → HasScan db
      → IsFinished db.scans
          (compare_snapshot digest channels scan_id key trigger observed now expected db)
  unfolding compare_snapshot
  compare_snapshot-Finishes observed [] db found = first_scan-Finishes observed db found
  compare_snapshot-Finishes observed (e ∷ es) db found =
      drift_scan-Finishes (e ∷ es) observed db found

  scan_snapshot-Finishes :
      (observed : List ColumnDefinition) (db : Db)
      → HasScan db
      → IsFinished db.scans (scan_snapshot digest channels scan_id key trigger now observed db)
  unfolding scan_snapshot
  scan_snapshot-Finishes [] db found = refl
  scan_snapshot-Finishes (c ∷ cs) db found =
      let same = load_expected_columns-state key db in
      continue-Finishes db.scans (completed_scans scan now db.scans) (load_expected_columns key db)
        _ (ap (λ d. d.scans) same)
        (λ expected d same'.
          subst
            (λ before.
              IsFinished before
                (compare_snapshot digest channels scan_id key trigger (c ∷ cs) now expected d))
            same'
            (compare_snapshot-Finishes (c ∷ cs) expected d
              (subst (λ before. find (λ s. s.id == scan_id) before ≡ some scan) (sym same') found)))

  scan_body-Finishes :
      (collected : Result Exception (List ColumnDefinition)) (db : Db)
      → HasScan db
      → IsFinished db.scans (scan_body digest channels scan_id key trigger collected now db)
  unfolding scan_body
  scan_body-Finishes (err e) db found = refl
  scan_body-Finishes (ok observed) db found = scan_snapshot-Finishes observed db found

-- ---------------------------------------------------------------- the run

abbrev is_ok {ℓ} : {A : Type ℓ} → Result Exception A → Bool
is_ok (ok a) = true
is_ok (err e) = false

abbrev error_of {ℓ} : {A : Type ℓ} → Result Exception A → Option String
error_of (ok a) = none
error_of (err e) = some (exception_name e)

abbrev end_time {ℓ} : {A : Type ℓ} → Clock → Result Exception A → ℕ
end_time clock (ok a) = clock.finished_at
end_time clock (err e) = clock.failed_at

-- The row of a scan that ended: COMPLETED if it returned, FAILED with the name of its exception if it raised.
pub record Ended (scan_id source_id : ℕ) (trigger : ScanTrigger) (clock : Clock)
    (r : Result Exception ScanReport × Db) : Type 0 where
  pub row : ScanRunRow
  pub stored : find (λ s. s.id == scan_id) r.1.scans ≡ some row
  pub of_source : row.source_id ≡ source_id
  pub triggered : row.trigger ≡ trigger
  pub began : row.started_at ≡ clock.started_at
  pub status : row.status ≡ (if is_ok r.0 then completed else ScanStatus.failed)
  pub finished : row.finished_at ≡ some (end_time clock r.0)
  pub error : row.error_code ≡ error_of r.0

-- the row that `create_running_scan` adds
abbrev started_row : ℕ → ℕ → ScanTrigger → ℕ → ScanRunRow
started_row id source_id trigger now = record {
  id = id;
  source_id = source_id;
  trigger = trigger;
  status = running;
  started_at = now;
  finished_at = none;
  duration_ms = none;
  error_code = none;
  error_message = none;
}

find-append_new :
    (n : ℕ) (xs : List ScanRunRow) (s : ScanRunRow)
    → All (λ r. r.id < n) xs
    → s.id ≡ n
    → find (λ r. r.id == n) (xs ++ s ∷ []) ≡ some s
find-append_new n [] s fresh same = ground (arith, ℕ_eq.test_iff s.id n)
find-append_new n (x ∷ xs) s fresh same =
    ground (arith, ℕ_eq.test_iff x.id n, find-append_new n xs s fresh.1 same)

module _ (digest : Json → String) (channels : List AlertChannel) (key : String)
    (trigger : ScanTrigger) (clock : Clock) (source : DataSourceRow) (n : ℕ) where
  abbrev row : ScanRunRow
  row = started_row n source.id trigger clock.started_at

  -- The end of the `try`: the body's result, and what the `except` makes of an exception.
  handle-Ended :
      (before : List ScanRunRow) (r : Result Exception ScanReport × Db)
      → find (λ s. s.id == n) before ≡ some row
      → Finishes before (completed_scans row clock.finished_at before) r
      → Ended n source.id trigger clock
          (handle r (record_failure digest channels n key trigger clock.failed_at))
  unfolding completed_row record_failure fail_scan get_scan failed_row
  handle-Ended before (ok report, db) found h = record {
    row = completed_row clock.finished_at row;
    stored = rw h (find-update n (completed_row clock.finished_at) before row (λ r. refl) found);
    of_source = refl;
    triggered = refl;
    began = refl;
    status = refl;
    finished = refl;
    error = refl;
  }
  handle-Ended before (err e, db) found h =
      let here : find (λ s. s.id == n) db.scans ≡ some row = rw h found in
      rw here (record {
        row = failed_row (exception_name e) "schema collection failed" clock.failed_at row;
        stored = rw (create_pending_deliveries-scans channels row _) (
            find-update n (failed_row (exception_name e) "schema collection failed" clock.failed_at)
              db.scans row (λ r. refl) here);
        of_source = refl;
        triggered = refl;
        began = refl;
        status = refl;
        finished = refl;
        error = refl;
      })

-- A run for a registered source that got the lock always ends its own scan: the row with the new id is
-- COMPLETED at the time of the write if the run returned a report, and FAILED with the name of the
-- exception if it raised.
pub run_scan-Ended :
    (digest : Json → String) (channels : List AlertChannel)
    (collected : Result Exception (List ColumnDefinition)) (clock : Clock) (key : String)
    (trigger : ScanTrigger) (db : Db) (source : DataSourceRow)
    → find (λ s. s.key == key) db.sources ≡ some source
    → All (λ s. s.id < db.next_id) db.scans
    → Ended db.next_id source.id trigger clock
        (run_scan digest channels true collected clock key trigger db)
unfolding run_scan create_running_scan get_source
run_scan-Ended digest channels collected clock key trigger db source has_source fresh =
    let row = started_row db.next_id source.id trigger clock.started_at in
    let found = find-append_new db.next_id db.scans row fresh refl in
    rw has_source (
      handle-Ended digest channels key trigger clock source db.next_id (db.scans ++ row ∷ [])
        (scan_body digest channels db.next_id key trigger collected clock.finished_at
          (record db { scans = db.scans ++ row ∷ []; next_id = suc db.next_id }))
        found
        (scan_body-Finishes digest channels db.next_id key trigger clock.finished_at row collected _
          found))
