-- ===== src/System/Scans.antt =====
-- A scan keeps the invariant of the store, however it ends.
use schema_sentry.Prelude.{
  ◌==◌, ℕ_eq, String_eq, ℕ, String, Bool, true, false, List, [], ◌∷◌, refl, arith, is_some, ◌||◌,
  Bool-cases, Option-cases, inl, inr,
}
use schema_sentry.Prelude.Dict
use schema_sentry.Prelude.Dict.{Dict}
use schema_sentry.Prelude.Exec.{lift}
use schema_sentry.Prelude.Json.{Json}
use schema_sentry.Prelude.Preserves.{Preserves, continue-keeps, bind-keeps, handle-keeps}
use schema_sentry.Prelude.Result.{Result}
use schema_sentry.Domain.Diff.{diff_columns}
use schema_sentry.Domain.Enums.{AlertChannel, ScanTrigger, manual}
use schema_sentry.Domain.Models.{DatasetRef, DatasetRef_eq, ColumnDefinition, SchemaChange}
use schema_sentry.Store.{
  Db, DataSourceRow, DatasetRow, ScanRunRow, SchemaChangeRow, Exception, find,
}
use schema_sentry.Scan.Reading.{
  or_raise, get_source, get_scan, load_expected_columns, load_dependency_columns, datasets_by_ref,
}
use schema_sentry.Scan.Writing.{
  create_running_scan, persist_observations, completed_row, complete_scan, failed_row,
  pending_delivery, create_pending_deliveries, fail_scan, resolve_missing, finish_drift, change_row,
  add_change, record_changes, change_fingerprint, alertable, complete_drift_scan,
}
use schema_sentry.Scan.Baseline.{
  add_expected, new_dataset, add_dataset, add_baseline, complete_initial_baseline,
}
use schema_sentry.Scan.Service.{
  of_diff, Clock, Response, first_scan, drift_scan, compare_snapshot, scan_snapshot, scan_body,
  record_failure, run_scan, Outcome, commit, rollback, respond, end_transaction, post_scan,
}
use schema_sentry.System.Sound.{
  IsSound, new_scan-IsSound, new_dataset-IsSound, new_change-IsSound, new_delivery-IsSound,
  update_scans-IsSound, update_changes-IsSound, other_tables-IsSound,
}

-- ---------------------------------------------------------------- reads and single writes

get_source-keeps : (key : String) → Preserves IsSound (get_source key)
unfolding get_source or_raise
get_source-keeps key db h = elim (Option-cases (find (λ s. s.key == key) db.sources)) [
  | inl missing ↦ rw missing h
  | inr (s, found) ↦ rw found h
]

get_scan-keeps : (id : ℕ) → Preserves IsSound (get_scan id)
unfolding get_scan or_raise
get_scan-keeps id db h = elim (Option-cases (find (λ s. s.id == id) db.scans)) [
  | inl missing ↦ rw missing h
  | inr (s, found) ↦ rw found h
]

pub create_pending_deliveries-IsSound :
    (channels : List AlertChannel) (scan : ScanRunRow) (db : Db)
    → IsSound db
    → IsSound (create_pending_deliveries channels scan db)
unfolding create_pending_deliveries pending_delivery
create_pending_deliveries-IsSound [] scan db h = h
create_pending_deliveries-IsSound (c ∷ cs) scan db h = create_pending_deliveries-IsSound cs scan _ (
    new_delivery-IsSound db h (pending_delivery db.next_id scan.id c) refl
      (omega arith, λ _. (refl, refl)))

complete_scan-IsSound :
    (scan : ScanRunRow) (now : ℕ) (db : Db) → IsSound db → IsSound (complete_scan scan now db)
unfolding complete_scan completed_row
complete_scan-IsSound scan now db h = update_scans-IsSound db h _ (completed_row now) (λ s. refl)

persist_observations-IsSound :
    (scan : ScanRunRow) (columns : List ColumnDefinition) (db : Db)
    → IsSound db
    → IsSound (persist_observations scan columns db)
unfolding persist_observations
persist_observations-IsSound scan columns db h = other_tables-IsSound db h db.expected _ db.edges

fail_scan-keeps :
    (channels : List AlertChannel) (id : ℕ) (code message : String) (now : ℕ)
    → Preserves IsSound (fail_scan channels id code message now)
unfolding fail_scan failed_row
fail_scan-keeps channels id code message now db h =
    continue-keeps IsSound (get_scan id db) _ (get_scan-keeps id db h) (λ scan s k.
      create_pending_deliveries-IsSound channels scan _
        (update_scans-IsSound s k _ (failed_row code message now) (λ x. refl)))

-- ---------------------------------------------------------------- the first scan

add_baseline-IsSound :
    (source_id : ℕ) (datasets : Dict DatasetRef DatasetRow) (columns : List ColumnDefinition)
    (db : Db)
    → IsSound db
    → IsSound (add_baseline source_id datasets columns db)
unfolding add_baseline add_expected new_dataset add_dataset
add_baseline-IsSound source_id datasets [] db h = h
add_baseline-IsSound source_id datasets (c ∷ cs) db h =
    elim (Option-cases (Dict.get c.dataset datasets)) [
      | inl missing ↦
          rw (missing, add_baseline)
            (add_baseline-IsSound source_id
              (Dict.put c.dataset (new_dataset source_id c.dataset db) datasets) cs _
              (other_tables-IsSound _
                (new_dataset-IsSound db h (new_dataset source_id c.dataset db) refl) _ db.observed
                db.edges))
      | inr (d, found) ↦
          rw (found, add_baseline)
            (add_baseline-IsSound source_id datasets cs _
              (other_tables-IsSound db h _ db.observed db.edges))
    ]

complete_initial_baseline-keeps :
    (scan_id : ℕ) (key : String) (observed : List ColumnDefinition) (now : ℕ)
    → Preserves IsSound (complete_initial_baseline scan_id key observed now)
unfolding complete_initial_baseline
complete_initial_baseline-keeps scan_id key observed now db h =
    continue-keeps IsSound (get_source key db) _ (get_source-keeps key db h) (λ source s k.
      continue-keeps IsSound (get_scan scan_id s) _ (get_scan-keeps scan_id s k) (λ scan t l.
        complete_scan-IsSound scan now _ (
          persist_observations-IsSound scan observed _
            (add_baseline-IsSound source.id (datasets_by_ref source.id t) observed t l))))

-- ---------------------------------------------------------------- later scans

module _ (digest : Json → String) where
  record_changes-keeps :
      (scan : ScanRunRow) (source : DataSourceRow) (datasets : Dict DatasetRef DatasetRow)
      (opened : Dict String SchemaChangeRow) (key : String) (changes : List SchemaChange)
      (alert : Bool)
      → Preserves IsSound (record_changes digest scan source datasets opened key changes alert)
  unfolding record_changes add_change change_row
  record_changes-keeps scan source datasets opened key [] alert db h = h
  record_changes-keeps scan source datasets opened key (c ∷ cs) alert db h =
      elim (Bool-cases (is_some (Dict.get (change_fingerprint digest key c) opened))) [
        | inl known ↦
            rw (known, record_changes)
              (record_changes-keeps scan source datasets opened key cs alert db h)
        | inr unknown ↦ elim (Option-cases (Dict.get c.dataset datasets)) [
          | inl missing ↦ rw (unknown, missing, record_changes) h
          | inr (d, found) ↦
              rw (unknown, found, record_changes)
                (record_changes-keeps scan source datasets opened key cs
                  (alert || alertable c.severity) _
                  (new_change-IsSound db h
                    (change_row digest db.next_id scan source d (change_fingerprint digest key c) c)
                    refl))
        ]
      ]

finish_drift-keeps :
    (channels : List AlertChannel) (scan : ScanRunRow) (opened : Dict String SchemaChangeRow)
    (active : List String) (now : ℕ) (alert : Bool)
    → Preserves IsSound (finish_drift channels scan opened active now alert)
unfolding finish_drift resolve_missing
finish_drift-keeps channels scan opened active now true db h = complete_scan-IsSound scan now _ (
    create_pending_deliveries-IsSound channels scan _ (update_changes-IsSound db h _ _ (λ c. refl)))
finish_drift-keeps channels scan opened active now false db h =
    complete_scan-IsSound scan now _ (update_changes-IsSound db h _ _ (λ c. refl))

complete_drift_scan-keeps :
    (digest : Json → String) (channels : List AlertChannel) (scan_id : ℕ) (key : String)
    (observed : List ColumnDefinition) (changes : List SchemaChange) (now : ℕ)
    → Preserves IsSound (complete_drift_scan digest channels scan_id key observed changes now)
unfolding complete_drift_scan
complete_drift_scan-keeps digest channels scan_id key observed changes now db h =
    continue-keeps IsSound (get_source key db) _ (get_source-keeps key db h) (λ source s k.
      continue-keeps IsSound (get_scan scan_id s) _ (get_scan-keeps scan_id s k) (λ scan t l.
        continue-keeps IsSound
          (record_changes digest scan source (datasets_by_ref source.id t) _ key changes false _) _
          (record_changes-keeps digest scan source (datasets_by_ref source.id t) _ key changes false
            _ (persist_observations-IsSound scan observed t l))
          (λ alert. finish_drift-keeps channels scan _ _ now alert)))

-- ---------------------------------------------------------------- the service

load_expected_columns-keeps : (key : String) → Preserves IsSound (load_expected_columns key)
unfolding load_expected_columns
load_expected_columns-keeps key db h =
    continue-keeps IsSound (get_source key db) _ (get_source-keeps key db h) (λ source s k. k)

load_dependency_columns-keeps : (key : String) → Preserves IsSound (load_dependency_columns key)
unfolding load_dependency_columns
load_dependency_columns-keeps key db h =
    continue-keeps IsSound (get_source key db) _ (get_source-keeps key db h) (λ source s k. k)

module _ (digest : Json → String) (channels : List AlertChannel) (scan_id : ℕ) (key : String)
    (trigger : ScanTrigger) where
  compare_snapshot-keeps :
      (observed : List ColumnDefinition) (now : ℕ) (expected : List ColumnDefinition)
      → Preserves IsSound
          (compare_snapshot digest channels scan_id key trigger observed now expected)
  unfolding compare_snapshot first_scan drift_scan
  compare_snapshot-keeps observed now [] db h =
      continue-keeps IsSound (complete_initial_baseline scan_id key observed now db) _
        (complete_initial_baseline-keeps scan_id key observed now db h) (λ _ s k. k)
  compare_snapshot-keeps observed now (e ∷ es) db h =
      continue-keeps IsSound (load_dependency_columns key db) _
        (load_dependency_columns-keeps key db h)
        (λ dependencies s k.
          bind-keeps IsSound (lift (of_diff (diff_columns (e ∷ es) observed dependencies))) _
            (λ t l. l)
            (λ changes t l.
              continue-keeps IsSound
                (complete_drift_scan digest channels scan_id key observed changes now t) _
                (complete_drift_scan-keeps digest channels scan_id key observed changes now t l)
                (λ _ u m. m))
            s k)

  scan_snapshot-keeps :
      (now : ℕ) (observed : List ColumnDefinition)
      → Preserves IsSound (scan_snapshot digest channels scan_id key trigger now observed)
  unfolding scan_snapshot
  scan_snapshot-keeps now [] db h = h
  scan_snapshot-keeps now (c ∷ cs) db h =
      continue-keeps IsSound (load_expected_columns key db) _ (load_expected_columns-keeps key db h)
        (compare_snapshot-keeps (c ∷ cs) now)

  scan_body-keeps :
      (collected : Result Exception (List ColumnDefinition)) (now : ℕ)
      → Preserves IsSound (scan_body digest channels scan_id key trigger collected now)
  unfolding scan_body
  scan_body-keeps collected now =
      bind-keeps IsSound (lift collected) (scan_snapshot digest channels scan_id key trigger now)
        (λ s h. h) (scan_snapshot-keeps now)

  record_failure-keeps :
      (now : ℕ) (e : Exception)
      → Preserves IsSound (record_failure digest channels scan_id key trigger now e)
  unfolding record_failure
  record_failure-keeps now e db h =
      continue-keeps IsSound (fail_scan channels scan_id _ _ now db) _
        (fail_scan-keeps channels scan_id _ _ now db h) (λ _ s k. k)

module _ (digest : Json → String) (channels : List AlertChannel) where
  create_running_scan-keeps :
      (key : String) (trigger : ScanTrigger) (now : ℕ)
      → Preserves IsSound (create_running_scan key trigger now)
  unfolding create_running_scan
  create_running_scan-keeps key trigger now db h =
      continue-keeps IsSound (get_source key db) _ (get_source-keeps key db h)
        (λ source s k. new_scan-IsSound s k _ refl)

  -- A run keeps the invariant, whether it returns or raises.
  pub run_scan-keeps :
      (acquired : Bool) (collected : Result Exception (List ColumnDefinition)) (clock : Clock)
      (key : String) (trigger : ScanTrigger)
      → Preserves IsSound (run_scan digest channels acquired collected clock key trigger)
  unfolding run_scan
  run_scan-keeps false collected clock key trigger db h = h
  run_scan-keeps true collected clock key trigger db h =
      continue-keeps IsSound (create_running_scan key trigger clock.started_at db) _
        (create_running_scan-keeps key trigger clock.started_at db h)
        (λ scan_id s k.
          handle-keeps IsSound
            (scan_body digest channels scan_id key trigger collected clock.finished_at s) _
            (scan_body-keeps digest channels scan_id key trigger collected clock.finished_at s k)
            (record_failure-keeps digest channels scan_id key trigger clock.failed_at))

  end_transaction-keeps :
      (before after : Db) (r : Response × Outcome)
      → IsSound before
      → IsSound after
      → IsSound (end_transaction before r after).1
  unfolding end_transaction
  end_transaction-keeps before after (r, commit) b a = a
  end_transaction-keeps before after (r, rollback) b a = b

  pub post_scan-keeps :
      (acquired : Bool) (collected : Result Exception (List ColumnDefinition)) (clock : Clock)
      (key : String) (db : Db)
      → IsSound db
      → IsSound (post_scan digest channels acquired collected clock key db).1
  unfolding post_scan
  post_scan-keeps acquired collected clock key db h =
      let r = run_scan digest channels acquired collected clock key manual db in
      end_transaction-keeps db r.1 (respond r.0) h
        (run_scan-keeps acquired collected clock key manual db h)
