-- ===== src/Scan/Writing.antt =====
-- The parts of `SqlAlchemyScanRepository` that write. `now` is `datetime.now(UTC)`, and `digest` is the
-- hash of domain/fingerprint.py.
use schema_sentry.Prelude.{
  ℕ, zero, suc, ◌-◌, ◌*◌, ◌/◌, ◌%◌, ◌^◌, ltb, leb, String, Bool, true, false, not, none, some, List,
  [], ◌∷◌, ◌++◌, map, filter, ◌==◌, ◌&&◌, ◌||◌, ℕ_eq, String_eq, contains, is_some, if◌then◌else◌,
}
use schema_sentry.Prelude.Dict
use schema_sentry.Prelude.Dict.{Dict, index_by}
use schema_sentry.Prelude.Exec.{pure, raise, gets, modify, ◌>>=◌, ◌>>◌}
use schema_sentry.Prelude.Json.{Json, text, object, end, field}
use schema_sentry.Domain.Enums.{
  running, completed, ScanStatus, ScanTrigger, open_state, resolved, warning, breaking,
  ChangeState_eq, Severity, Severity_eq, AlertChannel, pending,
}
use schema_sentry.Domain.Models.{
  DatasetRef, DatasetRef_eq, ColumnDefinition, SchemaChange, type_dict, optional_column_dict,
  change_dict,
}
use schema_sentry.Store.{
  Db, DataSourceRow, DatasetRow, ScanRunRow, ObservedColumnRow, SchemaChangeRow, AlertDeliveryRow,
  lookup_error, update,
}
use schema_sentry.Scan.Reading.{Session, get_source, get_scan, datasets_by_ref}

unfoldable pub create_running_scan : String → ScanTrigger → ℕ → Session ℕ
unfolding get_source
create_running_scan source_key trigger now = do
  source ← get_source source_key
  scan_id ← gets (λ db. db.next_id)
  modify (λ db. record db {
    scans =
        db.scans
        ++ record {
          id = scan_id;
          source_id = source.id;
          trigger = trigger;
          status = running;
          started_at = now;
          finished_at = none;
          duration_ms = none;
          error_code = none;
          error_message = none;
        }
          ∷ [];
    next_id = suc db.next_id;
  })
  pure scan_id

-- a quotient, rounded to the nearest natural and half way to the even one
rounded_div : ℕ → ℕ → ℕ
rounded_div n d =
    let q = n / d in
    let twice = 2 * (n % d) in if ltb d twice || twice == d && q % 2 == 1 then suc q else q

-- `n` doubled until `n / 10 ** 6` has the 53 bits of a float, and how often that took
doubled : ℕ → ℕ → ℕ → ℕ × ℕ
doubled zero n k = (n, k)
doubled (suc fuel) n k =
    let rest = doubled fuel (2 * n) (suc k) in if leb 4503599627370496000000 n then (n, k) else rest

-- `int(x * 1000)` for the float `m / 2 ** k`, whose product has 53 of the 62 or 63 bits of `m * 1000`
times_1000 : ℕ → ℕ → ℕ
times_1000 m k =
    let unit = if ltb (m * 1000) 4611686018427387904 then 512 else 1024 in
    rounded_div (m * 1000) unit * unit / 2 ^ k

-- `int(n / 10 ** 6 * 1000)` in floats: 72 doublings are enough for every positive `n`
float_ms : ℕ × ℕ → ℕ
unfolding rounded_div times_1000
float_ms (n, k) = times_1000 (rounded_div n 1000000) k

-- `_duration_ms`, of timestamps in microseconds
unfoldable pub duration_ms : ℕ → ℕ → ℕ
unfolding doubled float_ms
duration_ms started_at finished_at = float_ms (doubled 72 (finished_at - started_at) 0)

observation : ℕ → ColumnDefinition → ObservedColumnRow
observation scan_id c = record {
  scan_id = scan_id;
  schema_name = c.dataset.schema;
  table_name = c.dataset.table;
  name = c.name;
  data_type_json = type_dict c.data_type;
  nullable = c.nullable;
  default_expression = c.default;
  ordinal = c.ordinal;
}

-- `_persist_observations`
unfoldable pub persist_observations : ScanRunRow → List ColumnDefinition → Db → Db
unfolding observation
persist_observations scan columns db = record db {
  observed = db.observed ++ map (observation scan.id) columns;
}

-- the writes of `_complete_scan`
unfoldable pub completed_row : ℕ → ScanRunRow → ScanRunRow
completed_row now s = record s {
  status = completed;
  finished_at = some now;
  duration_ms = some (duration_ms s.started_at now);
}

-- `_complete_scan`
unfoldable pub complete_scan : ScanRunRow → ℕ → Db → Db
unfolding completed_row
complete_scan scan now db = record db {
  scans = update (λ s. s.id == scan.id) (completed_row now) db.scans;
}

-- the writes of `fail_scan` to the row
unfoldable pub failed_row : String → String → ℕ → ScanRunRow → ScanRunRow
failed_row error_code error_message now s = record s {
  status = ScanStatus.failed;
  finished_at = some now;
  duration_ms = some (duration_ms s.started_at now);
  error_code = some error_code;
  error_message = some error_message;
}

unfoldable pub pending_delivery : ℕ → ℕ → AlertChannel → AlertDeliveryRow
pending_delivery id scan_id channel = record {
  id = id;
  scan_id = scan_id;
  channel = channel;
  status = pending;
  attempt_count = 0;
  provider_message_id = none;
  last_error = none;
  next_retry_at = none;
  sent_at = none;
}

-- `_create_pending_deliveries`
unfoldable pub create_pending_deliveries : List AlertChannel → ScanRunRow → Db → Db
unfolding pending_delivery
create_pending_deliveries [] scan db = db
create_pending_deliveries (channel ∷ channels) scan db =
    create_pending_deliveries channels scan (record db {
      deliveries = db.deliveries ++ pending_delivery db.next_id scan.id channel ∷ [];
      next_id = suc db.next_id;
    })

unfoldable pub fail_scan : List AlertChannel → ℕ → String → String → ℕ → Session (Unit {0})
unfolding get_scan failed_row create_pending_deliveries
fail_scan channels scan_id error_code error_message now = do
  scan ← get_scan scan_id
  modify (λ db. record db {
    scans = update (λ s. s.id == scan.id) (failed_row error_code error_message now) db.scans;
  })
  modify (create_pending_deliveries channels scan)

-- ---------------------------------------------------------------- later scans

abbrev pub alertable : Severity → Bool
alertable s = s == warning || s == breaking

-- `state == OPEN` of a source
abbrev pub is_open_of : ℕ → SchemaChangeRow → Bool
is_open_of source_id r = r.source_id == source_id && r.state == open_state

-- the loop over the open changes that the scan began with
unfoldable pub resolve_missing :
    Dict String SchemaChangeRow → List String → ℕ → List SchemaChangeRow → List SchemaChangeRow
resolve_missing opened active now =
    update
      (λ r. elim (Dict.get r.fingerprint opened) [
        | none ↦ false
        | some o ↦ o.id == r.id && not (contains r.fingerprint active)
      ])
      (λ r. record r { state = resolved; resolved_at = some now })

-- what follows the loop over the changes
unfoldable pub finish_drift :
    List AlertChannel
    → ScanRunRow
    → Dict String SchemaChangeRow
    → List String
    → ℕ
    → Bool
    → Session (Unit {0})
unfolding resolve_missing create_pending_deliveries complete_scan
finish_drift channels scan opened active now alert = do
  modify (λ db. record db { changes = resolve_missing opened active now db.changes })
  modify (λ db. if alert then create_pending_deliveries channels scan db else db)
  modify (complete_scan scan now)

module _ (digest : Json → String) where
  -- domain/fingerprint.py
  abbrev pub change_fingerprint : String → SchemaChange → String
  change_fingerprint source_key change =
      digest (object (field "source" (text source_key) (field "change" (change_dict change) end)))

  unfoldable pub change_row :
      ℕ → ScanRunRow → DataSourceRow → DatasetRow → String → SchemaChange → SchemaChangeRow
  change_row id scan source dataset fingerprint c = record {
    id = id;
    scan_id = scan.id;
    source_id = source.id;
    dataset_id = dataset.id;
    column_name = c.column_name;
    change_type = c.change_type;
    severity = c.severity;
    state = open_state;
    fingerprint = fingerprint;
    before_json = optional_column_dict c.before;
    after_json = optional_column_dict c.after;
    baseline_version = source.baseline_version;
    accepted_at = none;
    resolved_at = none;
  }

  unfoldable pub add_change :
      ScanRunRow → DataSourceRow → DatasetRow → String → SchemaChange → Db → Db
  unfolding change_row
  add_change scan source dataset fingerprint c db = record db {
    changes = db.changes ++ change_row db.next_id scan source dataset fingerprint c ∷ [];
    next_id = suc db.next_id;
  }

  -- The loop over the changes. It returns `has_new_alertable_change`.
  unfoldable pub record_changes :
      ScanRunRow
      → DataSourceRow
      → Dict DatasetRef DatasetRow
      → Dict String SchemaChangeRow
      → String
      → List SchemaChange
      → Bool
      → Session Bool
  unfolding add_change
  record_changes scan source datasets opened key [] alert db = pure alert db
  record_changes scan source datasets opened key (c ∷ cs) alert db =
      let fingerprint = change_fingerprint key c in
      elim (is_some (Dict.get fingerprint opened)) [
        | true ↦ record_changes scan source datasets opened key cs alert db
        | false ↦ elim (Dict.get c.dataset datasets) [
          | none ↦ raise lookup_error db
          | some d ↦
              record_changes scan source datasets opened key cs (alert || alertable c.severity)
                (add_change scan source d fingerprint c db)
        ]
      ]

  unfoldable pub complete_drift_scan :
      List AlertChannel
      → ℕ
      → String
      → List ColumnDefinition
      → List SchemaChange
      → ℕ
      → Session (Unit {0})
  unfolding get_source get_scan persist_observations record_changes finish_drift
  complete_drift_scan channels scan_id source_key observed changes now = do
    source ← get_source source_key
    scan ← get_scan scan_id
    datasets ← gets (datasets_by_ref source.id)
    modify (persist_observations scan observed)
    opened ← gets (λ db. index_by (λ r. r.fingerprint) (filter (is_open_of source.id) db.changes))
    alert ← record_changes scan source datasets opened source_key changes false
    finish_drift channels scan opened (map (change_fingerprint source_key) changes) now alert
