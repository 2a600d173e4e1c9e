-- ===== src/Responses.antt =====
-- The bodies of the API's responses: src/schema_sentry/api/schemas, and the two GET handlers of
-- api/routers/scans.py. `detail` texts are left out.
pub mod Missing
use schema_sentry.Prelude.{ℕ, String, Bool, Option, none, some, List, [], ◌∷◌, map, length}
use schema_sentry.Prelude.Json.{Json}
use schema_sentry.Prelude.Result.{Result, ok, err, ◌>>=◌}
use schema_sentry.Domain.Enums.{
  AlertChannel, AlertStatus, ChangeState, ChangeType, ScanStatus, ScanTrigger, Severity,
}
use schema_sentry.Domain.Models.{SchemaChange, dataset_qualified_name, optional_column_dict}
use schema_sentry.Store.{Db, Exception}
use schema_sentry.Scan.Service.{ScanReport}
use schema_sentry.Changes.Accept.{AcceptanceResult}
use schema_sentry.Changes.Guard.{PipelineValidation, BlockingChange}
use schema_sentry.Alerts.{DeliveryResult}
use schema_sentry.Views.{PersistedChange, PersistedDelivery, PersistedScan, latest_scan, get_view}

-- ---------------------------------------------------------------- schemas/scans.py

pub record ScanChangeResponse : Type 0 where
  pub id : Option ℕ
  pub dataset : String
  pub column_name : String
  pub change_type : ChangeType
  pub severity : Severity
  pub state : Option ChangeState
  pub before : Json
  pub after : Json
  pub affected_dags : List String

pub record ScanResponse : Type 0 where
  pub scan_id : ℕ
  pub source_key : String
  pub trigger : ScanTrigger
  pub baseline_created : Bool
  pub observed_count : ℕ
  pub changes : List ScanChangeResponse

pub record ScanDeliveryResponse : Type 0 where
  pub id : ℕ
  pub channel : AlertChannel
  pub status : AlertStatus
  pub attempt_count : ℕ
  pub provider_message_id : Option String
  pub last_error : Option String
  pub next_retry_at : Option ℕ
  pub sent_at : Option ℕ

pub record ScanDetailResponse : Type 0 where
  pub scan_id : ℕ
  pub source_key : String
  pub current_baseline_version : ℕ
  pub trigger : ScanTrigger
  pub status : ScanStatus
  pub started_at : ℕ
  pub finished_at : Option ℕ
  pub duration_ms : Option ℕ
  pub error_code : Option String
  pub error_message : Option String
  pub changes : List ScanChangeResponse
  pub deliveries : List ScanDeliveryResponse

-- `ScanChangeResponse.from_persisted`
unfoldable pub change_response : PersistedChange → ScanChangeResponse
change_response c = record {
  id = some c.id;
  dataset = dataset_qualified_name c.dataset;
  column_name = c.column_name;
  change_type = c.change_type;
  severity = c.severity;
  state = some c.state;
  before = c.before;
  after = c.after;
  affected_dags = c.affected_dags;
}

-- a change of a report
unfoldable pub reported_change : SchemaChange → ScanChangeResponse
reported_change c = record {
  id = none;
  dataset = dataset_qualified_name c.dataset;
  column_name = c.column_name;
  change_type = c.change_type;
  severity = c.severity;
  state = none;
  before = optional_column_dict c.before;
  after = optional_column_dict c.after;
  affected_dags = [];
}

-- `ScanResponse.from_report`
unfoldable pub scan_response : ScanReport → ScanResponse
unfolding reported_change
scan_response r = record {
  scan_id = r.scan_id;
  source_key = r.source_key;
  trigger = r.trigger;
  baseline_created = r.baseline_created;
  observed_count = r.observed_count;
  changes = map reported_change r.changes;
}

-- `ScanDeliveryResponse.from_persisted`
unfoldable pub delivery_response : PersistedDelivery → ScanDeliveryResponse
delivery_response d = record {
  id = d.id;
  channel = d.channel;
  status = d.status;
  attempt_count = d.attempt_count;
  provider_message_id = d.provider_message_id;
  last_error = d.last_error;
  next_retry_at = d.next_retry_at;
  sent_at = d.sent_at;
}

-- `ScanDetailResponse.from_persisted`
unfoldable pub detail_response : PersistedScan → ScanDetailResponse
unfolding change_response delivery_response
detail_response s = record {
  scan_id = s.id;
  source_key = s.source_key;
  current_baseline_version = s.current_baseline_version;
  trigger = s.trigger;
  status = s.status;
  started_at = s.started_at;
  finished_at = s.finished_at;
  duration_ms = s.duration_ms;
  error_code = s.error_code;
  error_message = s.error_message;
  changes = map change_response s.changes;
  deliveries = map delivery_response s.deliveries;
}

-- ---------------------------------------------------------------- the other schemas

pub record BlockingChangeResponse : Type 0 where
  pub id : ℕ
  pub dataset : String
  pub column_name : String
  pub change_type : ChangeType
  pub severity : Severity

pub record PipelineValidationResponse : Type 0 where
  pub pipeline_key : String
  pub safe : Bool
  pub blocking_changes : List BlockingChangeResponse

unfoldable pub blocking_response : BlockingChange → BlockingChangeResponse
blocking_response c = record {
  id = c.id;
  dataset = dataset_qualified_name c.dataset;
  column_name = c.column_name;
  change_type = c.change_type;
  severity = c.severity;
}

-- `PipelineValidationResponse.from_domain`
unfoldable pub validation_response : PipelineValidation → PipelineValidationResponse
unfolding blocking_response
validation_response v = record {
  pipeline_key = v.pipeline_key;
  safe = v.safe;
  blocking_changes = map blocking_response v.blocking_changes;
}

-- ---------------------------------------------------------------- the GET handlers

-- A response, or an error status.
pub data DetailResponse : Type 0 where
  detail : ScanDetailResponse → DetailResponse
  missing failed : DetailResponse

-- the 404 of a scan that is not there, and the 500 of an exception
unfoldable pub respond_detail : Result Exception (Option PersistedScan) → DetailResponse
unfolding detail_response
respond_detail (ok (some s)) = detail (detail_response s)
respond_detail (ok none) = missing
respond_detail (err e) = failed

-- `GET /api/v1/scans/latest`
unfoldable pub latest_scan_request : Db → DetailResponse
unfolding respond_detail latest_scan
latest_scan_request db = respond_detail (latest_scan db)

-- `GET /api/v1/scans/{scan_id}`
unfoldable pub get_scan_request : ℕ → Db → DetailResponse
unfolding respond_detail get_view
get_scan_request scan_id db = respond_detail (get_view scan_id db)
