-- ===== src/Store.antt =====
-- The metadata repository: src/schema_sentry/infrastructure/db/models. A table is the list of its rows in
-- the order of insertion, a UUID is a number that the store has not given out before, and a timestamp
-- counts microseconds. JSONB columns hold `Json`, where `null` is also the SQL NULL of an optional column.
pub mod Types
pub mod Ids
use schema_sentry.Prelude.{
  ℕ, suc, String, Bool, Option, none, List, [], ◌∷◌, ◌++◌, if◌then◌else◌, ◌==◌, ℕ_eq,
}
use schema_sentry.Prelude.Int.{ℤ}
use schema_sentry.Prelude.Json.{Json}
use schema_sentry.Domain.Enums.{
  ScanStatus, ScanTrigger, ChangeType, Severity, ChangeState, PipelineCriticality, AlertChannel,
  AlertStatus,
}

pub record DataSourceRow : Type 0 where
  pub id : ℕ
  pub key : String
  pub baseline_version : ℕ

pub record DatasetRow : Type 0 where
  pub id : ℕ
  pub source_id : ℕ
  pub schema_name : String
  pub table_name : String

pub record ExpectedColumnRow : Type 0 where
  pub dataset_id : ℕ
  pub name : String
  pub data_type_json : Json
  pub nullable : Bool
  pub default_expression : Option String
  pub ordinal : ℤ

pub record ScanRunRow : Type 0 where
  pub id : ℕ
  pub source_id : ℕ
  pub trigger : ScanTrigger
  pub status : ScanStatus
  pub started_at : ℕ
  pub finished_at : Option ℕ
  pub duration_ms : Option ℕ
  pub error_code : Option String
  pub error_message : Option String

pub record ObservedColumnRow : Type 0 where
  pub scan_id : ℕ
  pub schema_name : String
  pub table_name : String
  pub name : String
  pub data_type_json : Json
  pub nullable : Bool
  pub default_expression : Option String
  pub ordinal : ℤ

pub record SchemaChangeRow : Type 0 where
  pub id : ℕ
  pub scan_id : ℕ
  pub source_id : ℕ
  pub dataset_id : ℕ
  pub column_name : String
  pub change_type : ChangeType
  pub severity : Severity
  pub state : ChangeState
  pub fingerprint : String
  pub before_json : Json
  pub after_json : Json
  pub baseline_version : ℕ
  pub accepted_at : Option ℕ
  pub resolved_at : Option ℕ

pub record PipelineRow : Type 0 where
  pub id : ℕ
  pub key : String
  pub airflow_dag_id : String
  pub owner : String
  pub criticality : PipelineCriticality

pub record LineageEdgeRow : Type 0 where
  pub pipeline_id : ℕ
  pub upstream_dataset_id : ℕ
  pub upstream_column : String
  pub downstream_dataset_id : ℕ
  pub downstream_column : String

pub record AlertDeliveryRow : Type 0 where
  pub id : ℕ
  pub scan_id : ℕ
  pub channel : AlertChannel
  pub status : AlertStatus
  pub attempt_count : ℕ
  pub provider_message_id : Option String
  pub last_error : Option String
  pub next_retry_at : Option ℕ
  pub sent_at : Option ℕ

pub record Db : Type 0 where
  pub sources : List DataSourceRow
  pub datasets : List DatasetRow
  pub expected : List ExpectedColumnRow
  pub scans : List ScanRunRow
  pub observed : List ObservedColumnRow
  pub changes : List SchemaChangeRow
  pub pipelines : List PipelineRow
  pub edges : List LineageEdgeRow
  pub deliveries : List AlertDeliveryRow
  pub next_id : ℕ

-- The exceptions that the application layer raises or lets through. `driver_error` is a `psycopg.Error` or
-- an `OSError`, with the name of its class.
pub data Exception : Type 0 where
  source_not_found scan_already_running empty_schema_snapshot : String → Exception
  lookup_error key_error attribute_error value_error type_error : Exception
  driver_error : String → Exception
  change_not_found : ℕ → Exception
  baseline_version_conflict : (expected actual : ℕ) → Exception

-- the first row that passes a test: `session.scalar(select(…).where(…))`
abbrev pub find {ℓ} : {A : Type ℓ} → (A → Bool) → List A → Option A
find p [] = none
find p (x ∷ xs) = if p x then Option.some x else find p xs

-- an update of the rows that pass a test
abbrev pub update {ℓ} : {A : Type ℓ} → (A → Bool) → (A → A) → List A → List A
update p f [] = []
update p f (x ∷ xs) = (if p x then f x else x) ∷ update p f xs
