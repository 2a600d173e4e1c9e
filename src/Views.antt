-- ===== src/Views.antt =====
-- What the pages and the GET requests show of a scan: `ScanQueryRepository` of
-- infrastructure/db/repositories/scans.py and application/query_service.py. Scans that started at the same
-- time stay in the order of the table.
use schema_sentry.Prelude.{
  ℕ, zero, suc, ◌≤◌, String, Bool, true, false, Option, none, some, List, [], ◌∷◌, map, filter,
  length, ◌==◌, ◌&&◌, ℕ_eq, String_eq, leb, if◌then◌else◌, contains, ◌≡◌, inl, inr, sym, ap, ◌∙◌,
  arith, Bool-cases,
}
use schema_sentry.Prelude.Int.{negate, ℤ_ord}
use schema_sentry.Prelude.Json.{Json}
use schema_sentry.Prelude.Order.{String_ord, pair_ord}
use schema_sentry.Prelude.Result
use schema_sentry.Prelude.Result.{Result, ok, err, ok_injective, Result-cases}
use schema_sentry.Prelude.Sort.{sort_by}
use schema_sentry.Domain.Enums.{
  ChangeType, Severity, ChangeState, ChangeState_eq, open_state, AlertChannel, slack, email,
  AlertStatus, ScanStatus, ScanTrigger, change_type_value,
}
use schema_sentry.Domain.Lineage.{LineageEdge, PipelineImpact, lineage_graph, impacts_for_columns}
use schema_sentry.Domain.Models.{DatasetRef, ColumnRef}
use schema_sentry.Store.{
  Db, Exception, lookup_error, value_error, ScanRunRow, DataSourceRow, DatasetRow, SchemaChangeRow,
  AlertDeliveryRow, find,
}
use schema_sentry.Scan.Reading.{dataset_ref, joined}
use schema_sentry.Changes.Guard.{lineage_edges}

pub record PersistedChange : Type 0 where
  pub id : ℕ
  pub dataset : DatasetRef
  pub column_name : String
  pub change_type : ChangeType
  pub severity : Severity
  pub state : ChangeState
  pub before : Json
  pub after : Json
  pub affected_dags : List String

pub record PersistedDelivery : Type 0 where
  pub id : ℕ
  pub channel : AlertChannel
  pub status : AlertStatus
  pub attempt_count : ℕ
  pub provider_message_id : Option String
  pub last_error : Option String
  pub next_retry_at : Option ℕ
  pub sent_at : Option ℕ

pub record PersistedScan : Type 0 where
  pub id : ℕ
  pub source_key : String
  pub current_baseline_version : ℕ
  pub trigger : ScanTrigger
  pub status : ScanStatus
  pub started_at : ℕ
  pub finished_at : Option ℕ
  pub duration_ms : Option ℕ
  pub error_code : Option String
  pub error_message : Option String
  pub changes : List PersistedChange
  pub deliveries : List PersistedDelivery

-- ---------------------------------------------------------------- the parts of a view

-- the elements of a set that is built in this order
abbrev distinct : List String → List String
distinct [] = []
distinct (x ∷ xs) = let rest = distinct xs in if contains x rest then rest else x ∷ rest

abbrev dags_of : Option (List PipelineImpact) → List String
dags_of none = []
dags_of (some is) = map (λ i. i.pipeline.airflow_dag_id) is

-- the DAGs of all pipelines that a column reaches
unfoldable pub reached_dags : List LineageEdge → ColumnRef → List String
reached_dags edges column =
    sort_by (λ s. s)
      (distinct
        (dags_of (impacts_for_columns (lineage_graph edges) (suc (length edges)) (column ∷ []))))

persisted_change : List LineageEdge → SchemaChangeRow × DatasetRow → PersistedChange
unfolding reached_dags
persisted_change edges (c, d) = record {
  id = c.id;
  dataset = dataset_ref d;
  column_name = c.column_name;
  change_type = c.change_type;
  severity = c.severity;
  state = c.state;
  before = c.before_json;
  after = c.after_json;
  affected_dags = reached_dags edges (record { dataset = dataset_ref d; name = c.column_name });
}

abbrev view_order : SchemaChangeRow × DatasetRow → ((String × String) × String) × String
view_order (c, d) =
    (((d.schema_name, d.table_name), c.column_name), change_type_value c.change_type)

-- `change_filter`
abbrev shown : Bool → ScanRunRow → SchemaChangeRow → Bool
shown true scan c = c.source_id == scan.source_id && c.state == open_state
shown false scan c = c.scan_id == scan.id

persisted_delivery : AlertDeliveryRow → PersistedDelivery
persisted_delivery d = record {
  id = d.id;
  channel = d.channel;
  status = d.status;
  attempt_count = d.attempt_count;
  provider_message_id = d.provider_message_id;
  last_error = d.last_error;
  next_retry_at = d.next_retry_at;
  sent_at = d.sent_at;
}

-- the text that the column of a channel holds
abbrev channel_text : AlertChannel → String
channel_text slack = "SLACK"
channel_text email = "EMAIL"

unfoldable pub persisted_scan : Bool → ScanRunRow → Db → DataSourceRow → PersistedScan
unfolding persisted_change persisted_delivery
persisted_scan current_open_changes scan db source = record {
  id = scan.id;
  source_key = source.key;
  current_baseline_version = source.baseline_version;
  trigger = scan.trigger;
  status = scan.status;
  started_at = scan.started_at;
  finished_at = scan.finished_at;
  duration_ms = scan.duration_ms;
  error_code = scan.error_code;
  error_message = scan.error_message;
  changes = map (persisted_change (lineage_edges db)) (
      sort_by view_order (
        joined (λ c. c.dataset_id) db.datasets
          (filter (shown current_open_changes scan) db.changes)));
  deliveries =
      map persisted_delivery
        (sort_by (λ d. channel_text d.channel) (filter (λ d. d.scan_id == scan.id) db.deliveries));
}

-- ---------------------------------------------------------------- the queries

-- `_to_persisted`
unfoldable pub to_persisted : Bool → Db → ScanRunRow → Result Exception PersistedScan
unfolding persisted_scan
to_persisted current_open_changes db scan = elim (find (λ s. s.id == scan.source_id) db.sources) [
  | none ↦ err lookup_error
  | some source ↦ ok (persisted_scan current_open_changes scan db source)
]

unfoldable pub to_persisted_all : Db → List ScanRunRow → Result Exception (List PersistedScan)
unfolding to_persisted
to_persisted_all db [] = ok []
to_persisted_all db (s ∷ ss) =
    Result.◌>>=◌ (to_persisted false db s)
      (λ v. Result.◌>>=◌ (to_persisted_all db ss) (λ vs. ok (v ∷ vs)))

-- `ORDER BY started_at DESC`
abbrev newest_first : Db → List ScanRunRow
newest_first db = sort_by (λ s. negate s.started_at) db.scans

-- `LIMIT n`
abbrev take {ℓ} : {A : Type ℓ} → ℕ → List A → List A
take zero xs = []
take (suc n) [] = []
take (suc n) (x ∷ xs) = x ∷ take n xs

unfoldable pub optional_view :
    Bool → Db → Option ScanRunRow → Result Exception (Option PersistedScan)
unfolding to_persisted
optional_view current db none = ok none
optional_view current db (some scan) =
    Result.◌>>=◌ (to_persisted current db scan) (λ v. ok (some v))

unfoldable pub latest_scan : Db → Result Exception (Option PersistedScan)
unfolding optional_view
latest_scan db = optional_view true db (find (λ _. true) (newest_first db))

unfoldable pub get_view : ℕ → Db → Result Exception (Option PersistedScan)
unfolding optional_view
get_view scan_id db = optional_view false db (find (λ s. s.id == scan_id) db.scans)

-- `ScanQueryService.recent`
unfoldable pub recent : ℕ → Db → Result Exception (List PersistedScan)
unfolding to_persisted_all
recent limit db =
    if leb 1 limit && leb limit 50
    then to_persisted_all db (take limit (newest_first db))
    else err value_error

length-take : {A : Type 0} (n : ℕ) (xs : List A) → length (take n xs) ≤ n
length-take zero xs = omega arith
length-take (suc n) [] = omega arith
length-take (suc n) (x ∷ xs) = omega (arith, length-take n xs)

length-to_persisted_all :
    (db : Db) (ss : List ScanRunRow) (vs : List PersistedScan)
    → to_persisted_all db ss ≡ ok vs
    → length vs ≡ length ss
unfolding to_persisted_all
length-to_persisted_all db [] vs h = sym (ap length (ok_injective [] vs h))
length-to_persisted_all db (s ∷ ss) vs h = elim (Result-cases (to_persisted false db s)) [
  | inr (e, failed) ↦ absurd (ground (arith, rw (failed, to_persisted_all) at h))
  | inl (v, first) ↦ elim (Result-cases (to_persisted_all db ss)) [
    | inr (e, failed) ↦ absurd (ground (arith, rw (first, failed, to_persisted_all) at h))
    | inl (rest, others) ↦
        let same = ok_injective (v ∷ rest) vs (rw (first, others, to_persisted_all) at h) in
        sym (ap length same) ∙ ap suc (length-to_persisted_all db ss rest others)
  ]
]

-- A list of recent scans that is returned is for a limit from 1 to 50, and is no longer than the limit.
pub length-recent :
    (limit : ℕ) (db : Db) (views : List PersistedScan)
    → recent limit db ≡ ok views
    → (1 ≤ limit) × (limit ≤ 50) × (length views ≤ limit)
unfolding recent
length-recent limit db views h = elim (Bool-cases (leb 1 limit && leb limit 50)) [
  | inr out ↦ absurd (ground (arith, rw (out, recent) at h))
  | inl inside ↦
      let same =
        length-to_persisted_all db (take limit (newest_first db)) views
          (rw (inside, recent) at h) in
      (
        ground (arith, inside),
        ground (arith, inside),
        omega (arith, same, length-take limit (newest_first db)),
      )
]
