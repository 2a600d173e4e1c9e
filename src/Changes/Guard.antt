-- ===== src/Changes/Guard.antt =====
-- The check of a pipeline: `list_open_breaking_changes_for_pipeline` of
-- infrastructure/db/repositories/changes.py, application/validation_service.py, and the status of
-- api/routers/pipelines.py. The search for impacts gets as much fuel as it can need.
pub mod Correct
pub mod Task
pub mod Rows
use schema_sentry.Prelude.{
  ℕ, suc, ◌+◌, String, Bool, true, false, not, Option, none, some, List, [], ◌∷◌, ◌++◌, map, filter,
  any, length, concat_map, ◌==◌, ◌&&◌, ◌||◌, ℕ_eq, String_eq, is_none, if◌then◌else◌,
}
use schema_sentry.Prelude.Exec.{Exec, pure, raise, gets, ◌>>=◌, ◌>>◌}
use schema_sentry.Prelude.Order.{ℕ_ord, String_ord, pair_ord}
use schema_sentry.Prelude.Result.{Result, ok, err}
use schema_sentry.Prelude.Sort.{sort_by}
use schema_sentry.Domain.Enums.{
  ChangeType, Severity, breaking, open_state, ChangeState_eq, Severity_eq,
}
use schema_sentry.Domain.Lineage.{
  LineageEdge, PipelineDefinition, PipelineImpact, lineage_graph, LineageGraph, impacts,
}
use schema_sentry.Domain.Models.{DatasetRef, ColumnRef, SchemaChange}
use schema_sentry.Store.{
  Db, Exception, lookup_error, SchemaChangeRow, DatasetRow, PipelineRow, LineageEdgeRow, find,
}
use schema_sentry.Scan.Reading.{Session, dataset_ref, joined}

pub record BlockingChange : Type 0 where
  pub id : ℕ
  pub dataset : DatasetRef
  pub column_name : String
  pub change_type : ChangeType
  pub severity : Severity

-- ---------------------------------------------------------------- the lineage

abbrev pub pipeline_definition : PipelineRow → PipelineDefinition
pipeline_definition p = record {
  key = p.key;
  airflow_dag_id = p.airflow_dag_id;
  owner = p.owner;
  criticality = p.criticality;
}

-- a row of the join of the edges with their pipelines and datasets
abbrev pub domain_edge : LineageEdgeRow → PipelineRow → DatasetRow → DatasetRow → LineageEdge
domain_edge e p u d = record {
  pipeline = pipeline_definition p;
  upstream = record { dataset = dataset_ref u; name = e.upstream_column };
  downstream = record { dataset = dataset_ref d; name = e.downstream_column };
}

unfoldable pub edges_of_row : Db → LineageEdgeRow → List LineageEdge
edges_of_row db e =
    concat_map
      (λ p.
        concat_map
          (λ u. map (domain_edge e p u) (filter (λ d. d.id == e.downstream_dataset_id) db.datasets))
          (filter (λ u. u.id == e.upstream_dataset_id) db.datasets))
      (filter (λ p. p.id == e.pipeline_id) db.pipelines)

unfoldable pub lineage_edges : Db → List LineageEdge
unfolding edges_of_row
lineage_edges db = concat_map (edges_of_row db) db.edges

-- ---------------------------------------------------------------- the changes

abbrev pub is_open_breaking : SchemaChangeRow → Bool
is_open_breaking c = c.state == open_state && c.severity == breaking

abbrev pub domain_change : SchemaChangeRow × DatasetRow → SchemaChange
domain_change (c, d) = record {
  dataset = dataset_ref d;
  column_name = c.column_name;
  change_type = c.change_type;
  severity = c.severity;
  before = none;
  after = none;
}

abbrev pub blocking_change : SchemaChangeRow × DatasetRow → BlockingChange
blocking_change (c, d) = record {
  id = c.id;
  dataset = dataset_ref d;
  column_name = c.column_name;
  change_type = c.change_type;
  severity = c.severity;
}

abbrev pub names_pipeline? : String → Option (List PipelineImpact) → Bool
names_pipeline? key none = false
names_pipeline? key (some is) = any (λ i. i.pipeline.key == key) is

-- the test of the loop, for one change
unfoldable pub affects? : List LineageEdge → String → SchemaChange → Bool
unfolding impacts
affects? edges key change =
    names_pipeline? key (impacts (lineage_graph edges) (suc (length edges)) (change ∷ []))

abbrev pub blocking_order : BlockingChange → ((String × String) × String) × ℕ
blocking_order b = (((b.dataset.schema, b.dataset.table), b.column_name), b.id)

-- the loop, and the order of what it found
unfoldable pub blocking_changes : String → Db → List BlockingChange
unfolding affects? lineage_edges
blocking_changes key db = sort_by blocking_order (
    map blocking_change (
      filter (λ r. affects? (lineage_edges db) key (domain_change r))
        (joined (λ c. c.dataset_id) db.datasets (filter is_open_breaking db.changes))))

unfoldable pub list_open_breaking_changes_for_pipeline : String → Session (List BlockingChange)
unfolding blocking_changes
list_open_breaking_changes_for_pipeline key db =
    if is_none (find (λ p. p.key == key) db.pipelines)
    then raise lookup_error db
    else pure (blocking_changes key db) db

-- ---------------------------------------------------------------- the service and the request

pub record PipelineValidation : Type 0 where
  pub pipeline_key : String
  pub safe : Bool
  pub blocking_changes : List BlockingChange

abbrev pub is_empty {ℓ} : {A : Type ℓ} → List A → Bool
is_empty [] = true
is_empty (x ∷ xs) = false

unfoldable pub validate_pipeline : String → Session PipelineValidation
unfolding list_open_breaking_changes_for_pipeline
validate_pipeline key = do
  blocking ← list_open_breaking_changes_for_pipeline key
  pure (record { pipeline_key = key; safe = is_empty blocking; blocking_changes = blocking })

-- the status code of `POST /api/v1/pipelines/{key}/validate`
unfoldable pub validation_status : Result Exception PipelineValidation → ℕ
validation_status (ok v) = if v.safe then 200 else 409
validation_status (err e) = 404

-- ---------------------------------------------------------------- the guard of the DAG

-- How the guard task of airflow/dags/daily_revenue.py ends, or an Airflow exception: `fail` is final and
-- `retry` is tried again.
pub data GuardResult : Type 0 where
  pass fail retry : GuardResult

-- `validate_pipeline` of the DAG, of a status and of `response.body.get("safe") is True`
unfoldable pub guard : ℕ → Bool → GuardResult
guard status safe =
    if status == 200 && safe then pass else if status == 200 || status == 409 then fail else retry

-- `response.body.get("safe") is True`: a 404 has another body
unfoldable pub reported_safe : Result Exception PipelineValidation → Bool
reported_safe (ok v) = v.safe
reported_safe (err e) = false

-- the guard task against the service, on one state of the store
unfoldable pub guard_task : String → Db → GuardResult
unfolding guard validation_status reported_safe validate_pipeline
guard_task key db =
    let r = (validate_pipeline key db).0 in guard (validation_status r) (reported_safe r)
