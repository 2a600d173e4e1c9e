-- ===== src/Alerts/Context.antt =====
-- What an alert says: `get_scan_context` of infrastructure/db/repositories/alerts.py, and `build_alert_message`
-- of application/notification_service.py. The text of a UUID and `html.escape` are parameters.
pub mod Listed
use Prim.Native.String.{◌++◌ as append}
use schema_sentry.Prelude.{
  ℕ, String, Bool, true, false, not, Option, none, some, List, [], ◌∷◌, ◌++◌, map, filter, ◌==◌,
  ◌&&◌, ℕ_eq, String_eq, if◌then◌else◌,
}
use schema_sentry.Prelude.Json.{Json, null, boolean, number, text, object, get_field}
use schema_sentry.Prelude.Order.{ℕ_ord, String_ord, pair_ord, le}
use schema_sentry.Prelude.Sort.{sort_by}
use schema_sentry.Prelude.Text.{join}
use schema_sentry.Domain.Enums.{
  Severity, info, Severity_eq, severity_value, ScanStatus, ScanStatus_eq,
}
use schema_sentry.Domain.Models.{render}
use schema_sentry.Store.{
  Db, DataSourceRow, DatasetRow, ScanRunRow, SchemaChangeRow, PipelineRow, LineageEdgeRow, find,
}
use schema_sentry.Store.Types.{type_of_dict}
use schema_sentry.Scan.Reading.{joined}

pub record AlertChangeContext : Type 0 where
  pub qualified_column : String
  pub before_type : Option String
  pub after_type : Option String
  pub severity : Severity
  pub affected_dags : List String

pub record ScanAlertContext : Type 0 where
  pub scan_id : ℕ
  pub source_key : String
  pub error_code : Option String
  pub changes : List AlertChangeContext

pub record AlertMessage : Type 0 where
  pub subject : String
  pub text : String
  pub html : String
  pub dashboard_url : String

-- ---------------------------------------------------------------- the context

-- `CanonicalType(**payload).render()`, of the dictionary of a type. The program stores no other dictionary
-- there; one with other keys is `none` here.
render_dict : Option Json → Option String
render_dict (some (object fs)) = elim (type_of_dict (object fs)) [
  | none ↦ none
  | some t ↦ some (render t)
]
render_dict (some null) = none
render_dict (some (boolean b)) = none
render_dict (some (number n)) = none
render_dict (some (text s)) = none
render_dict none = none

-- `_render_type`
unfoldable pub render_type : Json → Option String
unfolding render_dict
render_type payload = render_dict (get_field "data_type" payload)

abbrev dags_of_edge : List PipelineRow → List LineageEdgeRow → List String
dags_of_edge pipelines [] = []
dags_of_edge pipelines (e ∷ es) =
    map (λ p. p.airflow_dag_id) (filter (λ p. p.id == e.pipeline_id) pipelines)
    ++ dags_of_edge pipelines es

-- `_affected_dags`
unfoldable pub affected_dags : SchemaChangeRow → Db → List String
affected_dags change db =
    sort_by (λ s. s)
      (dags_of_edge db.pipelines (
        filter
          (λ e.
            e.upstream_dataset_id == change.dataset_id && e.upstream_column == change.column_name)
          db.edges))

unfoldable pub change_context : Db → SchemaChangeRow × DatasetRow → AlertChangeContext
unfolding render_type affected_dags
change_context db (c, d) = record {
  qualified_column =
      append (append (append (append d.schema_name ".") d.table_name) ".") c.column_name;
  before_type = render_type c.before_json;
  after_type = render_type c.after_json;
  severity = c.severity;
  affected_dags = affected_dags c db;
}

abbrev context_order : SchemaChangeRow × DatasetRow → (String × String) × String
context_order (c, d) = ((d.schema_name, d.table_name), c.column_name)

unfoldable pub context_changes : ℕ → Db → List AlertChangeContext
unfolding change_context
context_changes scan_id db = map (change_context db) (
    sort_by context_order (
      joined (λ c. c.dataset_id) db.datasets
        (filter (λ c. c.scan_id == scan_id && not (c.severity == info)) db.changes)))

abbrev failed_code : ScanRunRow → Option String
failed_code s = if s.status == ScanStatus.failed then s.error_code else none

unfoldable pub context_of : Db → ScanRunRow → Option DataSourceRow → Option ScanAlertContext
unfolding context_changes
context_of db scan none = none
context_of db scan (some source) = some (record {
  scan_id = scan.id;
  source_key = source.key;
  error_code = failed_code scan;
  changes = context_changes scan.id db;
})

unfoldable pub get_scan_context : ℕ → Db → Option ScanAlertContext
unfolding context_of
get_scan_context scan_id db = elim (find (λ s. s.id == scan_id) db.scans) [
  | none ↦ none
  | some scan ↦ context_of db scan (find (λ s. s.id == scan.source_id) db.sources)
]

-- ---------------------------------------------------------------- the message

-- `value or default`
abbrev or_text : Option String → String → String
or_text none default = default
or_text (some s) default = if s == "" then default else s

-- `", ".join(dags) or "no registered DAG"`
abbrev dag_text : List String → String
dag_text dags = or_text (some (join ", " dags)) "no registered DAG"

unfoldable pub change_line : AlertChangeContext → String
change_line c = join "" (
    "["
    ∷ severity_value c.severity
    ∷ "] "
    ∷ c.qualified_column
    ∷ ": "
    ∷ or_text c.before_type "∅"
    ∷ " → "
    ∷ or_text c.after_type "∅"
    ∷ "; affected: "
    ∷ dag_text c.affected_dags
    ∷ [])

-- `if context.error_code`
abbrev has_error : Option String → Option String
has_error none = none
has_error (some code) = if code == "" then none else some code

module _ (show_id : ℕ → String) (escape : String → String) where
  abbrev subject_of : ScanAlertContext → Option String → String
  subject_of context none = append "Schema Sentry drift detected: " context.source_key
  subject_of context (some code) = append "Schema Sentry source failure: " context.source_key

  abbrev body_of : ScanAlertContext → Option String → List String
  body_of context none = map change_line context.changes
  body_of context (some code) = append "error: " code ∷ []

  unfoldable pub message_lines : ScanAlertContext → String → List String
  unfolding change_line
  message_lines context url =
      let code = has_error context.error_code in
      subject_of context code ∷ append "scan #" (show_id context.scan_id) ∷ body_of context code
      ++ append "dashboard: " url ∷ []

  -- `base` is the dashboard's address without the slashes at its end.
  unfoldable pub build_alert_message : ScanAlertContext → String → AlertMessage
  unfolding message_lines
  build_alert_message context base =
      let url = append base "/" in
      let lines = message_lines context url in
      record {
        subject = subject_of context (has_error context.error_code);
        text = join "\n" lines;
        html = join "<br>" (map escape lines);
        dashboard_url = url;
      }
