-- ===== src/Examples/Data.antt =====
-- The data of the examples.
use schema_sentry.Prelude.Int.{pos}
use schema_sentry.Prelude.{false, none, some, [], ◌∷◌}
use schema_sentry.Prelude.Json.{null}
use schema_sentry.Domain.Enums.{
  add_column, breaking, warning, open_state, critical, manual, running, slack, pending, type_change,
}
use schema_sentry.Domain.Lineage.{PipelineDefinition, LineageEdge}
use schema_sentry.Domain.Models.{DatasetRef, ColumnRef, ColumnDefinition, SchemaChange, plain}
use schema_sentry.Store.{
  Db, DataSourceRow, DatasetRow, ScanRunRow, SchemaChangeRow, PipelineRow, LineageEdgeRow,
  AlertDeliveryRow,
}

abbrev pub players : DatasetRef
players = record { schema = "public"; table = "players" }

abbrev pub level_ref : ColumnRef
level_ref = record { dataset = players; name = "level" }

abbrev pub level : ColumnDefinition
level = record {
  dataset = players;
  name = "level";
  data_type = plain "integer";
  nullable = false;
  default = none;
  ordinal = pos 1;
}

abbrev pub wide_level : ColumnDefinition
wide_level = record level { data_type = plain "bigint" }

abbrev pub rank : ColumnDefinition
rank = record level { name = "rank"; ordinal = pos 2 }

abbrev pub rank_added : SchemaChange
rank_added = record {
  dataset = players;
  column_name = "rank";
  change_type = add_column;
  severity = warning;
  before = none;
  after = some rank;
}

abbrev pub game : DataSourceRow
game = record { id = 1; key = "game"; baseline_version = 1 }

abbrev pub players_row : DatasetRow
players_row = record { id = 2; source_id = 1; schema_name = "public"; table_name = "players" }

abbrev pub report_row : DatasetRow
report_row = record { id = 6; source_id = 1; schema_name = "mart"; table_name = "report" }

abbrev pub scan : ScanRunRow
scan = record {
  id = 3;
  source_id = 1;
  trigger = manual;
  status = running;
  started_at = 0;
  finished_at = none;
  duration_ms = none;
  error_code = none;
  error_message = none;
}

abbrev pub level_changed : SchemaChangeRow
level_changed = record {
  id = 4;
  scan_id = 9;
  source_id = 1;
  dataset_id = 2;
  column_name = "level";
  change_type = type_change;
  severity = breaking;
  state = open_state;
  fingerprint = "level";
  before_json = null;
  after_json = null;
  baseline_version = 1;
  accepted_at = none;
  resolved_at = none;
}

abbrev pub daily_row : PipelineRow
daily_row = record {
  id = 5;
  key = "daily";
  airflow_dag_id = "daily";
  owner = "data";
  criticality = critical;
}

abbrev pub daily_edge : LineageEdgeRow
daily_edge = record {
  pipeline_id = 5;
  upstream_dataset_id = 2;
  upstream_column = "level";
  downstream_dataset_id = 6;
  downstream_column = "level";
}

abbrev pub delivery_row : AlertDeliveryRow
delivery_row = record {
  id = 7;
  scan_id = 3;
  channel = slack;
  status = pending;
  attempt_count = 1;
  provider_message_id = none;
  last_error = none;
  next_retry_at = none;
  sent_at = none;
}

abbrev pub store : Db
store = record {
  sources = game ∷ [];
  datasets = players_row ∷ report_row ∷ [];
  expected = [];
  scans = scan ∷ [];
  observed = [];
  changes = level_changed ∷ [];
  pipelines = daily_row ∷ [];
  edges = daily_edge ∷ [];
  deliveries = delivery_row ∷ [];
  next_id = 8;
}

abbrev pub daily : PipelineDefinition
daily = record { key = "daily"; airflow_dag_id = "daily"; owner = "data"; criticality = critical }

abbrev pub level_edge : LineageEdge
level_edge = record {
  pipeline = daily;
  upstream = level_ref;
  downstream = record { dataset = record { schema = "mart"; table = "report" }; name = "level" };
}
