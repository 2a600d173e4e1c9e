-- ===== src/Examples/Acceptance.antt =====
-- The acceptance of a dropped column.
use schema_sentry.Prelude.Int.{pos}
use schema_sentry.Prelude.{false, none, [], ◌∷◌, Memᴰ, ◌≡◌, refl}
use schema_sentry.Prelude.Json.{null}
use schema_sentry.Prelude.Result.{ok}
use schema_sentry.Domain.Enums.{drop_column, open_state}
use schema_sentry.Store.{Db, DataSourceRow, SchemaChangeRow, ExpectedColumnRow}
use schema_sentry.Changes.Accept.{
  AcceptanceResult, acceptance_transaction, accept, accept_locked, apply, apply_column,
  apply_dropped,
}
use schema_sentry.Changes.Accept.{post_accept}
use schema_sentry.Changes.Refused.{Unchanged, post_accept-Unchanged}
use schema_sentry.Changes.Version.{accept-version}
use schema_sentry.Examples.Data.{level_changed, store}

abbrev level_dropped : SchemaChangeRow
level_dropped = record level_changed { change_type = drop_column }

abbrev level_row : ExpectedColumnRow
level_row = record {
  dataset_id = 2;
  name = "level";
  data_type_json = null;
  nullable = false;
  default_expression = none;
  ordinal = pos 1;
}

abbrev with_drop : Db
with_drop = record store { expected = level_row ∷ []; changes = level_dropped ∷ [] }

abbrev result : AcceptanceResult
result = record { change_id = 4; baseline_version = 2 }

accepts : (accept 4 1 60 with_drop).0 ≡ ok result
unfolding accept accept_locked apply apply_column apply_dropped acceptance_transaction
accepts = refl

accept-version_example :
    (source : DataSourceRow) × (change : SchemaChangeRow) × Memᴰ change with_drop.changes
    × (change.id ≡ 4)
    × (change.state ≡ open_state)
    × Memᴰ source with_drop.sources
    × (source.id ≡ change.source_id)
    × (source.baseline_version ≡ 1)
    × (result.change_id ≡ 4)
    × (result.baseline_version ≡ 2)
accept-version_example = accept-version 4 1 60 with_drop result accepts

post_accept-Unchanged_example : Unchanged with_drop (post_accept 4 7 60 with_drop)
post_accept-Unchanged_example = post_accept-Unchanged 4 7 60 with_drop
