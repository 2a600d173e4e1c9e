-- ===== src/System/Outcomes.antt =====
-- What a scan and a sync of the catalogue do with a sound store.
use schema_sentry.Prelude.{
  String, true, Option, some, List, ◌≡◌, ◌⊎◌, inl, inr, ap, ◌==◌, String_eq,
}
use mathlib.Core.Logic.{⊎_elim}
use schema_sentry.Prelude.Json.{Json}
use schema_sentry.Prelude.Result.{Result, ok, err}
use schema_sentry.Domain.Enums.{AlertChannel, ScanTrigger}
use schema_sentry.Domain.Models.{ColumnDefinition}
use schema_sentry.Store.{Db, DataSourceRow, Exception, find}
use schema_sentry.Scan.Service.{Clock, run_scan}
use schema_sentry.Scan.Ends.{Ended, run_scan-Ended}
use schema_sentry.Alerts.Dispatcher.{rolled_back, session_scope}
use schema_sentry.Catalog.Config.{CatalogError, PipelineContent}
use schema_sentry.Catalog.Sync.{CatalogSyncResult}
use schema_sentry.Catalog.Synced.{IsRegistrable, IsRegistered, sync_exact}
use schema_sentry.System.{sync_catalog}
use schema_sentry.System.Sound.{IsSound, dataset_eq_of_id, scan-fresh}

-- In a sound store a run for a registered source that got the lock ends its own scan: the row with the new id
-- is COMPLETED if the run returned a report, and FAILED with the name of the exception if it raised.
pub sound_run-Ended :
    (digest : Json → String) (channels : List AlertChannel)
    (collected : Result Exception (List ColumnDefinition)) (clock : Clock) (key : String)
    (trigger : ScanTrigger) (db : Db) (source : DataSourceRow)
    → IsSound db
    → find (λ s. s.key == key) db.sources ≡ some source
    → Ended db.next_id source.id trigger clock
        (run_scan digest channels true collected clock key trigger db)
sound_run-Ended digest channels collected clock key trigger db source sound has_source =
    run_scan-Ended digest channels collected clock key trigger db source has_source
      (scan-fresh db sound)

-- In a sound store the sync of a catalogue file either returns, and then the lineage of the store is exactly
-- the one that the file declares, or it raises, changes nothing, and the file was not valid, named an unknown
-- column, or had a column that a pipeline both reads and writes.
pub sync_catalog_exact :
    (content : Option (List PipelineContent)) (db : Db)
    → IsSound db
    → ((r : CatalogSyncResult) × (db' : Db) × (sync_catalog content db ≡ (ok r, db'))
        × IsRegistered content db r db')
      ⊎ ((e : CatalogError) × (sync_catalog content db ≡ (err e, db)) × ¬ IsRegistrable db content)
unfolding sync_catalog session_scope rolled_back
sync_catalog_exact content db sound =
    ⊎_elim (λ (r, db', returns, done). inl (r, db', ap (rolled_back db) returns, done))
      (λ (e, raises, unfit). inr (e, ap (rolled_back db) raises, unfit))
      (sync_exact content db (dataset_eq_of_id db sound))
