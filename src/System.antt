-- ===== src/System.antt =====
-- The requests that change the store, as steps from one committed store to the next: the routers of
-- src/schema_sentry/api/routers with the transactions of api/dependencies.py and the alerts that follow a
-- scan, and the sync of the catalogue of cli.py. What a step is given is quantified.
pub mod Sound
pub mod Scans
pub mod Requests
pub mod Replaced
pub mod Alerted
pub mod Forms
pub mod Reachable
pub mod Settled
pub mod Outcomes
use schema_sentry.Prelude.{ℕ, String, Bool, Option, none, some, List, ◌==◌, ℕ_eq, if◌then◌else◌}
use schema_sentry.Prelude.Dict.{Dict}
use schema_sentry.Prelude.Json.{Json}
use schema_sentry.Prelude.Result.{Result, ok, err}
use schema_sentry.Domain.Enums.{AlertChannel}
use schema_sentry.Domain.Models.{ColumnDefinition}
use schema_sentry.Store.{Db, Exception}
use schema_sentry.Scan.Service.{Clock, ScanReport, Response, created, error, post_scan}
use schema_sentry.Security.{Settings, OperatorIdentity, require_operator}
use schema_sentry.Alerts.{Notifier}
use schema_sentry.Alerts.Context.{ScanAlertContext, get_scan_context}
use schema_sentry.Catalog.Config.{PipelineContent}
use schema_sentry.Catalog.Sync.{CatalogSession, CatalogSyncResult, sync}
use schema_sentry.Alerts.Dispatcher.{
  session_scope, enabled_channels, notifiers, dispatched, dispatch_system_error,
}

module _ (digest : Json → String) {M : Type 0} (message : ScanAlertContext → M)
    (slack_notifier : String → Notifier M) (email_notifier : List String → Notifier M)
    (settings : Settings) where
  abbrev pub by_channel : Dict AlertChannel (Notifier M)
  by_channel = notifiers slack_notifier email_notifier settings

  -- The alerts after the answer: those of the scan, or those of the source's latest failed scan.
  unfoldable pub follow_up : Response → String → ℕ → Db → Db
  unfolding dispatched dispatch_system_error notifiers
  follow_up (created report) key now db =
      dispatched get_scan_context message by_channel report.scan_id now db
  follow_up (error status) key now db =
      if status == 503
      then dispatch_system_error get_scan_context message by_channel key now db
      else db

  unfoldable pub answered : String → ℕ → Response × Db → Response × Db
  unfolding follow_up
  answered key now (r, db) = (r, follow_up r key now db)

  unfoldable pub operated : Option OperatorIdentity → (Db → Response × Db) → Db → Response × Db
  operated none handler db = (error 401, db)
  operated (some operator) handler db = handler db

  -- `POST /api/v1/scans`, whole
  unfoldable pub scan_request :
      (api_key user : Option String)
      → Bool
      → Result Exception (List ColumnDefinition)
      → Clock
      → String
      → ℕ
      → Db
      → Response × Db
  unfolding require_operator enabled_channels post_scan answered operated
  scan_request api_key user acquired collected clock key now =
      operated (require_operator settings api_key user) (λ db.
        answered key now
          (post_scan digest (enabled_channels settings) acquired collected clock key db))

-- `_sync_catalog` of cli.py
unfoldable pub sync_catalog : Option (List PipelineContent) → CatalogSession CatalogSyncResult
unfolding session_scope sync
sync_catalog content = session_scope (sync content)
