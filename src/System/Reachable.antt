-- ===== src/System/Reachable.antt =====
-- The stores that requests can lead to, and the invariant that all of them have.
use schema_sentry.Prelude.{ℕ, String, Bool, Option, none, some, List, [], map}
use schema_sentry.Prelude.Dict.{Dict}
use schema_sentry.Prelude.Json.{Json}
use schema_sentry.Prelude.Preserves.{Returned-of}
use schema_sentry.Prelude.Result.{Result}
use schema_sentry.Domain.Enums.{AlertChannel}
use schema_sentry.Domain.Models.{ColumnDefinition}
use schema_sentry.Store.{Db, DataSourceRow, Exception}
use schema_sentry.Store.Ids.{HasIds}
use schema_sentry.Scan.Service.{Clock, Response, post_scan}
use schema_sentry.Security.{Settings, OperatorIdentity, require_operator}
use schema_sentry.Alerts.{Notifier}
use schema_sentry.Alerts.Context.{ScanAlertContext, get_scan_context}
use schema_sentry.Alerts.Dispatcher.{enabled_channels, retry_delivery}
use schema_sentry.Catalog.Config.{PipelineContent}
use schema_sentry.Catalog.Sync.{sync}
use schema_sentry.Changes.Accept.{post_accept}
use schema_sentry.Dashboard.{scan_action, accept_action}
use schema_sentry.System.{by_channel, answered, operated, scan_request, sync_catalog}
use schema_sentry.System.Sound.{IsSound}
use schema_sentry.System.Scans.{post_scan-keeps}
use schema_sentry.System.Requests.{post_accept-keeps, retry_delivery-keeps}
use schema_sentry.System.Replaced.{sync-keeps}
use schema_sentry.System.Alerted.{session_scope-keeps, follow_up-keeps}
use schema_sentry.System.Forms.{scan_action-keeps, accept_action-keeps}

-- the store before the first request: registered sources, and nothing else
abbrev pub first_db : List DataSourceRow → ℕ → Db
first_db sources next_id = record {
  sources = sources;
  datasets = [];
  expected = [];
  scans = [];
  observed = [];
  changes = [];
  pipelines = [];
  edges = [];
  deliveries = [];
  next_id = next_id;
}

module _ (digest : Json → String) {M : Type 0} (message : ScanAlertContext → M)
    (slack_notifier : String → Notifier M) (email_notifier : List String → Notifier M)
    (settings : Settings) where
  abbrev channels : Dict AlertChannel (Notifier M)
  channels = by_channel digest message slack_notifier email_notifier settings

  -- One request of the API or form of the dashboard, or one sync of the catalogue, from the store before it to the store after it. Everything that comes from outside is free:
  -- the headers, the lock, what the collector read, the clock, the content of a catalogue file.
  pub data Step : Db → Db → Type 0 where
    scanned :
        (api_key user : Option String) (acquired : Bool)
        (collected : Result Exception (List ColumnDefinition)) (clock : Clock) (key : String)
        (now : ℕ) (db : Db)
        → Step db
            (scan_request digest message slack_notifier email_notifier settings api_key user
              acquired collected clock key now db).1
    accepted_change :
        (change_id expected_version now : ℕ) (db : Db)
        → Step db (post_accept change_id expected_version now db).1
    retried_delivery :
        (delivery_id now : ℕ) (db : Db)
        → Step db (retry_delivery get_scan_context message channels delivery_id now db).1
    scanned_by_form :
        (show_id : ℕ → String) (urlsplit : String → String × String)
        (x_api_key user origin referer : Option String) (acquired : Bool)
        (collected : Result Exception (List ColumnDefinition)) (clock : Clock) (key : String)
        (now : ℕ) (db : Db)
        → Step db
            (scan_action digest message show_id slack_notifier email_notifier settings urlsplit
              x_api_key user origin referer acquired collected clock key now db).1
    accepted_by_form :
        (urlsplit : String → String × String) (x_api_key user origin referer : Option String)
        (change_id baseline_version now : ℕ) (db : Db)
        → Step db
            (accept_action settings urlsplit x_api_key user origin referer change_id
              baseline_version now db).1
    synced_catalog :
        (content : Option (List PipelineContent)) (db : Db) → Step db (sync_catalog content db).1

  pub data IsReachable : Db → Type 0 where
    at_first :
        (sources : List DataSourceRow) (next_id : ℕ)
        → HasIds next_id (map (λ s. s.id) sources)
        → IsReachable (first_db sources next_id)
    after_step : {db db' : Db} → IsReachable db → Step db db' → IsReachable db'

  answered-keeps :
      (key : String) (now : ℕ) (r : Response × Db)
      → IsSound r.1
      → IsSound (answered digest message slack_notifier email_notifier settings key now r).1
  unfolding answered
  answered-keeps key now (r, db) h =
      follow_up-keeps digest message slack_notifier email_notifier settings r key now db h

  operated-keeps :
      (operator : Option OperatorIdentity) (handler : Db → Response × Db) (db : Db)
      → IsSound db
      → ((before : Db) → IsSound before → IsSound (handler before).1)
      → IsSound
          (operated digest message slack_notifier email_notifier settings operator handler db).1
  unfolding operated
  operated-keeps none handler db h kept = h
  operated-keeps (some operator) handler db h kept = kept db h

  -- A request keeps the invariant of the store.
  Step-IsSound : (db db' : Db) → Step db db' → IsSound db → IsSound db'
  unfolding scan_request sync_catalog
  Step-IsSound _ _ (scanned api_key user acquired collected clock key now db) h =
      operated-keeps (require_operator settings api_key user) _ db h (λ before k.
        answered-keeps key now
          (post_scan digest (enabled_channels settings) acquired collected clock key before)
          (post_scan-keeps digest (enabled_channels settings) acquired collected clock key before
            k))
  Step-IsSound _ _ (accepted_change change_id expected_version now db) h =
      post_accept-keeps change_id expected_version now db h
  Step-IsSound _ _ (retried_delivery delivery_id now db) h =
      retry_delivery-keeps get_scan_context message channels delivery_id now db h
  Step-IsSound _ _
        (scanned_by_form show_id urlsplit x_api_key user origin referer acquired collected clock key
          now db)
        h =
      scan_action-keeps digest message show_id slack_notifier email_notifier settings urlsplit
        x_api_key user origin referer acquired collected clock key now db h
  Step-IsSound _ _
        (accepted_by_form urlsplit x_api_key user origin referer change_id version now db) h =
      accept_action-keeps settings urlsplit x_api_key user origin referer change_id version now db h
  Step-IsSound _ _ (synced_catalog content db) h =
      session_scope-keeps (sync content) db h
        (Returned-of IsSound (sync content db) (sync-keeps content db h))

  -- In every store that the requests, the forms and the syncs lead to from registered sources with distinct ids,
  -- the ids of the sources, scans, datasets, changes, pipelines and deliveries are distinct and in use, table by
  -- table, a delivery has at most three attempts, and one that waits was not tried yet and is due at once.
  pub IsReachable-IsSound : (db : Db) → IsReachable db → IsSound db
  IsReachable-IsSound _ (at_first sources next_id ids) = record {
    source_ids = ids;
    scan_ids = (tt, tt);
    dataset_ids = (tt, tt);
    change_ids = (tt, tt);
    pipeline_ids = (tt, tt);
    delivery_ids = (tt, tt);
    deliveries = tt;
  }
  IsReachable-IsSound db (after_step {db = before} reached step) =
      Step-IsSound before db step (IsReachable-IsSound before reached)
