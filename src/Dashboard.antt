-- ===== src/Dashboard.antt =====
-- src/schema_sentry/api/routers/dashboard.py: the pages, and the forms that start a scan and accept a change.
-- A page is what its template gets; the template, `urlsplit` up to the network location and the text of a
-- UUID are parameters. A page shows the scan as a new session reads it.
pub mod Types
pub mod Guarded
use Prim.Native.String.{◌++◌}
use schema_sentry.Prelude.{
  ℕ, suc, String, Bool, true, false, Option, none, some, List, ◌==◌, ◌&&◌, String_eq, is_some,
  if◌then◌else◌,
}
use schema_sentry.Prelude.Int.{pos}
use schema_sentry.Prelude.Json.{Json}
use schema_sentry.Prelude.Result.{Result, ok, err, ◌>>=◌}
use schema_sentry.Prelude.Text.{show}
use schema_sentry.Domain.Enums.{manual}
use schema_sentry.Domain.Models.{ColumnDefinition}
use schema_sentry.Store.{
  Db, Exception, source_not_found, scan_already_running, empty_schema_snapshot, lookup_error,
  key_error, attribute_error, value_error, type_error, driver_error, change_not_found,
  baseline_version_conflict,
}
use schema_sentry.Security.{
  Settings, OperatorIdentity, Mechanism, api_key, proxy, bypass, require_operator,
}
use schema_sentry.Scan.Service.{Clock, ScanReport, run_scan}
use schema_sentry.Changes.Accept.{AcceptanceResult, accept}
use schema_sentry.Alerts.{Notifier}
use schema_sentry.Alerts.Context.{ScanAlertContext, get_scan_context}
use schema_sentry.Alerts.Dispatcher.{enabled_channels, dispatched, dispatch_system_error}
use schema_sentry.System.{by_channel}
use schema_sentry.Views.{PersistedScan, latest_scan, recent}

pub data MessageKind : Type 0 where
  success warning error : MessageKind

-- the context of partials/change_list.html, with the status
pub record ChangeList : Type 0 where
  pub scan : Option PersistedScan
  pub message : String
  pub message_kind : MessageKind
  pub status_code : ℕ

-- A page, or the status of an error.
pub data ActionResponse : Type 0 where
  page : ChangeList → ActionResponse
  refused : ℕ → ActionResponse

-- ---------------------------------------------------------------- who may act

-- `origin or referer`; an empty header is falsy
abbrev pub supplied_url : Option String → Option String → Option String
supplied_url origin referer = elim origin [
  | none ↦ header referer
  | some o ↦ if o == "" then header referer else some o
]
  where
    header : Option String → Option String
    header none = none
    header (some r) = if r == "" then none else some r

abbrev pub by_api_key : Mechanism → Bool
by_api_key api_key = true
by_api_key proxy = false
by_api_key bypass = false

module _ (urlsplit : String → String × String) where
  unfoldable pub same_location : Option String → OperatorIdentity → Settings → Bool
  same_location (some url) identity s =
      (urlsplit url).0 == (urlsplit s.dashboard_base_url).0
      && (urlsplit url).1 == (urlsplit s.dashboard_base_url).1
  same_location none identity s = by_api_key identity.mechanism

  -- `_require_same_origin`, where `false` is the 403
  unfoldable pub require_same_origin :
      (origin referer : Option String) → OperatorIdentity → Settings → Bool
  unfolding same_location
  require_same_origin origin referer identity s =
      same_location (supplied_url origin referer) identity s

  unfoldable pub allowed :
      (origin referer : Option String)
      → Settings
      → Option OperatorIdentity
      → (Db → ActionResponse × Db)
      → Db
      → ActionResponse × Db
  unfolding require_same_origin
  allowed origin referer s none handler db = (refused 401, db)
  allowed origin referer s (some identity) handler db =
      if require_same_origin origin referer identity s then handler db else (refused 403, db)

  -- what a form's handler runs behind
  unfoldable pub protected :
      Settings
      → (x_api_key user origin referer : Option String) → (Db → ActionResponse × Db)
      → Db
      → ActionResponse × Db
  unfolding allowed require_operator
  protected s x_api_key user origin referer handler =
      allowed origin referer s (require_operator s x_api_key user) handler

-- ---------------------------------------------------------------- the pages

-- `_render_change_list`
unfoldable pub render_change_list : String → MessageKind → ℕ → Db → Result Exception ChangeList
unfolding latest_scan
render_change_list message message_kind status_code db = latest_scan db >>= λ scan. ok (record {
  scan = scan;
  message = message;
  message_kind = message_kind;
  status_code = status_code;
})

-- the context of dashboard.html
unfoldable pub dashboard : Db → Result Exception (Option PersistedScan × List PersistedScan)
unfolding latest_scan recent
dashboard db = latest_scan db >>= λ scan. recent 5 db >>= λ recent_scans. ok (scan, recent_scans)

-- The end of the transaction: an exception of the page rolls back to `before`.
unfoldable pub finish : Db → Result Exception ChangeList → Db → ActionResponse × Db
finish before (ok p) after = (page p, after)
finish before (err e) after = (refused 500, before)

module _ (digest : Json → String) {M : Type 0} (message : ScanAlertContext → M)
    (show_id : ℕ → String) (slack_notifier : String → Notifier M)
    (email_notifier : List String → Notifier M) (settings : Settings) where
  -- The background task follows the page.
  unfoldable pub after_page : ℕ → ℕ → Db → Result Exception ChangeList → ActionResponse × Db
  unfolding dispatched
  after_page scan_id now db (ok p) = (
    page p,
    dispatched get_scan_context message
        (by_channel digest message slack_notifier email_notifier settings) scan_id now db,
  )
  after_page scan_id now db (err e) = (refused 500, db)

  unfoldable pub alerted : String → ℕ → Db → Db
  unfolding dispatch_system_error
  alerted key now db =
      dispatch_system_error get_scan_context message
        (by_channel digest message slack_notifier email_notifier settings) key now db

  unfoldable pub failure_page : Db → ActionResponse × Db
  unfolding render_change_list finish
  failure_page db =
      finish db
        (render_change_list "Source database is unavailable. The failure was recorded." error 503
          db)
        db

  -- the handlers of the scan's end
  unfoldable pub scan_page :
      String → ℕ → Db → Result Exception ScanReport × Db → ActionResponse × Db
  unfolding after_page alerted failure_page render_change_list finish
  scan_page key now before (ok report, after) =
      after_page report.scan_id now after
        (render_change_list ("Scan " ++ show_id report.scan_id ++ " completed.") success 200 after)
  scan_page key now before (err (scan_already_running k), after) =
      finish before
        (render_change_list "A scan is already running. Try again shortly." warning 409 after) after
  scan_page key now before (err (source_not_found k), after) =
      finish before
        (render_change_list ("Source '" ++ key ++ "' is not registered.") error 404 after) after
  scan_page key now before (err (driver_error name), after) = failure_page (alerted key now after)
  scan_page key now before (err (empty_schema_snapshot k), after) =
      failure_page (alerted key now after)
  scan_page key now before (err lookup_error, after) = (refused 500, before)
  scan_page key now before (err key_error, after) = (refused 500, before)
  scan_page key now before (err attribute_error, after) = (refused 500, before)
  scan_page key now before (err value_error, after) = (refused 500, before)
  scan_page key now before (err type_error, after) = (refused 500, before)
  scan_page key now before (err (change_not_found id), after) = (refused 500, before)
  scan_page key now before (err (baseline_version_conflict e a), after) = (refused 500, before)

  -- `POST /actions/scans`
  unfoldable pub scan_action :
      (urlsplit : String → String × String) (x_api_key user origin referer : Option String)
      → Bool
      → Result Exception (List ColumnDefinition)
      → Clock
      → String
      → ℕ
      → Db
      → ActionResponse × Db
  unfolding protected scan_page run_scan enabled_channels
  scan_action urlsplit x_api_key user origin referer acquired collected clock key now =
      protected urlsplit settings x_api_key user origin referer (λ db.
        scan_page key now db
          (run_scan digest (enabled_channels settings) acquired collected clock key manual db))

-- the handlers of the acceptance's end
unfoldable pub accept_page : Db → Result Exception AcceptanceResult × Db → ActionResponse × Db
unfolding render_change_list finish
accept_page before (ok result, after) =
    finish before
      (render_change_list
        ("Accepted as baseline version " ++ show (pos result.baseline_version) ++ ".") success 200
        after)
      after
accept_page before (err (baseline_version_conflict expected actual), after) =
    finish before
      (render_change_list
        ("Baseline changed to version "
          ++ show (pos actual)
          ++ ". Refresh the page before accepting.")
        warning 409 after)
      after
accept_page before (err (change_not_found id), after) =
    finish before
      (render_change_list "This schema change no longer exists. Refresh the page." error 404 after)
      after
accept_page before (err (source_not_found key), after) = (refused 500, before)
accept_page before (err (scan_already_running key), after) = (refused 500, before)
accept_page before (err (empty_schema_snapshot key), after) = (refused 500, before)
accept_page before (err lookup_error, after) = (refused 500, before)
accept_page before (err key_error, after) = (refused 500, before)
accept_page before (err attribute_error, after) = (refused 500, before)
accept_page before (err value_error, after) = (refused 500, before)
accept_page before (err type_error, after) = (refused 500, before)
accept_page before (err (driver_error name), after) = (refused 500, before)

-- `POST /actions/changes/{change_id}/accept`
unfoldable pub accept_action :
    Settings
    → (urlsplit : String → String × String) (x_api_key user origin referer : Option String)
    → (change_id baseline_version now : ℕ) → Db
    → ActionResponse × Db
unfolding protected accept_page accept
accept_action settings urlsplit x_api_key user origin referer change_id baseline_version now =
    protected urlsplit settings x_api_key user origin referer
      (λ db. accept_page db (accept change_id baseline_version now db))
