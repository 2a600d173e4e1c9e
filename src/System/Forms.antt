-- ===== src/System/Forms.antt =====
-- The forms of the dashboard keep the invariant of the store.
use schema_sentry.Prelude.{ℕ, String, Bool, Option, none, some, List, Bool-cases, inl, inr}
use schema_sentry.Prelude.Json.{Json}
use schema_sentry.Prelude.Result.{Result, ok, err}
use schema_sentry.Domain.Enums.{manual}
use schema_sentry.Domain.Models.{ColumnDefinition}
use schema_sentry.Store.{
  Db, Exception, source_not_found, scan_already_running, empty_schema_snapshot, lookup_error,
  key_error, attribute_error, value_error, type_error, driver_error, change_not_found,
  baseline_version_conflict,
}
use schema_sentry.Scan.Service.{Clock, ScanReport, run_scan}
use schema_sentry.Security.{Settings, OperatorIdentity, require_operator}
use schema_sentry.Changes.Accept.{AcceptanceResult, accept}
use schema_sentry.Alerts.{Notifier}
use schema_sentry.Alerts.Context.{ScanAlertContext}
use schema_sentry.Alerts.Dispatcher.{enabled_channels}
use schema_sentry.Dashboard.{
  ActionResponse, ChangeList, require_same_origin, allowed, protected, finish, after_page, alerted,
  failure_page, scan_page, scan_action, accept_page, accept_action,
}
use schema_sentry.System.Sound.{IsSound}
use schema_sentry.System.Scans.{run_scan-keeps}
use schema_sentry.System.Requests.{accept-keeps}
use schema_sentry.System.Alerted.{dispatched-keeps, dispatch_system_error-keeps}

finish-keeps :
    (before after : Db) (r : Result Exception ChangeList)
    → IsSound before
    → IsSound after
    → IsSound (finish before r after).1
unfolding finish
finish-keeps before after (ok p) b a = a
finish-keeps before after (err e) b a = b

module _ (urlsplit : String → String × String) (origin referer : Option String) (s : Settings) where
  allowed-keeps :
      (identity : Option OperatorIdentity) (handler : Db → ActionResponse × Db) (db : Db)
      → IsSound db
      → IsSound (handler db).1
      → IsSound (allowed urlsplit origin referer s identity handler db).1
  unfolding allowed
  allowed-keeps none handler db h kept = h
  allowed-keeps (some who) handler db h kept =
      elim (Bool-cases (require_same_origin urlsplit origin referer who s)) [
        | inl e ↦ rw (e, allowed) kept
        | inr e ↦ rw (e, allowed) h
      ]

accept_page-keeps :
    (before : Db) (r : Result Exception AcceptanceResult × Db)
    → IsSound before
    → IsSound r.1
    → IsSound (accept_page before r).1
unfolding accept_page
accept_page-keeps before (ok result, after) b a = finish-keeps before after _ b a
accept_page-keeps before (err (baseline_version_conflict e k), after) b a =
    finish-keeps before after _ b a
accept_page-keeps before (err (change_not_found id), after) b a = finish-keeps before after _ b a
accept_page-keeps before (err (source_not_found key), after) b a = b
accept_page-keeps before (err (scan_already_running key), after) b a = b
accept_page-keeps before (err (empty_schema_snapshot key), after) b a = b
accept_page-keeps before (err lookup_error, after) b a = b
accept_page-keeps before (err key_error, after) b a = b
accept_page-keeps before (err attribute_error, after) b a = b
accept_page-keeps before (err value_error, after) b a = b
accept_page-keeps before (err type_error, after) b a = b
accept_page-keeps before (err (driver_error name), after) b a = b

-- The form that accepts a change keeps the invariant.
pub accept_action-keeps :
    (settings : Settings) (urlsplit : String → String × String)
    (x_api_key user origin referer : Option String) (change_id baseline_version now : ℕ) (db : Db)
    → IsSound db
    → IsSound
        (accept_action settings urlsplit x_api_key user origin referer change_id baseline_version
          now db).1
unfolding accept_action protected
accept_action-keeps settings urlsplit x_api_key user origin referer id version now db h =
    allowed-keeps urlsplit origin referer settings (require_operator settings x_api_key user) _ db h
      (accept_page-keeps db (accept id version now db) h (accept-keeps id version now db h))

module _ (digest : Json → String) {M : Type 0} (message : ScanAlertContext → M)
    (show_id : ℕ → String) (slack_notifier : String → Notifier M)
    (email_notifier : List String → Notifier M) (settings : Settings) where
  after_page-keeps :
      (scan_id now : ℕ) (db : Db) (r : Result Exception ChangeList)
      → IsSound db
      → IsSound
          (after_page digest message show_id slack_notifier email_notifier settings scan_id now db
            r).1
  unfolding after_page
  after_page-keeps scan_id now db (ok p) h =
      dispatched-keeps digest message slack_notifier email_notifier settings scan_id now db h
  after_page-keeps scan_id now db (err e) h = h

  failed-keeps :
      (key : String) (now : ℕ) (db : Db)
      → IsSound db
      → IsSound
          (failure_page digest message show_id slack_notifier email_notifier settings
            (alerted digest message show_id slack_notifier email_notifier settings key now db)).1
  unfolding failure_page alerted
  failed-keeps key now db h =
      let kept =
        dispatch_system_error-keeps digest message slack_notifier email_notifier settings key now db
          h in
      finish-keeps _ _ _ kept kept

  scan_page-keeps :
      (key : String) (now : ℕ) (before : Db) (r : Result Exception ScanReport × Db)
      → IsSound before
      → IsSound r.1
      → IsSound
          (scan_page digest message show_id slack_notifier email_notifier settings key now before
            r).1
  unfolding scan_page
  scan_page-keeps key now before (ok report, after) b a =
      after_page-keeps report.scan_id now after _ a
  scan_page-keeps key now before (err (scan_already_running k), after) b a =
      finish-keeps before after _ b a
  scan_page-keeps key now before (err (source_not_found k), after) b a =
      finish-keeps before after _ b a
  scan_page-keeps key now before (err (driver_error name), after) b a = failed-keeps key now after a
  scan_page-keeps key now before (err (empty_schema_snapshot k), after) b a =
      failed-keeps key now after a
  scan_page-keeps key now before (err lookup_error, after) b a = b
  scan_page-keeps key now before (err key_error, after) b a = b
  scan_page-keeps key now before (err attribute_error, after) b a = b
  scan_page-keeps key now before (err value_error, after) b a = b
  scan_page-keeps key now before (err type_error, after) b a = b
  scan_page-keeps key now before (err (change_not_found id), after) b a = b
  scan_page-keeps key now before (err (baseline_version_conflict e k), after) b a = b

  -- The form that starts a scan keeps the invariant.
  pub scan_action-keeps :
      (urlsplit : String → String × String) (x_api_key user origin referer : Option String)
      (acquired : Bool) (collected : Result Exception (List ColumnDefinition)) (clock : Clock)
      (key : String) (now : ℕ) (db : Db)
      → IsSound db
      → IsSound
          (scan_action digest message show_id slack_notifier email_notifier settings urlsplit
            x_api_key user origin referer acquired collected clock key now db).1
  unfolding scan_action protected
  scan_action-keeps urlsplit x_api_key user origin referer acquired collected clock key now db h =
      allowed-keeps urlsplit origin referer settings (require_operator settings x_api_key user) _ db
        h
        (scan_page-keeps key now db
          (run_scan digest (enabled_channels settings) acquired collected clock key manual db) h
          (run_scan-keeps digest (enabled_channels settings) acquired collected clock key manual db
            h))
