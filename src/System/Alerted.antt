-- ===== src/System/Alerted.antt =====
-- The alerts that follow a request keep the invariant of the store.
use schema_sentry.Prelude.{ℕ, String, Option, none, some, List, Bool-cases, inl, inr, ◌==◌, ℕ_eq}
use schema_sentry.Prelude.Dict.{Dict}
use schema_sentry.Prelude.Exec.{Exec}
use schema_sentry.Prelude.Json.{Json}
use schema_sentry.Prelude.Preserves.{Returned}
use schema_sentry.Prelude.Result.{Result, ok, err}
use schema_sentry.Domain.Enums.{AlertChannel}
use schema_sentry.Store.{Db}
use schema_sentry.Scan.Service.{Response, created, error}
use schema_sentry.Security.{Settings}
use schema_sentry.Alerts.{Notifier, dispatch_scan}
use schema_sentry.Alerts.Context.{ScanAlertContext, get_scan_context}
use schema_sentry.Alerts.Dispatcher.{
  rolled_back, session_scope, dispatched, dispatch_found, latest_failed_scan_id,
  dispatch_system_error,
}
use schema_sentry.System.{by_channel, follow_up}
use schema_sentry.System.Sound.{IsSound}
use schema_sentry.System.Requests.{dispatch_scan-keeps}

-- A transaction keeps the invariant where its body does that returns.
pub session_scope-keeps {κ μ} :
    {E : Type κ} {A : Type μ} (body : Exec Db E A) (db : Db)
    → IsSound db
    → Returned IsSound (body db)
    → IsSound (session_scope body db).1
unfolding session_scope
session_scope-keeps {E = E} {A = A} body db h kept = rolled (body db) kept
  where
    rolled : (r : Result E A × Db) → Returned IsSound r → IsSound (rolled_back db r).1
    rolled (ok a, after) k = k
    rolled (err e, after) k = h

module _ (digest : Json → String) {M : Type 0} (message : ScanAlertContext → M)
    (slack_notifier : String → Notifier M) (email_notifier : List String → Notifier M)
    (settings : Settings) where
  abbrev channels : Dict AlertChannel (Notifier M)
  channels = by_channel digest message slack_notifier email_notifier settings

  pub dispatched-keeps :
      (scan_id now : ℕ) (db : Db)
      → IsSound db
      → IsSound (dispatched get_scan_context message channels scan_id now db)
  unfolding dispatched
  dispatched-keeps scan_id now db h =
      session_scope-keeps (dispatch_scan get_scan_context message channels scan_id now) db h
        (dispatch_scan-keeps get_scan_context message channels scan_id now db h)

  dispatch_found-keeps :
      (found : Option ℕ) (now : ℕ) (db : Db)
      → IsSound db
      → IsSound (dispatch_found get_scan_context message channels found now db)
  unfolding dispatch_found
  dispatch_found-keeps none now db h = h
  dispatch_found-keeps (some scan_id) now db h = dispatched-keeps scan_id now db h

  pub dispatch_system_error-keeps :
      (key : String) (now : ℕ) (db : Db)
      → IsSound db
      → IsSound (dispatch_system_error get_scan_context message channels key now db)
  unfolding dispatch_system_error
  dispatch_system_error-keeps key now db h =
      dispatch_found-keeps (latest_failed_scan_id key db) now db h

  pub follow_up-keeps :
      (r : Response) (key : String) (now : ℕ) (db : Db)
      → IsSound db
      → IsSound (follow_up digest message slack_notifier email_notifier settings r key now db)
  unfolding follow_up
  follow_up-keeps (created report) key now db h = dispatched-keeps report.scan_id now db h
  follow_up-keeps (error status) key now db h = elim (Bool-cases (status == 503)) [
    | inl e ↦ rw (e, follow_up) (dispatch_system_error-keeps key now db h)
    | inr e ↦ rw (e, follow_up) h
  ]
