-- ===== src/Examples/Pages.antt =====
-- The dashboard and the responses at concrete inputs.
use schema_sentry.Prelude.{
  List, ℕ, String, true, false, none, some, [], ◌∷◌, Memᴰ, ◌≡◌, ◌≢◌, ◌⊎◌, ◌↔◌,
}
use schema_sentry.Prelude.Json.{Json}
use schema_sentry.Prelude.Result.{ok, err}
use schema_sentry.Domain.Models.{column_dict, render}
use schema_sentry.Store.{Db, ScanRunRow}
use schema_sentry.Security.{Settings, OperatorIdentity, production, require_operator}
use schema_sentry.Scan.Service.{Clock}
use schema_sentry.Alerts.{Notifier, delivery_failed}
use schema_sentry.Alerts.Context.{ScanAlertContext}
use schema_sentry.System.{scan_request}
use schema_sentry.Dashboard.{ActionResponse, refused, scan_action}
use schema_sentry.Dashboard.Guarded.{SameOrigin, scan_action_exact}
use schema_sentry.Dashboard.Types.{column_type, column_type-column_dict}
use schema_sentry.Responses.{missing, get_scan_request}
use schema_sentry.Responses.Missing.{get_scan_request-eq-missing_iff}
use schema_sentry.Examples.Data.{level, rank, store}

abbrev digest : Json → String
digest j = "level"

abbrev clock : Clock
clock = record { started_at = 100; finished_at = 200; failed_at = 300 }

abbrev settings : Settings
settings = record {
  environment = production;
  api_key = "secret";
  auth_disabled = false;
  trust_proxy_auth = false;
  slack_webhook_url = none;
  email_to = [];
  dashboard_base_url = "http://localhost:8000/";
}

abbrev message : ScanAlertContext → String
message context = context.source_key

abbrev show_id : ℕ → String
show_id id = "id"

abbrev by_slack : String → Notifier String
by_slack url text = ok (some text)

abbrev by_email : List String → Notifier String
by_email recipients text = err (delivery_failed "refused")

abbrev urlsplit : String → String × String
urlsplit url = ("http", url)

abbrev answer : ActionResponse × Db
answer =
    scan_action digest message show_id by_slack by_email settings urlsplit (some "secret") none
      (some "http://localhost:8000/") none true (ok (level ∷ rank ∷ [])) clock "game" 400 store

scan_action_exact_example :
    ((code : ℕ) × (answer ≡ (refused code, store)))
    ⊎ ((who : OperatorIdentity) × (require_operator settings (some "secret") none ≡ some who)
        × SameOrigin urlsplit (some "http://localhost:8000/") none who settings
        × ((answer.1
              ≡ (scan_request digest message by_slack by_email settings
                  (some "secret")
                  none
                  true
                  (ok (level ∷ rank ∷ []))
                  clock
                  "game"
                  400
                  store).1)
            ⊎ (answer.0 ≡ refused 500)))
scan_action_exact_example =
    scan_action_exact digest message show_id by_slack by_email settings urlsplit (some "secret")
      none (some "http://localhost:8000/") none true (ok (level ∷ rank ∷ [])) clock "game" 400 store

column_type-column_dict_example : column_type (column_dict level) ≡ some (render level.data_type)
column_type-column_dict_example = column_type-column_dict level

get_scan_request-eq-missing_iff_example :
    (get_scan_request 99 store ≡ missing) ↔ ((s : ScanRunRow) → Memᴰ s store.scans → s.id ≢ 99)
get_scan_request-eq-missing_iff_example = get_scan_request-eq-missing_iff 99 store
