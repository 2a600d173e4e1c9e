-- ===== src/Examples/Services.antt =====
-- The scan, the check of a pipeline and the alerts at concrete inputs.
use mathlib.Core.List.Memᴰ
use schema_sentry.Prelude.{
  ◌≤◌, false, none, ◌⊎◌, ◌≢◌, ℕ, String, true, Option, some, List, [], ◌∷◌, map, Memᴰ, ◌≡◌, ◌↔◌,
  refl, sym, ap, ◌∙◌, subst,
}
use schema_sentry.Prelude.Dict
use schema_sentry.Prelude.Json.{Json}
use schema_sentry.Prelude.Result.{ok, err}
use schema_sentry.Domain.Enums.{AlertChannel, slack}
use schema_sentry.Domain.Models.{SchemaChange, type_dict, plain, DatasetRef_eq}
use schema_sentry.Store.{Db, SchemaChangeRow, DatasetRow, PipelineRow}
use schema_sentry.Store.Types.{type_of_dict, type_of_dict-type_dict}
use schema_sentry.Scan.Reading.{datasets_by_ref}
use schema_sentry.Scan.Writing.{change_fingerprint, complete_drift_scan}
use schema_sentry.Scan.Drift.{UniqueOpen, IsOpen}
use schema_sentry.Scan.Outcome.{complete_drift_scan_exact}
use schema_sentry.Changes.Guard.{
  PipelineValidation, BlockingChange, validate_pipeline, guard_task, pass,
}
use schema_sentry.Changes.Guard.Correct.{IsBlocking, validate_pipeline_exact}
use schema_sentry.Changes.Guard.Task.{guard_task-eq-pass_iff}
use schema_sentry.Alerts.{Notifier, delivery_failed}
use schema_sentry.Alerts.Context.{AlertChangeContext, change_context, context_changes}
use schema_sentry.Alerts.Context.Listed.{IsListed, context_changes_exact}
use schema_sentry.Prelude.Sort.{sort_by}
use schema_sentry.Views.{recent, to_persisted_all, to_persisted, persisted_scan, length-recent}
use schema_sentry.Security.{
  Settings, OperatorIdentity, production, Mechanism, proxy, require_operator,
  require_operator_production,
}
use schema_sentry.Examples.Data.{
  players_row, level, rank, rank_added, game, scan, level_changed, daily_row, store,
}

abbrev digest : Json → String
digest j = "rank"

level_id : (r : SchemaChangeRow) → Memᴰ r (level_changed ∷ []) → r.id ≡ 4
level_id r (Memᴰ.head same) = ap (λ x. x.id) same
level_id r (Memᴰ.tail m) = absurd (Memᴰ.not-nil m)

unique : UniqueOpen 1 store.changes
unique a b m n same = level_id a m ∙ sym (level_id b n)

registered :
    (c : SchemaChange)
    → Memᴰ c (rank_added ∷ [])
    → (d : DatasetRow) × (Dict.get c.dataset (datasets_by_ref 1 store) ≡ some d)
unfolding Dict.get Dict.index_by Dict.put
registered c (Memᴰ.head same) =
    subst (λ x. (d : DatasetRow) × (Dict.get x.dataset (datasets_by_ref 1 store) ≡ some d))
      (sym same) (players_row, refl)
registered c (Memᴰ.tail m) = absurd (Memᴰ.not-nil m)

complete_drift_scan_exact_example :
    (db' : Db) × (complete_drift_scan digest
        (slack ∷ [])
        3
        "game"
        (level ∷ rank ∷ [])
        (rank_added ∷ [])
        50
        store
      ≡ (ok tt, db'))
    × ((fingerprint : String)
        → IsOpen 1 fingerprint db'.changes
          ↔ Memᴰ fingerprint (map (change_fingerprint digest "game") (rank_added ∷ [])))
complete_drift_scan_exact_example =
    complete_drift_scan_exact digest (slack ∷ []) 3 "game" (level ∷ rank ∷ []) (rank_added ∷ []) 50
      store game scan refl refl unique registered

validate_pipeline_exact_example :
    (v : PipelineValidation) × (validate_pipeline "daily" store ≡ (ok v, store))
    × ((b : BlockingChange) → Memᴰ b v.blocking_changes ↔ IsBlocking "daily" store b)
    × ((v.safe ≡ true) ↔ ((b : BlockingChange) → ¬ IsBlocking "daily" store b))
validate_pipeline_exact_example =
    validate_pipeline_exact "daily" store daily_row (Memᴰ.head refl) refl

guard_task-eq-pass_iff_example : (guard_task "daily" store ≡ pass) ↔ (
    (p : PipelineRow) × Memᴰ p store.pipelines
    × (p.key ≡ "daily")
    × ((b : BlockingChange) → ¬ IsBlocking "daily" store b))
guard_task-eq-pass_iff_example = guard_task-eq-pass_iff "daily" store

abbrev context : ℕ → Db → Option String
context scan_id db = some "drift"

abbrev message : String → String
message text = text

abbrev unavailable : Notifier String
unavailable text = err (delivery_failed "timeout")

abbrev channels : List (AlertChannel × Notifier String)
channels = (slack, unavailable) ∷ []

type_of_dict-type_dict_example : type_of_dict (type_dict (plain "integer")) ≡ some (plain "integer")
type_of_dict-type_dict_example = type_of_dict-type_dict (plain "integer")

abbrev settings : Settings
settings = record {
  environment = production;
  api_key = "secret";
  auth_disabled = false;
  trust_proxy_auth = false;
  slack_webhook_url = some "https://hooks";
  email_to = [];
  dashboard_base_url = "http://localhost:8000/";
}

abbrev client : OperatorIdentity
client = record { subject = "api-client"; mechanism = Mechanism.api_key }

require_operator_production_example :
    ((some "secret" ≡ some settings.api_key)
      × (settings.api_key ≢ "")
      × (client.mechanism ≡ Mechanism.api_key))
    ⊎ ((settings.trust_proxy_auth ≡ true)
        × (none ≡ some client.subject)
        × (client.subject ≢ "")
        × (client.mechanism ≡ proxy))
unfolding require_operator
require_operator_production_example =
    require_operator_production settings (some "secret") none client refl refl

abbrev line : AlertChangeContext
line = change_context store (level_changed, players_row)

context_changes_exact_example : Memᴰ line (context_changes 9 store) ↔ IsListed 9 store line
context_changes_exact_example = context_changes_exact 9 store line

scan_listed : recent 5 store ≡ ok (persisted_scan false scan store game ∷ [])
unfolding recent to_persisted_all to_persisted sort_by
scan_listed = refl

length-recent_example : (1 ≤ 5) × (5 ≤ 50) × (1 ≤ 5)
length-recent_example =
    length-recent 5 store (persisted_scan false scan store game ∷ []) scan_listed
