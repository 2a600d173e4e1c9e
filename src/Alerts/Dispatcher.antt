-- ===== src/Alerts/Dispatcher.antt =====
-- The dispatch of alerts after a request: `_enabled_channels`, `_notifiers` and `NotificationDispatcher` of
-- api/dependencies.py, `session_scope` of infrastructure/db/session.py, `latest_failed_scan_id` of
-- infrastructure/db/repositories/alerts.py and the retry of api/routers/alerts.py. The two notifiers are
-- functions of the settings that they get. A dispatch swallows its exceptions, which it logs.
use schema_sentry.Prelude.{
  ℕ, String, Bool, true, false, Option, none, some, List, [], ◌∷◌, ◌++◌, filter, any, Memᴰ, ◌≡◌,
  ◌↔◌, inl, inr, refl, subst, ◌==◌, ◌&&◌, ℕ_eq, String_eq, is_some, if◌then◌else◌, Option-cases,
  Bool-cases,
}
use schema_sentry.Prelude.Dict
use schema_sentry.Prelude.Dict.{Dict, keys, get-eq-some_iff_key}
use schema_sentry.Prelude.Exec.{Exec}
use schema_sentry.Prelude.Int.{negate, ℤ_ord}
use schema_sentry.Prelude.Result.{Result, ok, err}
use schema_sentry.Prelude.Sort.{sort_by}
use schema_sentry.Domain.Enums.{
  AlertChannel, AlertChannel_eq, slack, email, ScanStatus, ScanStatus_eq,
}
use schema_sentry.Security.{Settings}
use schema_sentry.Store.{Db, ScanRunRow, find}
use schema_sentry.Alerts.{
  AlertError, delivery_not_found, max_attempts_exceeded, retry_not_due, delivery_failure,
  lookup_error, index_error, unexpected_error, DeliveryResult, Notifier, attempt, dispatch_scan,
}

-- ---------------------------------------------------------------- the settings

-- `settings.slack_webhook_url and settings.slack_webhook_url.get_secret_value()`
abbrev pub webhook : Option String → Option String
webhook none = none
webhook (some url) = if url == "" then none else some url

abbrev pub non_empty {ℓ} : {A : Type ℓ} → List A → Bool
non_empty [] = false
non_empty (x ∷ xs) = true

-- `_enabled_channels`
unfoldable pub enabled_channels : Settings → List AlertChannel
enabled_channels s =
    (if is_some (webhook s.slack_webhook_url) then slack ∷ [] else [])
    ++ (if non_empty s.email_to then email ∷ [] else [])

module _ {ℓ} {M : Type ℓ} (slack_notifier : String → Notifier M)
    (email_notifier : List String → Notifier M) where
  slack_of : Option String → Dict AlertChannel (Notifier M)
  slack_of none = []
  slack_of (some url) = (slack, slack_notifier url) ∷ []

  -- `_notifiers`, by their channels
  unfoldable pub notifiers : Settings → Dict AlertChannel (Notifier M)
  unfolding slack_of
  notifiers s =
      slack_of (webhook s.slack_webhook_url)
      ++ (if non_empty s.email_to then (email, email_notifier s.email_to) ∷ [] else [])

  keys-notifiers : (s : Settings) → keys (notifiers s) ≡ enabled_channels s
  unfolding notifiers enabled_channels slack_of
  keys-notifiers s = elim (Option-cases (webhook s.slack_webhook_url)) [
    | inl e ↦ elim (Bool-cases (non_empty s.email_to)) [
      | inl k ↦ rw (e, k) refl
      | inr k ↦ rw (e, k) refl
    ]
    | inr (url, e) ↦ elim (Bool-cases (non_empty s.email_to)) [
      | inl k ↦ rw (e, k) refl
      | inr k ↦ rw (e, k) refl
    ]
  ]

  -- A channel that scans make deliveries for has a notifier, and no other channel has one.
  pub notifiers-enabled :
      (s : Settings) (c : AlertChannel)
      → (is_some (Dict.get c (notifiers s)) ≡ true) ↔ Memᴰ c (enabled_channels s)
  notifiers-enabled s c =
      subst (λ l. (is_some (Dict.get c (notifiers s)) ≡ true) ↔ Memᴰ c l) (keys-notifiers s)
        (get-eq-some_iff_key c (notifiers s))

-- ---------------------------------------------------------------- the transactions

-- what an exception leaves is rolled back
unfoldable pub rolled_back {ℓ κ} :
    {E : Type ℓ} {A : Type κ} → Db → Result E A × Db → Result E A × Db
rolled_back before (ok a, after) = (ok a, after)
rolled_back before (err e, after) = (err e, before)

unfoldable pub session_scope {ℓ κ} : {E : Type ℓ} {A : Type κ} → Exec Db E A → Exec Db E A
unfolding rolled_back
session_scope body db = rolled_back db (body db)

-- `latest_failed_scan_id`
unfoldable pub latest_failed_scan_id : String → Db → Option ℕ
latest_failed_scan_id key db = id_of (
    find (λ _. true)
      (sort_by (λ s. negate s.started_at)
        (filter
          (λ s.
            any (λ x. x.id == s.source_id && x.key == key) db.sources
            && s.status == ScanStatus.failed)
          db.scans)))
  where
    id_of : Option ScanRunRow → Option ℕ
    id_of none = none
    id_of (some s) = some s.id

module _ {ℓ} {C M : Type ℓ} (get_scan_context : ℕ → Db → Option C) (message : C → M)
    (by_channel : Dict AlertChannel (Notifier M)) where
  -- `NotificationDispatcher.dispatch_scan`
  unfoldable pub dispatched : ℕ → ℕ → Db → Db
  unfolding session_scope dispatch_scan
  dispatched scan_id now db =
      (session_scope (dispatch_scan get_scan_context message by_channel scan_id now) db).1

  unfoldable pub dispatch_found : Option ℕ → ℕ → Db → Db
  unfolding dispatched
  dispatch_found none now db = db
  dispatch_found (some scan_id) now db = dispatched scan_id now db

  -- `NotificationDispatcher.dispatch_system_error`
  unfoldable pub dispatch_system_error : String → ℕ → Db → Db
  unfolding dispatch_found latest_failed_scan_id
  dispatch_system_error key now db = dispatch_found (latest_failed_scan_id key db) now db

-- ---------------------------------------------------------------- a retry

-- The answer to a retry: 200 with the result, or an error status.
pub data RetryResponse : Type 0 where
  retried : DeliveryResult → RetryResponse
  refused : ℕ → RetryResponse

-- only an exception that is no HTTPException rolls back
unfoldable pub respond_retry : Db → Result AlertError DeliveryResult × Db → RetryResponse × Db
respond_retry before (ok r, after) = (retried r, after)
respond_retry before (err (delivery_not_found id), after) = (refused 404, after)
respond_retry before (err (max_attempts_exceeded id), after) = (refused 409, after)
respond_retry before (err (retry_not_due at), after) = (refused 409, after)
respond_retry before (err (delivery_failure text), after) = (refused 500, before)
respond_retry before (err lookup_error, after) = (refused 500, before)
respond_retry before (err index_error, after) = (refused 500, before)
respond_retry before (err (unexpected_error name), after) = (refused 500, before)

module _ {ℓ} {C M : Type ℓ} (get_scan_context : ℕ → Db → Option C) (message : C → M)
    (by_channel : Dict AlertChannel (Notifier M)) where
  -- `retry_delivery` of the router
  unfoldable pub retry_delivery : ℕ → ℕ → Db → RetryResponse × Db
  unfolding respond_retry attempt
  retry_delivery id now db =
      respond_retry db (attempt get_scan_context message by_channel id now db)
