-- ===== src/Alerts.antt =====
-- src/schema_sentry/infrastructure/db/repositories/alerts.py and the attempts of
-- application/notification_service.py. A timestamp counts microseconds.
pub mod Rows
pub mod Distinct
pub mod Attempts
pub mod Settled
pub mod Dispatched
pub mod Context
pub mod Dispatcher
use schema_sentry.Prelude.{
  ℕ, zero, suc, ◌+◌, ◌-◌, ◌*◌, String, Bool, true, false, not, Option, none, some, List, [], ◌∷◌,
  map, filter, ◌==◌, ◌&&◌, ℕ_eq, String_eq, ltb, leb, if◌then◌else◌,
}
use schema_sentry.Prelude.Dict
use schema_sentry.Prelude.Dict.{Dict}
use schema_sentry.Prelude.Exec.{Exec, pure, raise, gets, lift, modify, ◌>>=◌, ◌>>◌}
use schema_sentry.Prelude.Result.{Result, ok, err}
use schema_sentry.Domain.Enums.{
  AlertChannel, AlertChannel_eq, AlertStatus, AlertStatus_eq, pending, sent, ScanStatus,
  ScanStatus_eq,
}
use schema_sentry.Store.{Db, AlertDeliveryRow, find}

pub data AlertError : Type 0 where
  delivery_not_found max_attempts_exceeded retry_not_due : ℕ → AlertError
  delivery_failure : String → AlertError
  lookup_error index_error : AlertError
  unexpected_error : String → AlertError

abbrev pub AlertSession {ℓ} : Type ℓ → Type ℓ
AlertSession A = Exec Db AlertError A

pub record DeliveryRecord : Type 0 where
  pub id : ℕ
  pub scan_id : ℕ
  pub channel : AlertChannel
  pub status : AlertStatus
  pub attempt_count : ℕ
  pub next_retry_at : Option ℕ

-- `_record`
unfoldable pub delivery_record : AlertDeliveryRow → DeliveryRecord
delivery_record d = record {
  id = d.id;
  scan_id = d.scan_id;
  channel = d.channel;
  status = d.status;
  attempt_count = d.attempt_count;
  next_retry_at = d.next_retry_at;
}

unfoldable pub list_dispatchable_for_scan : ℕ → Db → List ℕ
list_dispatchable_for_scan scan_id db =
    map (λ d. d.id) (filter (λ d. d.scan_id == scan_id && d.status == pending) db.deliveries)

abbrev pub find_delivery : ℕ → Db → Option AlertDeliveryRow
find_delivery id db = find (λ d. d.id == id) db.deliveries

unfoldable pub record_of : Option AlertDeliveryRow → Option DeliveryRecord
unfolding delivery_record
record_of none = none
record_of (some d) = some (delivery_record d)

unfoldable pub lock_delivery : ℕ → Db → Option DeliveryRecord
unfolding record_of
lock_delivery id db = record_of (find_delivery id db)

-- `_delivery`
unfoldable pub delivery : ℕ → AlertSession AlertDeliveryRow
delivery id db = elim (find_delivery id db) [ none ↦ raise lookup_error db | some d ↦ pure d db ]

-- a write to the object that a lookup by the primary key gives
abbrev pub update_first {ℓ} : {A : Type ℓ} → (A → Bool) → (A → A) → List A → List A
update_first p f [] = []
update_first p f (x ∷ xs) = if p x then f x ∷ xs else x ∷ update_first p f xs

abbrev pub update_delivery : ℕ → (AlertDeliveryRow → AlertDeliveryRow) → Db → Db
update_delivery id f db = record db { deliveries = update_first (λ d. d.id == id) f db.deliveries }

unfoldable pub started : AlertDeliveryRow → AlertDeliveryRow
started d = record d { attempt_count = suc d.attempt_count; status = pending; next_retry_at = none }

unfoldable pub mark_attempt_started : ℕ → AlertSession DeliveryRecord
unfolding delivery started delivery_record
mark_attempt_started id = do
  d ← delivery id
  modify (update_delivery id started)
  pure (delivery_record (started d))

unfoldable pub sent_with : Option String → ℕ → AlertDeliveryRow → AlertDeliveryRow
sent_with provider_message_id sent_at d = record d {
  status = sent;
  provider_message_id = provider_message_id;
  last_error = none;
  next_retry_at = none;
  sent_at = some sent_at;
}

unfoldable pub mark_sent : ℕ → Option String → ℕ → AlertSession (Unit {0})
unfolding delivery sent_with
mark_sent id provider_message_id sent_at = do
  _ ← delivery id
  modify (update_delivery id (sent_with provider_message_id sent_at))

unfoldable pub failed_with : String → Option ℕ → AlertDeliveryRow → AlertDeliveryRow
failed_with error next_retry_at d = record d {
  status = AlertStatus.failed;
  last_error = some error;
  next_retry_at = next_retry_at;
}

unfoldable pub mark_failed : ℕ → String → Option ℕ → AlertSession (Unit {0})
unfolding delivery failed_with
mark_failed id error next_retry_at = do
  _ ← delivery id
  modify (update_delivery id (failed_with error next_retry_at))

-- ---------------------------------------------------------------- the service

abbrev pub max_attempts : ℕ
max_attempts = 3

abbrev pub retry_delays : List ℕ
retry_delays = 60 ∷ 300 ∷ []

-- `xs[i]`, with the `IndexError` as `none`
abbrev pub get_elem? {ℓ} : {A : Type ℓ} → List A → ℕ → Option A
get_elem? [] i = none
get_elem? (x ∷ xs) zero = some x
get_elem? (x ∷ xs) (suc i) = get_elem? xs i

pub record DeliveryResult : Type 0 where
  pub delivery_id : ℕ
  pub channel : AlertChannel
  pub success : Bool
  pub attempt_count : ℕ
  pub next_retry_at : Option ℕ

retry_after : ℕ → Option ℕ → Result AlertError (Option ℕ)
retry_after now none = err index_error
retry_after now (some seconds) = ok (some (now + seconds * 1000000))

-- When a failed attempt is due again. `attempt_count` is the number of the attempt, from 1.
unfoldable pub next_retry : ℕ → ℕ → Result AlertError (Option ℕ)
unfolding retry_after
next_retry now attempt_count =
    if ltb attempt_count max_attempts
    then retry_after now (get_elem? retry_delays (attempt_count - 1))
    else ok none

-- `delivery.next_retry_at and now < delivery.next_retry_at`
unfoldable pub is_early : ℕ → Option ℕ → Bool
is_early now none = false
is_early now (some at) = ltb now at

-- What `send` raises: a `DeliveryFailure` with its text, or another exception with its name.
pub data SendError : Type 0 where
  delivery_failed send_raised : String → SendError

-- A notifier sends a message, and answers with the provider's id or raises.
abbrev pub Notifier {ℓ} : Type ℓ → Type ℓ
Notifier M = M → Result SendError (Option String)

module _ {ℓ} {C M : Type ℓ} (get_scan_context : ℕ → Db → Option C) (message : C → M)
    (notifiers : Dict AlertChannel (Notifier M)) where
  -- what follows `mark_attempt_started`: the failed attempt, the exception that is no `DeliveryFailure`, and
  -- the sent attempt
  unfoldable pub record_receipt :
      DeliveryRecord
      → ℕ
      → DeliveryRecord
      → Result SendError (Option String)
      → AlertSession DeliveryResult
  unfolding mark_failed mark_sent next_retry
  record_receipt d now attempted (err (send_raised name)) = raise (unexpected_error name)
  record_receipt d now attempted (err (delivery_failed text)) = do
    next ← lift (next_retry now attempted.attempt_count)
    mark_failed d.id text next
    pure (record {
      delivery_id = d.id;
      channel = d.channel;
      success = false;
      attempt_count = attempted.attempt_count;
      next_retry_at = next;
    })
  record_receipt d now attempted (ok receipt) = do
    mark_sent d.id receipt now
    pure (record {
      delivery_id = d.id;
      channel = d.channel;
      success = true;
      attempt_count = attempted.attempt_count;
      next_retry_at = none;
    })

  unfoldable pub send_attempt :
      DeliveryRecord → ℕ → C → Option (Notifier M) → AlertSession DeliveryResult
  unfolding mark_attempt_started record_receipt
  send_attempt d now context none = raise (delivery_failure "notification_channel_not_configured")
  send_attempt d now context (some send) = do
    attempted ← mark_attempt_started d.id
    record_receipt d now attempted (send (message context))

  unfoldable pub attempt_in : DeliveryRecord → ℕ → Option C → AlertSession DeliveryResult
  unfolding send_attempt
  attempt_in d now none = raise (delivery_not_found d.id)
  attempt_in d now (some context) = send_attempt d now context (Dict.get d.channel notifiers)

  unfoldable pub attempt_locked : ℕ → ℕ → Option DeliveryRecord → AlertSession DeliveryResult
  unfolding attempt_in is_early
  attempt_locked id now none = raise (delivery_not_found id)
  attempt_locked id now (some d) =
      if leb max_attempts d.attempt_count
      then raise (max_attempts_exceeded id)
      else if is_early now d.next_retry_at
      then (λ db. raise (retry_not_due (due d.next_retry_at)) db)
      else (λ db. attempt_in d now (get_scan_context d.scan_id db) db)
    where
      due : Option ℕ → ℕ
      due none = 0
      due (some at) = at

  -- `_attempt`, which is `retry`
  unfoldable pub attempt : ℕ → ℕ → AlertSession DeliveryResult
  unfolding lock_delivery attempt_locked
  attempt id now db = attempt_locked id now (lock_delivery id db) db

  -- the generator of `dispatch_scan`: the first error ends it
  unfoldable pub attempt_all : List ℕ → ℕ → AlertSession (List DeliveryResult)
  unfolding attempt
  attempt_all [] now = pure []
  attempt_all (id ∷ ids) now = do r ← attempt id now; rs ← attempt_all ids now; pure (r ∷ rs)

  unfoldable pub dispatch_scan : ℕ → ℕ → AlertSession (List DeliveryResult)
  unfolding list_dispatchable_for_scan attempt_all
  dispatch_scan scan_id now = do
    ids ← gets (list_dispatchable_for_scan scan_id)
    attempt_all ids now
