-- ===== src/Alerts/Settled.antt =====
-- An attempt of a delivery that is ready.

use mathlib.Core.Logic.{⊎_elim}
use schema_sentry.Prelude.{
  ℕ, suc, ◌<◌, String, false, Option, some, ◌≡◌, ◌≢◌, ◌⊎◌, inl, inr, refl, ap, ◌∙◌, subst, arith,
  ℕ_eq, leb,
}
use schema_sentry.Prelude.Dict
use schema_sentry.Prelude.Dict.{Dict}
use schema_sentry.Prelude.Result.{Result, ok, err}
use schema_sentry.Domain.Enums.{AlertChannel, AlertChannel_eq, AlertStatus_eq, pending}
use schema_sentry.Store.{Db, AlertDeliveryRow}
use schema_sentry.Alerts.{
  DeliveryResult, Notifier, SendError, delivery_failed, send_raised, unexpected_error,
  delivery_record, record_of, find_delivery, lock_delivery, update_delivery, started, is_early,
  record_receipt, send_attempt, attempt_in, attempt_locked, attempt,
}
use schema_sentry.Alerts.Rows.{
  mark_attempt_started-eq, mark_sent-eq, mark_failed-eq, find-update_delivery,
}
use schema_sentry.Alerts.Attempts.{next_retry_defined, Attempted, Ends, attempt-Ends}

module _ {ℓ} {C M : Type ℓ} (get_scan_context : ℕ → Db → Option C) (message : C → M)
    (notifiers : Dict AlertChannel (Notifier M)) where
  -- A delivery that can be attempted: its scan has a context, its channel a notifier, and it is due.
  pub record IsReady (now : ℕ) (db : Db) (d : AlertDeliveryRow) : Type ℓ where
    pub context : C
    pub has_context : get_scan_context d.scan_id db ≡ some context
    pub send : Notifier M
    pub has_notifier : Dict.get d.channel notifiers ≡ some send
    pub attempts_left : d.attempt_count < 3
    pub is_due : is_early now d.next_retry_at ≡ false

  -- The notifier of a delivery raises an exception that is no `DeliveryFailure` on the message of its scan.
  pub record IsBroken (db : Db) (d : AlertDeliveryRow) (name : String) : Type ℓ where
    pub context : C
    pub has_context : get_scan_context d.scan_id db ≡ some context
    pub send : Notifier M
    pub has_notifier : Dict.get d.channel notifiers ≡ some send
    pub sending : send (message context) ≡ err (send_raised name)

  -- What an attempt of a delivery returned, and the row that it wrote: it waits no more.
  abbrev pub Completes : ℕ → ℕ → Db → Type 0
  Completes now id db =
      (r : DeliveryResult) × (f : AlertDeliveryRow → AlertDeliveryRow) × (attempt get_scan_context
          message notifiers id now db
        ≡ (ok r, update_delivery id f db))
      × ((x : AlertDeliveryRow) → (f x).id ≡ x.id)
      × ((x : AlertDeliveryRow) → (f x).status ≢ pending)

  -- An attempt that raised what the notifier of the delivery raises.
  abbrev pub RaisesFor : ℕ → ℕ → Db → AlertDeliveryRow → Type ℓ
  RaisesFor now id db d =
      (name : String) × (db' : Db) × (attempt get_scan_context message notifiers id now db
        ≡ (err (unexpected_error name), db'))
      × IsBroken db d name

  module _ (now : ℕ) (db : Db) (d : AlertDeliveryRow) (h : find_delivery d.id db ≡ some d) where
    begun : find_delivery d.id (update_delivery d.id started db) ≡ some (started d)
    unfolding started
    begun = find-update_delivery d.id started db d h refl

    receipt-returns :
        (receipt : Result SendError (Option String))
        → ((r : DeliveryResult) × (db' : Db) × (record_receipt get_scan_context message notifiers
                (delivery_record d)
                now
                (delivery_record (started d))
                receipt
                (update_delivery d.id started db)
              ≡ (ok r, db')))
          ⊎ ((name : String) × (db' : Db) × (record_receipt get_scan_context message notifiers
                  (delivery_record d)
                  now
                  (delivery_record (started d))
                  receipt
                  (update_delivery d.id started db)
                ≡ (err (unexpected_error name), db'))
              × (receipt ≡ err (send_raised name)))
    unfolding record_receipt delivery_record started
    receipt-returns (ok receipt) =
        rw (mark_sent-eq d.id receipt now (update_delivery d.id started db) (started d) begun)
          (inl (_, _, refl))
    receipt-returns (err (delivery_failed text)) =
        let (next, defined, _) = next_retry_defined now (suc d.attempt_count) (omega arith) in
        rw
          (
            defined,
            mark_failed-eq d.id text next (update_delivery d.id started db) (started d) begun,
          )
          (inl (_, _, refl))
    receipt-returns (err (send_raised name)) = inr (name, _, refl, refl)

    attempt-eq-receipt :
        (ready : IsReady now db d)
        → attempt get_scan_context message notifiers d.id now db
          ≡ record_receipt get_scan_context message notifiers
              (delivery_record d)
              now
              (delivery_record (started d))
              (ready.send (message ready.context))
              (update_delivery d.id started db)
    unfolding attempt lock_delivery record_of attempt_locked attempt_in send_attempt delivery_record
    attempt-eq-receipt ready =
        let few : leb 3 d.attempt_count ≡ false = ground (arith, ready.attempts_left) in
        rw
          (
            h,
            few,
            ready.is_due,
            ready.has_context,
            ready.has_notifier,
            mark_attempt_started-eq d.id db d h,
            attempt_locked,
          )
          refl

    -- An attempt of a ready delivery returns, and then it writes that row alone, which waits no more, or it
    -- raises what the notifier raised.
    pub attempt-settles : IsReady now db d → Completes now d.id db ⊎ RaisesFor now d.id db d
    unfolding Ends
    attempt-settles ready =
        ⊎_elim
          (λ (r, db', returns).
            let whole = attempt-eq-receipt ready ∙ returns in
            let ends : Attempted get_scan_context message notifiers d.id now db r db' =
              subst (Ends get_scan_context message notifiers d.id now db) whole
                (attempt-Ends get_scan_context message notifiers d.id now db) in
            inl (
              r,
              ends.write,
              whole ∙ ap (λ s. (ok r, s)) ends.written,
              ends.keeps_id,
              ends.settles,
            ))
          (λ (name, db', raises, sending). inr (
            name,
            db',
            attempt-eq-receipt ready ∙ raises,
            record {
              context = ready.context;
              has_context = ready.has_context;
              send = ready.send;
              has_notifier = ready.has_notifier;
              sending = sending;
            },
          ))
          (receipt-returns (ready.send (message ready.context)))
