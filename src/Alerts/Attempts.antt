-- ===== src/Alerts/Attempts.antt =====
-- What an attempt to deliver does to the delivery's row.

use schema_sentry.Prelude.{
  ℕ, zero, suc, ◌≤◌, ◌<◌, String, true, false, Option, none, some, ◌≡◌, ◌↔◌, ◌⊎◌, inl, inr, refl,
  sym, ap, subst, arith, ◌==◌, ℕ_eq, leb, is_some, if◌then◌else◌, ◌≢◌, Bool-cases, Option-cases,
}
use schema_sentry.Prelude.Dict
use schema_sentry.Prelude.Dict.{Dict}
use schema_sentry.Prelude.Result.{Result, ok, err}
use schema_sentry.Domain.Enums.{AlertChannel, AlertChannel_eq, AlertStatus, pending, sent}
use schema_sentry.Store.{Db, AlertDeliveryRow}
use schema_sentry.Alerts.Rows.{
  found_id, mark_attempt_started-eq, mark_sent-eq, mark_failed-eq, find-update_delivery,
  update_first-update_first,
}
use schema_sentry.Alerts.{
  AlertError, index_error, lookup_error, unexpected_error, SendError, delivery_failed, send_raised,
  delivery_record, find_delivery, lock_delivery, update_delivery, started, sent_with, failed_with,
  next_retry, is_early, DeliveryResult, Notifier, record_receipt, send_attempt, attempt_in,
  attempt_locked, attempt, record_of,
}

-- The delay of an attempt is read inside `RETRY_DELAYS`, and there is one exactly before the last attempt.
pub next_retry_defined :
    (now n : ℕ)
    → 1 ≤ n
    → (next : Option ℕ) × (next_retry now n ≡ ok next) × ((is_some next ≡ true) ↔ (n < 3))
unfolding next_retry
next_retry_defined now zero h = absurd (omega arith)
next_retry_defined now (suc zero) h = (_, refl, ground arith)
next_retry_defined now (suc (suc zero)) h = (_, refl, ground arith)
next_retry_defined now (suc (suc (suc n))) h = (none, ground arith, ground arith)

module _ {ℓ} {C M : Type ℓ} (get_scan_context : ℕ → Db → Option C) (message : C → M)
    (notifiers : Dict AlertChannel (Notifier M)) where
  -- What a completed attempt found and left.
  pub record Attempted (id now : ℕ) (db : Db) (r : DeliveryResult) (db' : Db) : Type ℓ where
    pub before : AlertDeliveryRow
    pub after : AlertDeliveryRow
    pub found : find_delivery id db ≡ some before
    pub attempts_left : before.attempt_count < 3
    pub is_due : is_early now before.next_retry_at ≡ false
    pub left : find_delivery id db' ≡ some after
    pub counted : after.attempt_count ≡ suc before.attempt_count
    pub reported : r.attempt_count ≡ after.attempt_count
    pub scheduled : r.next_retry_at ≡ after.next_retry_at
    pub status : after.status ≡ (if r.success then sent else AlertStatus.failed)
    pub write : AlertDeliveryRow → AlertDeliveryRow
    pub written : db' ≡ update_delivery id write db
    pub keeps_id : (x : AlertDeliveryRow) → (write x).id ≡ x.id
    pub keeps_scan : (x : AlertDeliveryRow) → (write x).scan_id ≡ x.scan_id
    pub counts : (x : AlertDeliveryRow) → (write x).attempt_count ≡ suc x.attempt_count
    pub settles : (x : AlertDeliveryRow) → (write x).status ≢ pending
    pub again : (is_some r.next_retry_at ≡ true) ↔ ((r.success ≡ false) × (r.attempt_count < 3))

  -- An attempt that the notifier broke: it raised an exception that is no `DeliveryFailure`, and what is left is
  -- that the attempt was counted.
  pub record Broken (id now : ℕ) (db : Db) (e : AlertError) (db' : Db) : Type ℓ where
    pub name : String
    pub raised : e ≡ unexpected_error name
    pub before : AlertDeliveryRow
    pub found : find_delivery id db ≡ some before
    pub attempts_left : before.attempt_count < 3
    pub is_due : is_early now before.next_retry_at ≡ false
    pub context : C
    pub has_context : get_scan_context before.scan_id db ≡ some context
    pub send : Notifier M
    pub has_notifier : Dict.get before.channel notifiers ≡ some send
    pub sending : send (message context) ≡ err (send_raised name)
    pub written : db' ≡ update_delivery id started db

  -- The end of an attempt: the attempt's row, or an error that is none of the lookups, and that changed nothing
  -- or is what the notifier raised.
  unfoldable pub Ends : ℕ → ℕ → Db → Result AlertError DeliveryResult × Db → Type ℓ
  Ends id now db (ok r, db') = Attempted id now db r db'
  Ends id now db (err e, db') =
      (e ≢ index_error) × (e ≢ lookup_error) × ((db' ≡ db) ⊎ Broken id now db e db')

  module _ (now : ℕ) (db : Db) (d : AlertDeliveryRow) (h : find_delivery d.id db ≡ some d)
      (few : d.attempt_count < 3) (due : is_early now d.next_retry_at ≡ false) where
    -- the row once the attempt began
    begun : find_delivery d.id (update_delivery d.id started db) ≡ some (started d)
    unfolding started
    begun = find-update_delivery d.id started db d h refl

    twice :
        (f : AlertDeliveryRow → AlertDeliveryRow)
        → update_delivery d.id f (update_delivery d.id started db)
          ≡ update_delivery d.id (λ x. f (started x)) db
    unfolding started
    twice f =
        ap (λ l. record db { deliveries = l })
          (update_first-update_first (λ x. x.id == d.id) started f db.deliveries (λ x. refl))

    sent-Ends :
        (receipt : Option String)
        → Ends d.id now db (
            record_receipt get_scan_context message notifiers
              (delivery_record d)
              now
              (delivery_record (started d))
              (ok receipt)
              (update_delivery d.id started db))
    unfolding record_receipt Ends delivery_record sent_with started
    sent-Ends receipt =
        rw (mark_sent-eq d.id receipt now (update_delivery d.id started db) (started d) begun)
          (record {
            before = d;
            after = sent_with receipt now (started d);
            found = h;
            attempts_left = few;
            is_due = due;
            left =
                find-update_delivery d.id (sent_with receipt now) (update_delivery d.id started db)
                  (started d) begun refl;
            counted = refl;
            reported = refl;
            scheduled = refl;
            status = refl;
            write = λ x. sent_with receipt now (started x);
            written = twice (sent_with receipt now);
            keeps_id = λ x. refl;
            keeps_scan = λ x. refl;
            counts = λ x. refl;
            settles = λ x. ground arith;
            again = ground arith;
          })

    failed-Ends :
        (text : String)
        → Ends d.id now db (
            record_receipt get_scan_context message notifiers
              (delivery_record d)
              now
              (delivery_record (started d))
              (err (delivery_failed text))
              (update_delivery d.id started db))
    unfolding record_receipt Ends delivery_record failed_with started
    failed-Ends text =
        let (next, defined, some_iff) =
          next_retry_defined now (suc d.attempt_count) (omega arith) in
        rw
          (
            defined,
            mark_failed-eq d.id text next (update_delivery d.id started db) (started d) begun,
          )
          (record {
            before = d;
            after = failed_with text next (started d);
            found = h;
            attempts_left = few;
            is_due = due;
            left =
                find-update_delivery d.id (failed_with text next) (update_delivery d.id started db)
                  (started d) begun refl;
            counted = refl;
            reported = refl;
            scheduled = refl;
            status = refl;
            write = λ x. failed_with text next (started x);
            written = twice (failed_with text next);
            keeps_id = λ x. refl;
            keeps_scan = λ x. refl;
            counts = λ x. refl;
            settles = λ x. ground arith;
            again = ground (arith, some_iff);
          })

    raised-Ends :
        (context : C) (send : Notifier M) (name : String)
        → get_scan_context d.scan_id db ≡ some context
        → Dict.get d.channel notifiers ≡ some send
        → send (message context) ≡ err (send_raised name)
        → Ends d.id now db (
            record_receipt get_scan_context message notifiers
              (delivery_record d)
              now
              (delivery_record (started d))
              (err (send_raised name))
              (update_delivery d.id started db))
    unfolding record_receipt Ends
    raised-Ends context send name has_context has_notifier sending = (
      ground arith,
      ground arith,
      inr (record {
        name = name;
        raised = refl;
        before = d;
        found = h;
        attempts_left = few;
        is_due = due;
        context = context;
        has_context = has_context;
        send = send;
        has_notifier = has_notifier;
        sending = sending;
        written = refl;
      }),
    )

    receipt-Ends :
        (context : C) (send : Notifier M) (receipt : Result SendError (Option String))
        → get_scan_context d.scan_id db ≡ some context
        → Dict.get d.channel notifiers ≡ some send
        → send (message context) ≡ receipt
        → Ends d.id now db (
            record_receipt get_scan_context message notifiers
              (delivery_record d)
              now
              (delivery_record (started d))
              receipt
              (update_delivery d.id started db))
    receipt-Ends context send (ok receipt) c n s = sent-Ends receipt
    receipt-Ends context send (err (delivery_failed text)) c n s = failed-Ends text
    receipt-Ends context send (err (send_raised name)) c n s = raised-Ends context send name c n s

    send_attempt-Ends :
        (context : C) (notifier : Option (Notifier M))
        → get_scan_context d.scan_id db ≡ some context
        → Dict.get d.channel notifiers ≡ notifier
        → Ends d.id now db (
            send_attempt get_scan_context message notifiers
              (delivery_record d)
              now
              context
              notifier
              db)
    unfolding send_attempt Ends delivery_record
    send_attempt-Ends context none c n = (ground arith, ground arith, inl refl)
    send_attempt-Ends context (some send) c n =
        rw (mark_attempt_started-eq d.id db d h)
          (receipt-Ends context send (send (message context)) c n refl)

    attempt_in-Ends :
        (context : Option C)
        → get_scan_context d.scan_id db ≡ context
        → Ends d.id now db
            (attempt_in get_scan_context message notifiers (delivery_record d) now context db)
    unfolding attempt_in Ends delivery_record
    attempt_in-Ends none c = (ground arith, ground arith, inl refl)
    attempt_in-Ends (some context) c =
        send_attempt-Ends context (Dict.get d.channel notifiers) c refl

  attempt_locked-Ends :
      (now : ℕ) (db : Db) (d : AlertDeliveryRow)
      → find_delivery d.id db ≡ some d
      → Ends d.id now db
          (attempt_locked get_scan_context message notifiers d.id now (some (delivery_record d)) db)
  unfolding attempt_locked Ends delivery_record
  attempt_locked-Ends now db d h = elim (Bool-cases (leb 3 d.attempt_count)) [
    | inl full ↦ rw full (ground arith, ground arith, inl refl)
    | inr few ↦ elim (Bool-cases (is_early now d.next_retry_at)) [
      | inl early ↦ rw (few, early) (ground arith, ground arith, inl refl)
      | inr due ↦
          rw (few, due)
            (attempt_in-Ends now db d h (ground arith) due (get_scan_context d.scan_id db) refl)
    ]
  ]

  attempt_found-Ends :
      (id now : ℕ) (db : Db) (d : AlertDeliveryRow)
      → find_delivery id db ≡ some d
      → Ends id now db
          (attempt_locked get_scan_context message notifiers id now (some (delivery_record d)) db)
  attempt_found-Ends id now db d found =
      let same = (ℕ_eq.test_iff d.id id).0 (found_id id db.deliveries d found) in
      subst
        (λ n.
          Ends n now db
            (attempt_locked get_scan_context message notifiers n now (some (delivery_record d)) db))
        same
        (attempt_locked-Ends now db d (subst (λ n. find_delivery n db ≡ some d) (sym same) found))

  pub attempt-Ends :
      (id now : ℕ) (db : Db) → Ends id now db (attempt get_scan_context message notifiers id now db)
  unfolding attempt lock_delivery record_of attempt_locked Ends
  attempt-Ends id now db = elim (Option-cases (find_delivery id db)) [
    | inl missing ↦ rw missing (ground arith, ground arith, inl refl)
    | inr (d, found) ↦ rw found (attempt_found-Ends id now db d found)
  ]
