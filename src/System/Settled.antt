-- ===== src/System/Settled.antt =====
-- The dispatch after a scan.
use mathlib.Core.List.Memᴰ
use mathlib.Core.Logic.{⊎_elim}
use schema_sentry.Prelude.{
  ℕ, String, some, List, [], ◌∷◌, Memᴰ, ◌≡◌, ◌⊎◌, inl, inr, refl, sym, ap, ◌∙◌, subst, arith, All,
  is_some, Option-cases,
}
use schema_sentry.Prelude.Dict
use schema_sentry.Prelude.Dict.{Dict}
use schema_sentry.Prelude.Json.{Json}
use schema_sentry.Domain.Enums.{AlertChannel, AlertChannel_eq, pending}
use schema_sentry.Store.{Db, AlertDeliveryRow}
use schema_sentry.Security.{Settings}
use schema_sentry.Alerts.{Notifier, is_early, list_dispatchable_for_scan}
use schema_sentry.Alerts.Context.{
  ScanAlertContext, context_of, context_changes, change_context, affected_dags, get_scan_context,
}
use schema_sentry.Alerts.Dispatcher.{
  enabled_channels, notifiers-enabled, session_scope, rolled_back, dispatched,
}
use schema_sentry.Alerts.Settled.{IsReady, IsBroken}
use schema_sentry.Alerts.Dispatched.{dispatch_scan-settles}
use schema_sentry.System.{by_channel}
use schema_sentry.System.Sound.{IsSound, IsDelivery}

All-of_mem :
    (P : AlertDeliveryRow → Type 0) (ds : List AlertDeliveryRow) (d : AlertDeliveryRow)
    → All P ds
    → Memᴰ d ds
    → P d
All-of_mem P [] d all m = absurd (Memᴰ.not-nil m)
All-of_mem P (x ∷ xs) d all (Memᴰ.head same) = subst P (sym same) all.0
All-of_mem P (x ∷ xs) d all (Memᴰ.tail m) = All-of_mem P xs d all.1 m

-- The context of an alert does not depend on the deliveries.
blind :
    (scan_id : ℕ) (db : Db) (ds : List AlertDeliveryRow)
    → get_scan_context scan_id (record db { deliveries = ds }) ≡ get_scan_context scan_id db
unfolding get_scan_context context_of context_changes change_context affected_dags
blind scan_id db ds = refl

module _ (digest : Json → String) {M : Type 0} (message : ScanAlertContext → M)
    (slack_notifier : String → Notifier M) (email_notifier : List String → Notifier M)
    (settings : Settings) where
  abbrev channels : Dict AlertChannel (Notifier M)
  channels = by_channel digest message slack_notifier email_notifier settings

  -- A delivery that waits is ready, where its channel is enabled and its scan has a context.
  waiting-IsReady :
      (now : ℕ) (db : Db) (context : ScanAlertContext) (d : AlertDeliveryRow)
      → get_scan_context d.scan_id db ≡ some context
      → Memᴰ d.channel (enabled_channels settings)
      → IsDelivery d
      → d.status ≡ pending
      → IsReady get_scan_context message channels now db d
  unfolding is_early
  waiting-IsReady now db context d has_context enabled fine waits =
      let (untried, at_once) = fine.1 waits in
      let there = (notifiers-enabled slack_notifier email_notifier settings d.channel).1 enabled in
      elim (Option-cases (Dict.get d.channel channels)) [
        | inl missing ↦ absurd (ground (arith, there, ap is_some missing))
        | inr (send, found) ↦ record {
          context = context;
          has_context = has_context;
          send = send;
          has_notifier = found;
          attempts_left = omega (arith, untried);
          is_due = rw (at_once) refl;
        }
      ]

  -- In a sound store the dispatch of a scan with a context, whose waiting deliveries are on
  -- enabled channels, leaves no delivery of the scan waiting: each was sent or has failed. Or the notifier of
  -- one of them raises an exception that is no `DeliveryFailure` on its message, and the store is as it was.
  pub dispatched-settles :
      (scan_id now : ℕ) (db : Db) (context : ScanAlertContext)
      → IsSound db
      → get_scan_context scan_id db ≡ some context
      → ((d : AlertDeliveryRow)
          → Memᴰ d db.deliveries
          → d.scan_id ≡ scan_id
          → d.status ≡ pending
          → Memᴰ d.channel (enabled_channels settings))
      → (list_dispatchable_for_scan scan_id
            (dispatched get_scan_context message channels scan_id now db)
          ≡ [])
        ⊎ ((d : AlertDeliveryRow) × (name : String) × Memᴰ d db.deliveries
            × (d.scan_id ≡ scan_id)
            × (d.status ≡ pending)
            × IsBroken get_scan_context message channels db d name
            × (dispatched get_scan_context message channels scan_id now db ≡ db))
  unfolding dispatched session_scope rolled_back
  dispatched-settles scan_id now db context sound has_context enabled =
      ⊎_elim
        (λ (rs, db', returns, _, settled).
          inl (ap (λ r. list_dispatchable_for_scan scan_id (rolled_back db r).1) returns ∙ settled))
        (λ (name, db', raises, (d, m, of_scan, waits, broken)).
          inr (d, name, m, of_scan, waits, broken, ap (λ r. (rolled_back db r).1) raises))
        (dispatch_scan-settles get_scan_context message channels blind now scan_id db
          sound.delivery_ids.1
          (λ d m of_scan waits.
            waiting-IsReady now db context d
              (subst (λ n. get_scan_context n db ≡ some context) (sym of_scan) has_context)
              (enabled d m of_scan waits) (All-of_mem IsDelivery db.deliveries d sound.deliveries m)
              waits))
