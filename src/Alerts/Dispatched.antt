-- ===== src/Alerts/Dispatched.antt =====
-- A dispatch attempts every delivery of a scan that waits.
use schema_sentry.Alerts.Distinct.{find_of_mem, find-update_other, mem_of_mem-update_first}
use mathlib.Core.List.Memᴰ
use mathlib.Core.Logic.{⊎_elim}
use schema_sentry.Prelude.{
  ℕ, suc, String, false, Option, some, List, [], ◌∷◌, map, filter, length, Memᴰ, ◌≡◌, ◌≢◌, ◌⊎◌, inl,
  inr, refl, sym, ap, ◌∙◌, subst, arith, ◌==◌, ◌&&◌, ℕ_eq, IsUnique, contains, contains_iff,
  Memᴰ-cons, Memᴰ-filter, mem-map_of_mem, mem_of_mem-map, IsUnique-map-filter, eq_nil_of_empty,
}
use schema_sentry.Prelude.Dict.{Dict}
use schema_sentry.Prelude.Result.{ok, err}
use schema_sentry.Domain.Enums.{AlertChannel, AlertChannel_eq, AlertStatus_eq, pending}
use schema_sentry.Store.{Db, AlertDeliveryRow}
use schema_sentry.Alerts.{
  DeliveryResult, Notifier, unexpected_error, find_delivery, update_first, update_delivery, attempt,
  attempt_all, list_dispatchable_for_scan, dispatch_scan,
}
use schema_sentry.Alerts.Rows.{found_id, ids-update_first}
use schema_sentry.Alerts.Settled.{IsReady, IsBroken, Completes, RaisesFor, attempt-settles}

module _ {ℓ} {C M : Type ℓ} (get_scan_context : ℕ → Db → Option C) (message : C → M)
    (notifiers : Dict AlertChannel (Notifier M)) where
  module _
      (blind : (scan_id : ℕ) (db : Db) (ds : List AlertDeliveryRow)
        → get_scan_context scan_id (record db { deliveries = ds }) ≡ get_scan_context scan_id db)
      (now : ℕ) where
    -- the deliveries that a loop is about to attempt
    abbrev AllReady : List ℕ → Db → Type ℓ
    AllReady ids db =
        (i : ℕ)
        → Memᴰ i ids
        → (d : AlertDeliveryRow) × (find_delivery i db ≡ some d)
          × IsReady get_scan_context message notifiers now db d

    later_ready :
        (i : ℕ) (ids : List ℕ) (f : AlertDeliveryRow → AlertDeliveryRow) (db : Db)
        → ((x : AlertDeliveryRow) → (f x).id ≡ x.id)
        → contains i ids ≡ false
        → AllReady (i ∷ ids) db
        → AllReady ids (update_delivery i f db)
    later_ready i ids f db keep absent ready j m =
        let (d, found, go) = ready j (Memᴰ.tail m) in
        let apart : i ≢ j = λ same.
          ground (arith, contains_iff i ids, absent, subst (λ k. Memᴰ k ids) (sym same) m) in
        (
          d,
          find-update_other i f j db.deliveries keep apart ∙ found,
          record {
            context = go.context;
            has_context =
                blind d.scan_id db (update_first (λ x. x.id == i) f db.deliveries) ∙ go.has_context;
            send = go.send;
            has_notifier = go.has_notifier;
            attempts_left = go.attempts_left;
            is_due = go.is_due;
          },
        )

    -- the loop over the deliveries returned, and what it leaves waiting was there before, and was none of those
    -- to attempt
    abbrev AllCompleted : List ℕ → Db → Type 0
    AllCompleted ids db =
        (rs : List DeliveryResult) × (db' : Db) × (attempt_all get_scan_context message notifiers
            ids now db
          ≡ (ok rs, db'))
        × (length rs ≡ length ids)
        × ((d : AlertDeliveryRow)
            → Memᴰ d db'.deliveries
            → d.status ≡ pending
            → Memᴰ d db.deliveries × (¬ Memᴰ d.id ids))

    -- the loop raised what the notifier of one of the deliveries raises
    abbrev OneRaises : List ℕ → Db → Type ℓ
    OneRaises ids db =
        (name : String) × (db' : Db) × (attempt_all get_scan_context message notifiers ids now db
          ≡ (err (unexpected_error name), db'))
        × ((i : ℕ) × (d : AlertDeliveryRow) × Memᴰ i ids
            × (find_delivery i db ≡ some d)
            × IsBroken get_scan_context message notifiers db d name)

    cons-AllCompleted :
        (i : ℕ) (ids : List ℕ) (db : Db) (r : DeliveryResult)
        (f : AlertDeliveryRow → AlertDeliveryRow)
        → IsUnique (map (λ d. d.id) db.deliveries)
        → attempt get_scan_context message notifiers i now db ≡ (ok r, update_delivery i f db)
        → ((x : AlertDeliveryRow) → (f x).id ≡ x.id)
        → ((x : AlertDeliveryRow) → (f x).status ≢ pending)
        → AllCompleted ids (update_delivery i f db)
        → AllCompleted (i ∷ ids) db
    unfolding attempt_all
    cons-AllCompleted i ids db r f keys first keep settled (rs, db', rest, counted, waiting) = (
      r ∷ rs,
      db',
      rw (first, rest) refl,
      ap suc counted,
      λ x m waits.
          let (there, others) = waiting x m waits in
          ⊎_elim
            (λ (y, written). absurd (settled y (subst (λ z. z.status ≡ pending) written waits)))
            (λ (before, apart). (before, λ k. ⊎_elim apart others ((Memᴰ-cons x.id i ids).0 k)))
            (mem_of_mem-update_first i f x db.deliveries keys there),
    )

    cons-OneRaises :
        (i : ℕ) (ids : List ℕ) (db : Db) (r : DeliveryResult)
        (f : AlertDeliveryRow → AlertDeliveryRow)
        → attempt get_scan_context message notifiers i now db ≡ (ok r, update_delivery i f db)
        → ((x : AlertDeliveryRow) → (f x).id ≡ x.id)
        → contains i ids ≡ false
        → OneRaises ids (update_delivery i f db)
        → OneRaises (i ∷ ids) db
    unfolding attempt_all
    cons-OneRaises i ids db r f first keep absent (name, db', rest, (j, d, m, found, broken)) =
        let apart : i ≢ j = λ same.
          ground (arith, contains_iff i ids, absent, subst (λ k. Memᴰ k ids) (sym same) m) in
        (
          name,
          db',
          rw (first, rest) refl,
          (
            j,
            d,
            Memᴰ.tail m,
            sym (find-update_other i f j db.deliveries keep apart) ∙ found,
            record {
              context = broken.context;
              has_context =
                  sym (blind d.scan_id db (update_first (λ x. x.id == i) f db.deliveries))
                  ∙ broken.has_context;
              send = broken.send;
              has_notifier = broken.has_notifier;
              sending = broken.sending;
            },
          ),
        )

    head-OneRaises :
        (i : ℕ) (ids : List ℕ) (db : Db) (d : AlertDeliveryRow)
        → find_delivery i db ≡ some d
        → RaisesFor get_scan_context message notifiers now i db d
        → OneRaises (i ∷ ids) db
    unfolding attempt_all
    head-OneRaises i ids db d found (name, db', raises, broken) =
        (name, db', rw (raises) refl, (i, d, Memᴰ.head refl, found, broken))

    attempt_all-settles :
        (ids : List ℕ) (db : Db)
        → IsUnique (map (λ d. d.id) db.deliveries)
        → IsUnique ids
        → AllReady ids db
        → AllCompleted ids db ⊎ OneRaises ids db
    unfolding attempt_all
    attempt_all-settles [] db keys unique ready =
        inl ([], db, refl, refl, λ d m waits. (m, λ k. Memᴰ.not-nil k))
    attempt_all-settles (i ∷ ids) db keys unique ready =
        let (d, found, go) = ready i (Memᴰ.head refl) in
        let same = (ℕ_eq.test_iff d.id i).0 (found_id i db.deliveries d found) in
        ⊎_elim
          (λ (r, f, first, keep, settled).
            ⊎_elim (λ rest. inl (cons-AllCompleted i ids db r f keys first keep settled rest))
              (λ broken. inr (cons-OneRaises i ids db r f first keep unique.0 broken))
              (attempt_all-settles ids (update_delivery i f db)
                (subst IsUnique (sym (ids-update_first (λ x. x.id == i) f db.deliveries keep)) keys)
                unique.1 (later_ready i ids f db keep unique.0 ready)))
          (λ broken. inr (head-OneRaises i ids db d found broken))
          (subst
            (λ n.
              Completes get_scan_context message notifiers now n db
              ⊎ RaisesFor get_scan_context message notifiers now n db d)
            same
            (attempt-settles get_scan_context message notifiers now db d
              (subst (λ n. find_delivery n db ≡ some d) (sym same) found) go))

    waiting_ids :
        (scan_id : ℕ) (db : Db) (i : ℕ)
        → Memᴰ i (
            map
              (λ d. d.id)
              (filter (λ d. d.scan_id == scan_id && d.status == pending) db.deliveries))
        → (d : AlertDeliveryRow) × Memᴰ d db.deliveries
          × (i ≡ d.id)
          × (d.scan_id ≡ scan_id)
          × (d.status ≡ pending)
    waiting_ids scan_id db i m =
        let waits = λ (d : AlertDeliveryRow). d.scan_id == scan_id && d.status == pending in
        let (d, k, is) =
          mem_of_mem-map (λ (x : AlertDeliveryRow). x.id) (filter waits db.deliveries) m in
        let (there, test) = (Memᴰ-filter waits d db.deliveries).0 k in
        (
          d,
          there,
          is,
          (ℕ_eq.test_iff d.scan_id scan_id).0 (ground (arith, test)),
          (AlertStatus_eq.test_iff d.status pending).0 (ground (arith, test)),
        )

    -- A dispatch of a scan whose waiting deliveries are ready returns a result for each of them, and then no
    -- delivery of the scan waits, or it raises what the notifier of one of them raises.
    pub dispatch_scan-settles :
        (scan_id : ℕ) (db : Db)
        → IsUnique (map (λ d. d.id) db.deliveries)
        → ((d : AlertDeliveryRow)
            → Memᴰ d db.deliveries
            → d.scan_id ≡ scan_id
            → d.status ≡ pending
            → IsReady get_scan_context message notifiers now db d)
        → ((rs : List DeliveryResult) × (db' : Db) × (dispatch_scan get_scan_context message
                notifiers scan_id now db
              ≡ (ok rs, db'))
            × (length rs ≡ length (list_dispatchable_for_scan scan_id db))
            × (list_dispatchable_for_scan scan_id db' ≡ []))
          ⊎ ((name : String) × (db' : Db) × (dispatch_scan get_scan_context message notifiers
                  scan_id now db
                ≡ (err (unexpected_error name), db'))
              × ((d : AlertDeliveryRow) × Memᴰ d db.deliveries
                  × (d.scan_id ≡ scan_id)
                  × (d.status ≡ pending)
                  × IsBroken get_scan_context message notifiers db d name))
    unfolding dispatch_scan list_dispatchable_for_scan
    dispatch_scan-settles scan_id db keys ready =
        let waits = λ (d : AlertDeliveryRow). d.scan_id == scan_id && d.status == pending in
        let ids = map (λ (d : AlertDeliveryRow). d.id) (filter waits db.deliveries) in
        ⊎_elim
          (λ (rs, db', ends, counted, waiting).
            inl (rs, db', ends, counted, none_waits scan_id db db' waiting))
          (λ (name, db', raises, (i, d, m, found, broken)).
            let (x, there, is, of_scan, pends) = waiting_ids scan_id db i m in
            let same : x ≡ d = cc (
              found,
              subst (λ n. find_delivery n db ≡ some x) (sym is)
                  (find_of_mem db.deliveries x keys there),
            ) in
            inr (
              name,
              db',
              raises,
              (
                x,
                there,
                of_scan,
                pends,
                subst (λ z. IsBroken get_scan_context message notifiers db z name) (sym same)
                    broken,
              ),
            ))
          (attempt_all-settles ids db keys
            (IsUnique-map-filter (λ d. d.id) waits db.deliveries keys)
            (all_ready scan_id db keys ready))
      where
        none_waits :
            (scan_id : ℕ) (db db' : Db)
            → ((d : AlertDeliveryRow)
                → Memᴰ d db'.deliveries
                → d.status ≡ pending
                → Memᴰ d db.deliveries × (¬ Memᴰ d.id (list_dispatchable_for_scan scan_id db)))
            → list_dispatchable_for_scan scan_id db' ≡ []
        none_waits scan_id db db' waiting =
            let waits = λ (d : AlertDeliveryRow). d.scan_id == scan_id && d.status == pending in
            ap (map (λ d. d.id)) (
              eq_nil_of_empty (filter waits db'.deliveries) (λ d m.
                let (there, test) = (Memᴰ-filter waits d db'.deliveries).0 m in
                let (before, fresh) =
                  waiting d there
                    ((AlertStatus_eq.test_iff d.status pending).0 (ground (arith, test))) in
                fresh (
                  mem-map_of_mem (λ (x : AlertDeliveryRow). x.id) (filter waits db.deliveries)
                    ((Memᴰ-filter waits d db.deliveries).1 (before, test)))))

        all_ready :
            (scan_id : ℕ) (db : Db)
            → IsUnique (map (λ d. d.id) db.deliveries)
            → ((d : AlertDeliveryRow)
                → Memᴰ d db.deliveries
                → d.scan_id ≡ scan_id
                → d.status ≡ pending
                → IsReady get_scan_context message notifiers now db d)
            → AllReady
                (map
                  (λ d. d.id)
                  (filter (λ d. d.scan_id == scan_id && d.status == pending) db.deliveries))
                db
        all_ready scan_id db keys ready i m =
            let (d, there, is, of_scan, pends) = waiting_ids scan_id db i m in
            (
              d,
              subst (λ n. find_delivery n db ≡ some d) (sym is)
                  (find_of_mem db.deliveries d keys there),
              ready d there of_scan pends,
            )
