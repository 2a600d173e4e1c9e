-- ===== src/System/Requests.antt =====
-- The other requests keep the invariant of the store.
use schema_sentry.Prelude.{
  ℕ, suc, String, ◌≡◌, ◌≢◌, ◌⊎◌, Option, none, some, List, [], ◌∷◌, refl, sym, subst, arith,
  Bool-cases, inl, inr, ◌==◌, ℕ_eq, String_eq, is_none, ◌||◌, ◌++◌, ◌∷◌,
}
use schema_sentry.Prelude.Dict.{Dict}
use schema_sentry.Prelude.Exec.{lift, modify}
use schema_sentry.Prelude.Preserves.{
  Preserves, Returned, continue-keeps, bind-keeps, continue-Returned,
}
use schema_sentry.Prelude.Result.{Result, ok, err}
use schema_sentry.Domain.Enums.{
  AlertChannel, AlertChannel_eq, ChangeType, add_column, drop_column, type_change,
  nullability_change,
}
use schema_sentry.Domain.Models.{DatasetRef_eq}
use schema_sentry.Store.{
  Db, DataSourceRow, ExpectedColumnRow, SchemaChangeRow, Exception, find, source_not_found,
  scan_already_running, empty_schema_snapshot, lookup_error, driver_error, change_not_found,
  baseline_version_conflict, key_error, attribute_error, value_error, type_error,
}
use schema_sentry.Alerts.{
  AlertError, delivery_not_found, max_attempts_exceeded, retry_not_due, delivery_failure,
  lookup_error, index_error, unexpected_error, DeliveryResult, Notifier, attempt, attempt_all,
  dispatch_scan, list_dispatchable_for_scan,
}
use schema_sentry.Alerts.Attempts.{Ends, Broken, attempt-Ends}
use schema_sentry.Alerts.Dispatcher.{respond_retry, retry_delivery}
use schema_sentry.Changes.Accept.{
  apply_added, apply_dropped, apply_changed, write_column, apply_column, accept_change, apply,
  accept_locked, acceptance_transaction, accept, AcceptanceResult, respond_accept, post_accept,
  added_row, is_null, is_column_of, data_type_of, nullable_of, set_data_type, set_nullable,
  set_default,
}
use schema_sentry.Catalog.Sync.{}
use schema_sentry.System.Sound.{
  IsSound, update_sources-IsSound, update_changes-IsSound, update_delivery-IsSound,
  other_tables-IsSound,
}

-- ---------------------------------------------------------------- alerts

module _ {ℓ} {C M : Type ℓ} (get_scan_context : ℕ → Db → Option C) (message : C → M)
    (notifiers : Dict AlertChannel (Notifier M)) where
  Ends-IsSound :
      (id now : ℕ) (db : Db) (r : Result AlertError DeliveryResult × Db)
      → Ends get_scan_context message notifiers id now db r
      → IsSound db
      → Returned IsSound r
  unfolding Ends
  Ends-IsSound id now db (err e, db') ends h = tt
  Ends-IsSound id now db (ok r, db') ends h = subst IsSound (sym ends.written) (
      update_delivery-IsSound db h id ends.write ends.keeps_id (λ d found. (
        ground (arith, ends.counts d, ends.found, found, ends.attempts_left),
        λ waits. absurd (ends.settles d waits),
      )))

  -- An attempt that returns keeps the invariant.
  pub attempt-keeps :
      (id now : ℕ) (db : Db)
      → IsSound db
      → Returned IsSound (attempt get_scan_context message notifiers id now db)
  attempt-keeps id now db h =
      Ends-IsSound id now db _ (attempt-Ends get_scan_context message notifiers id now db) h

  attempt_all-keeps :
      (ids : List ℕ) (now : ℕ) (db : Db)
      → IsSound db
      → Returned IsSound (attempt_all get_scan_context message notifiers ids now db)
  unfolding attempt_all
  attempt_all-keeps [] now db h = h
  attempt_all-keeps (id ∷ ids) now db h =
      continue-Returned IsSound (attempt get_scan_context message notifiers id now db) _
        (attempt-keeps id now db h)
        (λ r s k.
          continue-Returned IsSound (attempt_all get_scan_context message notifiers ids now s) _
            (attempt_all-keeps ids now s k) (λ rs t l. l))

  pub dispatch_scan-keeps :
      (scan_id now : ℕ) (db : Db)
      → IsSound db
      → Returned IsSound (dispatch_scan get_scan_context message notifiers scan_id now db)
  unfolding dispatch_scan
  dispatch_scan-keeps scan_id now db h =
      attempt_all-keeps (list_dispatchable_for_scan scan_id db) now db h

  -- An error that is not what a notifier raised left the store as it was.
  unchanged-IsSound :
      (id now : ℕ) (before after : Db) (e : AlertError)
      → (after ≡ before) ⊎ Broken get_scan_context message notifiers id now before e after
      → IsSound before
      → ((name : String) → e ≢ unexpected_error name)
      → IsSound after
  unchanged-IsSound id now before after e (inl same) h other = subst IsSound (sym same) h
  unchanged-IsSound id now before after e (inr broken) h other =
      absurd (other broken.name broken.raised)

  -- The answer to a retry commits an attempt that returned, and no error that wrote.
  respond_retry-keeps :
      (id now : ℕ) (before : Db) (r : Result AlertError DeliveryResult × Db)
      → Ends get_scan_context message notifiers id now before r
      → IsSound before
      → IsSound (respond_retry before r).1
  unfolding respond_retry Ends
  respond_retry-keeps id now before (ok r, after) ends h =
      Ends-IsSound id now before (ok r, after) ends h
  respond_retry-keeps id now before (err (delivery_not_found i), after) ends h =
      unchanged-IsSound id now before after _ ends.2 h (λ name. ground arith)
  respond_retry-keeps id now before (err (max_attempts_exceeded i), after) ends h =
      unchanged-IsSound id now before after _ ends.2 h (λ name. ground arith)
  respond_retry-keeps id now before (err (retry_not_due at), after) ends h =
      unchanged-IsSound id now before after _ ends.2 h (λ name. ground arith)
  respond_retry-keeps id now before (err (delivery_failure text), after) ends h = h
  respond_retry-keeps id now before (err lookup_error, after) ends h = h
  respond_retry-keeps id now before (err index_error, after) ends h = h
  respond_retry-keeps id now before (err (unexpected_error name), after) ends h = h

  pub retry_delivery-keeps :
      (id now : ℕ) (db : Db)
      → IsSound db
      → IsSound (retry_delivery get_scan_context message notifiers id now db).1
  unfolding retry_delivery
  retry_delivery-keeps id now db h =
      respond_retry-keeps id now db _ (attempt-Ends get_scan_context message notifiers id now db) h

-- ---------------------------------------------------------------- acceptance

apply_added-keeps :
    (change : SchemaChangeRow) (expected : Option ExpectedColumnRow)
    → Preserves IsSound (apply_added change expected)
unfolding apply_added
apply_added-keeps change (some c) db h = elim (Bool-cases (is_null change.after_json)) [
  | inl e ↦ rw (e, apply_added) h
  | inr e ↦ rw (e, apply_added) h
]
apply_added-keeps change none db h = elim (Bool-cases (is_null change.after_json)) [
  | inl e ↦ rw (e, apply_added) h
  | inr e ↦
      rw (e, apply_added)
        (bind-keeps IsSound (lift (added_row change))
          (λ row. modify (λ d. record d { expected = d.expected ++ row ∷ [] })) (λ s k. k)
          (λ row s k. other_tables-IsSound s k _ s.observed s.edges) db h)
]

apply_dropped-keeps :
    (change : SchemaChangeRow) (expected : Option ExpectedColumnRow)
    → Preserves IsSound (apply_dropped change expected)
unfolding apply_dropped
apply_dropped-keeps change none db h = h
apply_dropped-keeps change (some c) db h = other_tables-IsSound db h _ db.observed db.edges

write_column-keeps : (change : SchemaChangeRow) → Preserves IsSound (write_column change)
unfolding write_column set_data_type set_nullable set_default
write_column-keeps change =
    bind-keeps IsSound (lift (data_type_of change.after_json)) _ (λ s k. k)
      (λ t s k.
        bind-keeps IsSound (lift (nullable_of change.after_json)) _ (λ u l. l)
          (λ b u l. other_tables-IsSound u l _ u.observed u.edges) (set_data_type change t s)
          (other_tables-IsSound s k _ s.observed s.edges))

apply_changed-keeps :
    (change : SchemaChangeRow) (expected : Option ExpectedColumnRow)
    → Preserves IsSound (apply_changed change expected)
unfolding apply_changed
apply_changed-keeps change expected db h =
    elim (Bool-cases (is_none expected || is_null change.after_json)) [
      | inl e ↦ rw (e, apply_changed) h
      | inr e ↦ rw (e, apply_changed) (write_column-keeps change db h)
    ]

apply_column-keeps :
    (change : SchemaChangeRow) (expected : Option ExpectedColumnRow) (t : ChangeType)
    → Preserves IsSound (apply_column change expected t)
unfolding apply_column
apply_column-keeps change expected add_column = apply_added-keeps change expected
apply_column-keeps change expected drop_column = apply_dropped-keeps change expected
apply_column-keeps change expected type_change = apply_changed-keeps change expected
apply_column-keeps change expected nullability_change = apply_changed-keeps change expected

apply-keeps :
    (source : DataSourceRow) (change : SchemaChangeRow) (now : ℕ)
    → Preserves IsSound (apply source change now)
unfolding apply accept_change
apply-keeps source change now db h =
    let expected = find (is_column_of change) db.expected in
    continue-keeps IsSound (apply_column change expected change.change_type db) _
      (apply_column-keeps change expected change.change_type db h)
      (λ _ s k.
        let moved =
          update_sources-IsSound s k (λ x. x.id == source.id)
            (λ x. record x { baseline_version = suc x.baseline_version }) (λ x. refl) in
        update_changes-IsSound _ moved _ _ (λ c. refl))

accept_locked-keeps :
    (id expected now : ℕ) (locked : Option (DataSourceRow × SchemaChangeRow))
    → Preserves IsSound (accept_locked id expected now locked)
unfolding accept_locked
accept_locked-keeps id expected now none db h = h
accept_locked-keeps id expected now (some (source, change)) db h =
    elim (Bool-cases (source.baseline_version == expected)) [
      | inl e ↦
          rw (e, accept_locked)
            (continue-keeps IsSound (apply source change now db) _
              (apply-keeps source change now db h) (λ _ s k. k))
      | inr e ↦ rw (e, accept_locked) h
    ]

pub accept-keeps : (id expected now : ℕ) → Preserves IsSound (accept id expected now)
unfolding accept
accept-keeps id expected now db h =
    accept_locked-keeps id expected now (acceptance_transaction id db) db h

respond_accept-keeps :
    (before : Db) (r : Result Exception AcceptanceResult × Db)
    → IsSound before
    → IsSound r.1
    → IsSound (respond_accept before r).1
unfolding respond_accept
respond_accept-keeps before (ok result, after) b a = a
respond_accept-keeps before (err (baseline_version_conflict e k), after) b a = a
respond_accept-keeps before (err (change_not_found id), after) b a = a
respond_accept-keeps before (err (source_not_found key), after) b a = b
respond_accept-keeps before (err (scan_already_running key), after) b a = b
respond_accept-keeps before (err (empty_schema_snapshot key), after) b a = b
respond_accept-keeps before (err lookup_error, after) b a = b
respond_accept-keeps before (err key_error, after) b a = b
respond_accept-keeps before (err attribute_error, after) b a = b
respond_accept-keeps before (err value_error, after) b a = b
respond_accept-keeps before (err type_error, after) b a = b
respond_accept-keeps before (err (driver_error name), after) b a = b

pub post_accept-keeps :
    (id expected now : ℕ) (db : Db) → IsSound db → IsSound (post_accept id expected now db).1
unfolding post_accept
post_accept-keeps id expected now db h =
    respond_accept-keeps db (accept id expected now db) h (accept-keeps id expected now db h)
