-- ===== src/Scan/Unregistered.antt =====
-- A drift scan that finds a new change in a dataset that the baseline does not have.
use mathlib.Core.List.Memᴰ
use schema_sentry.Prelude.{
  ℕ, String, Bool, false, none, some, List, [], ◌∷◌, filter, Memᴰ, ◌≡◌, inl, inr, refl, subst,
  arith, ◌==◌, ℕ_eq, String_eq, ◌||◌, is_some, Bool-cases, Option-cases,
}
use schema_sentry.Prelude.Dict
use schema_sentry.Prelude.Dict.{Dict, index_by}
use schema_sentry.Prelude.Exec.{continue}
use schema_sentry.Prelude.Json.{Json}
use schema_sentry.Prelude.Result.{Result, ok, err}
use schema_sentry.Domain.Enums.{AlertChannel}
use schema_sentry.Domain.Models.{DatasetRef, DatasetRef_eq, ColumnDefinition, SchemaChange}
use schema_sentry.Store.{
  Db, DataSourceRow, DatasetRow, ScanRunRow, SchemaChangeRow, lookup_error, find,
}
use schema_sentry.Scan.Reading.{datasets_by_ref, get_source, get_scan, or_raise}
use schema_sentry.Scan.Writing.{
  change_fingerprint, add_change, alertable, is_open_of, record_changes, persist_observations,
  complete_drift_scan,
}

module _ (digest : Json → String) (scan : ScanRunRow) (source : DataSourceRow)
    (datasets : Dict DatasetRef DatasetRow) (opened : Dict String SchemaChangeRow) (key : String)
    (c : SchemaChange)
    (is_new : is_some (Dict.get (change_fingerprint digest key c) opened) ≡ false)
    (unregistered : Dict.get c.dataset datasets ≡ none) where
  -- The loop raises at that change, if not before.
  record_changes-unregistered :
      (cs : List SchemaChange) (alert : Bool) (db : Db)
      → Memᴰ c cs
      → (record_changes digest scan source datasets opened key cs alert db).0 ≡ err lookup_error
  unfolding record_changes
  record_changes-unregistered [] alert db m = absurd (Memᴰ.not-nil m)
  record_changes-unregistered (x ∷ xs) alert db (Memᴰ.head same) =
      let known : is_some (Dict.get (change_fingerprint digest key x) opened) ≡ false =
        subst (λ y. is_some (Dict.get (change_fingerprint digest key y) opened) ≡ false) same
          is_new in
      let absent : Dict.get x.dataset datasets ≡ none =
        subst (λ y. Dict.get y.dataset datasets ≡ none) same unregistered in
      rw (known, absent, record_changes) refl
  record_changes-unregistered (x ∷ xs) alert db (Memᴰ.tail m) =
      elim (Bool-cases (is_some (Dict.get (change_fingerprint digest key x) opened))) [
        | inl known ↦ rw (known, record_changes) (record_changes-unregistered xs alert db m)
        | inr fresh ↦ elim (Option-cases (Dict.get x.dataset datasets)) [
          | inl missing ↦ rw (fresh, missing, record_changes) refl
          | inr (d, found) ↦
              rw (fresh, found, record_changes)
                (record_changes-unregistered xs (alert || alertable x.severity)
                  (add_change digest scan source d (change_fingerprint digest key x) x db) m)
        ]
      ]

continue-raised :
    {A B E S : Type 0} (r : Result E A × S) (f : A → S → Result E B × S) (e : E)
    → r.0 ≡ err e
    → (continue r f).0 ≡ err e
continue-raised (ok a, s) f e h = absurd (ground (arith, h))
continue-raised (err k, s) f e h = ground (arith, h)

-- A drift scan of a registered source raises `LookupError` if one of its changes is new and lies in a dataset
-- that the source does not have, as the columns of a new table do.
pub complete_drift_scan-unregistered :
    (digest : Json → String) (channels : List AlertChannel) (scan_id : ℕ) (key : String)
    (observed : List ColumnDefinition) (changes : List SchemaChange) (now : ℕ) (db : Db)
    (source : DataSourceRow) (scan : ScanRunRow) (c : SchemaChange)
    → find (λ s. s.key == key) db.sources ≡ some source
    → find (λ s. s.id == scan_id) db.scans ≡ some scan
    → Memᴰ c changes
    → is_some (
        Dict.get
          (change_fingerprint digest key c)
          (index_by (λ r. r.fingerprint) (filter (is_open_of source.id) db.changes)))
      ≡ false
    → Dict.get c.dataset (datasets_by_ref source.id db) ≡ none
    → (complete_drift_scan digest channels scan_id key observed changes now db).0 ≡ err lookup_error
unfolding complete_drift_scan get_source get_scan or_raise persist_observations
complete_drift_scan-unregistered digest channels scan_id key observed changes now db source scan c
      has_source has_scan m is_new unregistered =
    rw (has_source, has_scan)
      (continue-raised
        (record_changes digest scan source (datasets_by_ref source.id db)
          (index_by (λ r. r.fingerprint) (filter (is_open_of source.id) db.changes)) key changes
          false (persist_observations scan observed db))
        _ lookup_error
        (record_changes-unregistered digest scan source (datasets_by_ref source.id db)
          (index_by (λ r. r.fingerprint) (filter (is_open_of source.id) db.changes)) key c is_new
          unregistered changes false (persist_observations scan observed db) m))
