-- ===== src/Scan/Outcome.antt =====
-- The outcome of `complete_drift_scan` as a whole.

use schema_sentry.Prelude.{
  ℕ, String, Bool, true, false, some, List, [], ◌∷◌, map, Memᴰ, ◌≡◌, ◌↔◌, inr, refl, subst, ◌==◌,
  ℕ_eq, String_eq,
}
use schema_sentry.Prelude.Dict
use schema_sentry.Prelude.Dict.{Dict, index_by}
use schema_sentry.Prelude.Json.{Json}
use schema_sentry.Prelude.Result.{ok}
use schema_sentry.Domain.Enums.{AlertChannel}
use schema_sentry.Domain.Models.{DatasetRef_eq, SchemaChange, ColumnDefinition}
use schema_sentry.Store.{Db, DataSourceRow, DatasetRow, ScanRunRow, find}
use schema_sentry.Scan.Drift.{UniqueOpen, IsOpen, opened, IsOpen-exact}
use schema_sentry.Scan.Reading.{get_source, get_scan, datasets_by_ref}
use schema_sentry.Scan.Recording.{
  recorded, record_changes-total, record_changes-Recorded, Recorded, RecordedBy,
}
use schema_sentry.Scan.Writing.{
  change_fingerprint, resolve_missing, complete_drift_scan, persist_observations, complete_scan,
  finish_drift, create_pending_deliveries,
}

create_pending_deliveries-changes :
    (channels : List AlertChannel) (scan : ScanRunRow) (db : Db)
    → (create_pending_deliveries channels scan db).changes ≡ db.changes
unfolding create_pending_deliveries
create_pending_deliveries-changes [] scan db = refl
create_pending_deliveries-changes (c ∷ cs) scan db = create_pending_deliveries-changes cs scan _

module _ (digest : Json → String) (channels : List AlertChannel) (scan_id : ℕ) (key : String)
    (observed : List ColumnDefinition) (changes : List SchemaChange) (now : ℕ) (db : Db)
    (source : DataSourceRow) (scan : ScanRunRow)
    (has_source : find (λ s. s.key == key) db.sources ≡ some source)
    (has_scan : find (λ s. s.id == scan_id) db.scans ≡ some scan) where
  abbrev persisted : Db
  persisted = persist_observations scan observed db

  -- the store after the loop over the changes
  finish : Bool → Db → Db
  finish alert d =
      (finish_drift channels scan
        (opened digest scan source (datasets_by_ref source.id db) key changes now persisted d)
        (map (change_fingerprint digest key) changes) now alert d).1

  complete_drift_scan-eq :
      (alert : Bool) (d : Db)
      → recorded digest scan source
          (datasets_by_ref source.id db)
          (opened digest scan source (datasets_by_ref source.id db) key changes now persisted d)
          key
          changes
          false
          persisted
        ≡ (ok alert, d)
      → complete_drift_scan digest channels scan_id key observed changes now db
        ≡ (ok tt, finish alert d)
  unfolding complete_drift_scan get_source get_scan persist_observations finish finish_drift
  complete_drift_scan-eq alert d h = rw (has_source, has_scan, h) refl

  finish-changes :
      (alert : Bool) (d : Db)
      → (finish alert d).changes
        ≡ resolve_missing
            (opened digest scan source (datasets_by_ref source.id db) key changes now persisted d)
            (map (change_fingerprint digest key) changes)
            now
            d.changes
  unfolding finish finish_drift complete_scan
  finish-changes true d = create_pending_deliveries-changes channels scan _
  finish-changes false d = refl

  recorded_of :
      (alert : Bool) (d : Db)
      → recorded digest scan source
          (datasets_by_ref source.id db)
          (opened digest scan source (datasets_by_ref source.id db) key changes now persisted d)
          key
          changes
          false
          persisted
        ≡ (ok alert, d)
      → Recorded digest scan source
          (datasets_by_ref source.id db)
          (opened digest scan source (datasets_by_ref source.id db) key changes now persisted d)
          key
          changes
          persisted
          d
  unfolding RecordedBy
  recorded_of alert d h =
      subst
        (RecordedBy digest scan source (datasets_by_ref source.id db)
          (opened digest scan source (datasets_by_ref source.id db) key changes now persisted d) key
          changes persisted)
        h
        (record_changes-Recorded digest scan source (datasets_by_ref source.id db)
          (opened digest scan source (datasets_by_ref source.id db) key changes now persisted d) key
          changes false persisted)

  -- If each change has a registered dataset and open changes of the source are unique by fingerprint, the
  -- write of a drift scan returns, and then the source's open fingerprints are those of the scan's changes.
  pub complete_drift_scan_exact :
      UniqueOpen source.id db.changes
      → ((c : SchemaChange)
          → Memᴰ c changes
          → (d : DatasetRow) × (Dict.get c.dataset (datasets_by_ref source.id db) ≡ some d))
      → (db' : Db) × (complete_drift_scan digest channels scan_id key observed changes now db
          ≡ (ok tt, db'))
        × ((fingerprint : String)
            → IsOpen source.id fingerprint db'.changes
              ↔ Memᴰ fingerprint (map (change_fingerprint digest key) changes))
  unfolding persist_observations
  complete_drift_scan_exact unique registered =
      let (alert, d, ends) =
        record_changes-total digest scan source (datasets_by_ref source.id db)
          (opened digest scan source (datasets_by_ref source.id db) key changes now persisted db)
          key changes (λ c m. inr (registered c m)) false persisted in
      (
        finish alert d,
        complete_drift_scan-eq alert d ends,
        λ fingerprint. rw (finish-changes alert d) (
            IsOpen-exact digest scan source (datasets_by_ref source.id db) key changes now persisted
              d (recorded_of alert d ends) unique fingerprint),
      )
