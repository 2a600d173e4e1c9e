-- ===== src/Scan/Again.antt =====
-- A drift scan that finds what is open already.

use schema_sentry.Prelude.{
  ℕ, String, Bool, true, false, not, none, some, List, [], ◌∷◌, map, Memᴰ, ◌≡◌, ◌↔◌, inl, inr, refl,
  ap, ◌∙◌, subst, arith, ◌==◌, ◌&&◌, ℕ_eq, String_eq, is_some, contains, contains_iff, Option-cases,
  mem-map_of_mem,
}
use schema_sentry.Prelude.Dict
use schema_sentry.Prelude.Dict.{Dict, index_by}
use schema_sentry.Prelude.Json.{Json}
use schema_sentry.Prelude.Result.{ok}
use schema_sentry.Domain.Enums.{AlertChannel, ChangeState_eq}
use schema_sentry.Domain.Models.{DatasetRef, DatasetRef_eq, SchemaChange, ColumnDefinition}
use schema_sentry.Store.{Db, DataSourceRow, DatasetRow, ScanRunRow, SchemaChangeRow, find, update}
use schema_sentry.Scan.Drift.{IsOpen, opened, opened-some, opened-mem, Memᴰ-before}
use schema_sentry.Scan.Reading.{get_source, get_scan, datasets_by_ref}
use schema_sentry.Scan.Recording.{recorded, skip-eq}
use schema_sentry.Scan.Writing.{
  change_fingerprint, complete_drift_scan, complete_scan, finish_drift, persist_observations,
  record_changes, resolve_missing,
}

update_none {ℓ} :
    {A : Type ℓ} (p : A → Bool) (f : A → A) (xs : List A)
    → ((x : A) → p x ≡ false)
    → update p f xs ≡ xs
update_none p f [] h = refl
update_none p f (x ∷ xs) h = rw (h x) (ap (λ ys. x ∷ ys) (update_none p f xs h))

module _ (digest : Json → String) (scan : ScanRunRow) (source : DataSourceRow)
    (datasets : Dict DatasetRef DatasetRow) (opened : Dict String SchemaChangeRow)
    (key : String) where
  -- The loop skips changes that are open.
  recorded_open :
      (changes : List SchemaChange) (alert : Bool) (db : Db)
      → ((c : SchemaChange)
          → Memᴰ c changes
          → is_some (Dict.get (change_fingerprint digest key c) opened) ≡ true)
      → recorded digest scan source datasets opened key changes alert db ≡ (ok alert, db)
  unfolding record_changes
  recorded_open [] alert db h = refl
  recorded_open (c ∷ cs) alert db h =
      skip-eq digest scan source datasets opened key c cs alert db (h c (Memᴰ.head refl))
      ∙ recorded_open cs alert db (λ a m. h a (Memᴰ.tail m))

module _ (digest : Json → String) (channels : List AlertChannel) (scan_id : ℕ) (key : String)
    (observed : List ColumnDefinition) (changes : List SchemaChange) (now : ℕ) (db : Db)
    (source : DataSourceRow) (scan : ScanRunRow) where
  abbrev open_now : Dict String SchemaChangeRow
  open_now = opened digest scan source (datasets_by_ref source.id db) key changes now db db

  abbrev found : List String
  found = map (change_fingerprint digest key) changes

  -- The source's open fingerprints are those of the changes.
  abbrev pub IsCurrent : Type 0
  IsCurrent =
      (fingerprint : String) → IsOpen source.id fingerprint db.changes ↔ Memᴰ fingerprint found

  open_of_change :
      IsCurrent
      → (c : SchemaChange) → Memᴰ c changes
      → is_some (Dict.get (change_fingerprint digest key c) open_now) ≡ true
  open_of_change current c m =
      let h =
        (current (change_fingerprint digest key c)).1
          (mem-map_of_mem (change_fingerprint digest key) changes m) in
      subst (λ f. is_some (Dict.get f open_now) ≡ true) h.named
        (opened-mem digest scan source (datasets_by_ref source.id db) key changes now db db h.row (
          (Memᴰ-before digest scan source (datasets_by_ref source.id db) key changes now db db
              h.row).1
            (h.stored, h.of_source, h.is_open)))

  -- No open row is missing from the changes.
  found_of_open :
      IsCurrent
      → (f : String) (o : SchemaChangeRow) → Dict.get f open_now ≡ some o
      → contains f found ≡ true
  found_of_open current f o h =
      let (m, same) =
        opened-some digest scan source (datasets_by_ref source.id db) key changes now db db f o h in
      let (stored, of_source, is_open) =
        (Memᴰ-before digest scan source (datasets_by_ref source.id db) key changes now db db o).0
          m in
      (contains_iff f found).1 (
        (current f).0 (record {
          row = o;
          stored = stored;
          of_source = of_source;
          is_open = is_open;
          named = same;
        }))

  resolve_none : IsCurrent → resolve_missing open_now found now db.changes ≡ db.changes
  unfolding resolve_missing
  resolve_none current = update_none _ _ db.changes stays
    where
      stays :
          (r : SchemaChangeRow)
          → elim (Dict.get r.fingerprint open_now) [
            | none ↦ false
            | some o ↦ o.id == r.id && not (contains r.fingerprint found)
          ]
            ≡ false
      stays r = elim (Option-cases (Dict.get r.fingerprint open_now)) [
        | inl missing ↦ rw missing refl
        | inr (o, h) ↦ rw h (ground (arith, found_of_open current r.fingerprint o h))
      ]

  -- Where the open fingerprints of the source are those of the changes, a drift scan stores what it observed
  -- and its own end, and nothing else: no change, no resolution and no alert.
  pub complete_drift_scan_again :
      find (λ s. s.key == key) db.sources ≡ some source
      → find (λ s. s.id == scan_id) db.scans ≡ some scan
      → IsCurrent
      → complete_drift_scan digest channels scan_id key observed changes now db
        ≡ (ok tt, complete_scan scan now (persist_observations scan observed db))
  unfolding complete_drift_scan get_source get_scan persist_observations finish_drift complete_scan
  complete_drift_scan_again has_source has_scan current =
      rw
        (
          has_source,
          has_scan,
          recorded_open digest scan source (datasets_by_ref source.id db) open_now key changes false
              (persist_observations scan observed db) (open_of_change current),
          resolve_none current,
        )
        refl
