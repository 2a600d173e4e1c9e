-- ===== src/Scan/Recording.antt =====
-- The loop of `complete_drift_scan` over the changes of a scan.
use mathlib.Core.List.Memᴰ
use mathlib.Core.Logic.{⊎_elim}
use schema_sentry.Prelude.{
  String, Bool, true, false, none, some, List, [], ◌∷◌, ◌++◌, map, Memᴰ, ◌≡◌, ◌⊎◌, inl, inr, refl,
  sym, ap, ◌∙◌, subst, arith, ◌||◌, ℕ_eq, String_eq, is_some, Bool-cases, Option-cases, Memᴰ-cons,
  append-nil, append_assoc,
}
use schema_sentry.Prelude.Dict
use schema_sentry.Prelude.Dict.{
  Dict, index_by, latest, latest_of_mem, get-index_by, key_of_latest, mem_of_latest,
}
use schema_sentry.Prelude.Json.{Json}
use schema_sentry.Prelude.Result.{Result, ok, err}
use schema_sentry.Domain.Enums.{open_state, ChangeState_eq}
use schema_sentry.Domain.Models.{DatasetRef, DatasetRef_eq, SchemaChange}
use schema_sentry.Store.{
  Db, Exception, lookup_error, DataSourceRow, DatasetRow, ScanRunRow, SchemaChangeRow,
}
use schema_sentry.Scan.Writing.{
  change_fingerprint, change_row, add_change, alertable, record_changes,
}

module _ (digest : Json → String) (scan : ScanRunRow) (source : DataSourceRow)
    (datasets : Dict DatasetRef DatasetRow) (opened : Dict String SchemaChangeRow)
    (key : String) where
  -- What the loop over the changes adds: open rows of the source for the fingerprints that were not open.
  pub record Recorded (changes : List SchemaChange) (db : Db) (db' : Db) : Type 0 where
    pub rows : List SchemaChangeRow
    pub appended : db'.changes ≡ db.changes ++ rows
    pub are_open :
        (r : SchemaChangeRow) → Memᴰ r rows → (r.state ≡ open_state) × (r.source_id ≡ source.id)
    pub are_new :
        (r : SchemaChangeRow)
        → Memᴰ r rows
        → Memᴰ r.fingerprint (map (change_fingerprint digest key) changes)
          × (is_some (Dict.get r.fingerprint opened) ≡ false)
    pub covers :
        (c : SchemaChange)
        → Memᴰ c changes
        → is_some (Dict.get (change_fingerprint digest key c) opened) ≡ false
        → (r : SchemaChangeRow) × Memᴰ r rows × (r.fingerprint ≡ change_fingerprint digest key c)

  unfoldable pub RecordedBy : List SchemaChange → Db → Result Exception Bool × Db → Type 0
  RecordedBy changes db (ok alert, db') = Recorded changes db db'
  RecordedBy changes db (err e, db') = Unit {0}

  after_skip :
      (c : SchemaChange) (cs : List SchemaChange) (db db' : Db)
      → is_some (Dict.get (change_fingerprint digest key c) opened) ≡ true
      → Recorded cs db db'
      → Recorded (c ∷ cs) db db'
  after_skip c cs db db' known h = record {
    rows = h.rows;
    appended = h.appended;
    are_open = h.are_open;
    are_new = λ r m. (Memᴰ.tail (h.are_new r m).0, (h.are_new r m).1);
    covers = λ a m unknown.
        ⊎_elim (λ same. absurd (clash a same unknown)) (λ later. h.covers a later unknown)
          ((Memᴰ-cons a c cs).0 m);
  }
    where
      clash :
          (a : SchemaChange)
          → a ≡ c
          → is_some (Dict.get (change_fingerprint digest key a) opened) ≡ false
          → ⊥
      clash a same unknown =
          let open_now =
            subst (λ x. is_some (Dict.get (change_fingerprint digest key x) opened) ≡ true)
              (sym same) known in
          ground (arith, open_now)

  abbrev added : SchemaChange → DatasetRow → Db → SchemaChangeRow
  added c d db = change_row digest db.next_id scan source d (change_fingerprint digest key c) c

  after_add :
      (c : SchemaChange) (cs : List SchemaChange) (d : DatasetRow) (db db' : Db)
      → is_some (Dict.get (change_fingerprint digest key c) opened) ≡ false
      → Recorded cs (add_change digest scan source d (change_fingerprint digest key c) c db) db'
      → Recorded (c ∷ cs) db db'
  unfolding add_change change_row
  after_add c cs d db db' unknown h = record {
    rows = added c d db ∷ h.rows;
    appended = h.appended ∙ append_assoc db.changes (added c d db ∷ []) h.rows;
    are_open = λ r m.
        ⊎_elim (λ same. rw same (refl, refl)) (h.are_open r)
          ((Memᴰ-cons r (added c d db) h.rows).0 m);
    are_new = λ r m.
        ⊎_elim (λ same. rw same (Memᴰ.head refl, unknown))
          (λ later. (Memᴰ.tail (h.are_new r later).0, (h.are_new r later).1))
          ((Memᴰ-cons r (added c d db) h.rows).0 m);
    covers = λ a m absent.
        ⊎_elim
          (λ same. (added c d db, Memᴰ.head refl, ap (change_fingerprint digest key) (sym same)))
          (λ later. let (r, n, is) = h.covers a later absent in (r, Memᴰ.tail n, is))
          ((Memᴰ-cons a c cs).0 m);
  }

  skip :
      (c : SchemaChange) (cs : List SchemaChange) (db : Db)
      → is_some (Dict.get (change_fingerprint digest key c) opened) ≡ true
      → (r : Result Exception Bool × Db) → RecordedBy cs db r
      → RecordedBy (c ∷ cs) db r
  unfolding RecordedBy
  skip c cs db known (ok alert, db') h = after_skip c cs db db' known h
  skip c cs db known (err e, db') h = tt

  add :
      (c : SchemaChange) (cs : List SchemaChange) (d : DatasetRow) (db : Db)
      → is_some (Dict.get (change_fingerprint digest key c) opened) ≡ false
      → (r : Result Exception Bool × Db)
      → RecordedBy cs (add_change digest scan source d (change_fingerprint digest key c) c db) r
      → RecordedBy (c ∷ cs) db r
  unfolding RecordedBy
  add c cs d db unknown (ok alert, db') h = after_add c cs d db db' unknown h
  add c cs d db unknown (err e, db') h = tt

  abbrev pub recorded : List SchemaChange → Bool → Db → Result Exception Bool × Db
  recorded changes alert db = record_changes digest scan source datasets opened key changes alert db

  module _ (c : SchemaChange) (cs : List SchemaChange) (alert : Bool) (db : Db) where
    pub skip-eq :
        is_some (Dict.get (change_fingerprint digest key c) opened) ≡ true
        → recorded (c ∷ cs) alert db ≡ recorded cs alert db
    unfolding record_changes
    skip-eq known = rw (known, record_changes) refl

    missing-eq :
        is_some (Dict.get (change_fingerprint digest key c) opened) ≡ false
        → Dict.get c.dataset datasets ≡ none
        → recorded (c ∷ cs) alert db ≡ (err lookup_error, db)
    unfolding record_changes
    missing-eq unknown missing = rw (unknown, missing, record_changes) refl

    add-eq :
        (d : DatasetRow)
        → is_some (Dict.get (change_fingerprint digest key c) opened) ≡ false
        → Dict.get c.dataset datasets ≡ some d
        → recorded (c ∷ cs) alert db
          ≡ recorded cs
              (alert || alertable c.severity)
              (add_change digest scan source d (change_fingerprint digest key c) c db)
    unfolding record_changes
    add-eq d unknown found = rw (unknown, found, record_changes) refl

  pub record_changes-Recorded :
      (changes : List SchemaChange) (alert : Bool) (db : Db)
      → RecordedBy changes db
          (record_changes digest scan source datasets opened key changes alert db)
  unfolding record_changes RecordedBy
  record_changes-Recorded [] alert db = record {
    rows = [];
    appended = sym (append-nil db.changes);
    are_open = λ r m. absurd (Memᴰ.not-nil m);
    are_new = λ r m. absurd (Memᴰ.not-nil m);
    covers = λ c m. absurd (Memᴰ.not-nil m);
  }
  record_changes-Recorded (c ∷ cs) alert db =
      elim (Bool-cases (is_some (Dict.get (change_fingerprint digest key c) opened))) [
        | inl known ↦
            subst (RecordedBy (c ∷ cs) db) (sym (skip-eq c cs alert db known))
              (skip c cs db known _ (record_changes-Recorded cs alert db))
        | inr unknown ↦ elim (Option-cases (Dict.get c.dataset datasets)) [
          | inl missing ↦
              subst (RecordedBy (c ∷ cs) db) (sym (missing-eq c cs alert db unknown missing)) tt
          | inr (d, found) ↦
              subst (RecordedBy (c ∷ cs) db) (sym (add-eq c cs alert db d unknown found)) (
                add c cs d db unknown _ (
                  record_changes-Recorded cs (alert || alertable c.severity)
                    (add_change digest scan source d (change_fingerprint digest key c) c db)))
        ]
      ]

  -- The loop ends when each change is open already or in a registered dataset.
  pub record_changes-total :
      (changes : List SchemaChange)
      → ((c : SchemaChange)
          → Memᴰ c changes
          → (is_some (Dict.get (change_fingerprint digest key c) opened) ≡ true)
            ⊎ ((d : DatasetRow) × (Dict.get c.dataset datasets ≡ some d)))
      → (alert : Bool) (db : Db)
      → (a : Bool) × (db' : Db) × (recorded changes alert db ≡ (ok a, db'))
  unfolding record_changes
  record_changes-total [] known alert db = (alert, db, refl)
  record_changes-total (c ∷ cs) known alert db =
      elim (Bool-cases (is_some (Dict.get (change_fingerprint digest key c) opened))) [
        | inl yes' ↦
            let (a, db', h) = record_changes-total cs (λ c m. known c (Memᴰ.tail m)) alert db in
            (a, db', skip-eq c cs alert db yes' ∙ h)
        | inr unknown ↦
            let (d, found) =
              ⊎_elim (λ h. absurd (ground (arith, h))) (λ h. h) (known c (Memᴰ.head refl)) in
            let (a, db', h) =
              record_changes-total cs (λ c m. known c (Memᴰ.tail m)) (alert || alertable c.severity)
                (add_change digest scan source d (change_fingerprint digest key c) c db) in
            (a, db', add-eq c cs alert db d unknown found ∙ h)
      ]
