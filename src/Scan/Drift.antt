-- ===== src/Scan/Drift.antt =====
-- The open changes after `complete_drift_scan`.

use mathlib.Core.Logic.{⊎_elim}
use schema_sentry.Prelude.{
  ℕ, String, Bool, true, false, not, none, some, List, [], ◌∷◌, map, filter, Memᴰ, ◌≡◌, ◌↔◌, ◌⊎◌,
  inl, inr, refl, sym, ap, ◌∙◌, subst, arith, ◌==◌, ◌&&◌, ℕ_eq, String_eq, is_some, contains,
  contains_iff, if◌then◌else◌, Bool-cases, Option-cases, Memᴰ-append, Memᴰ-filter, mem-map_of_mem,
  mem_of_mem-map,
}
use schema_sentry.Prelude.Dict
use schema_sentry.Prelude.Dict.{
  Dict, index_by, latest, latest_of_mem, get-index_by, key_of_latest, mem_of_latest,
}
use schema_sentry.Prelude.Json.{Json}
use schema_sentry.Domain.Enums.{open_state, resolved, ChangeState_eq}
use schema_sentry.Domain.Models.{DatasetRef, DatasetRef_eq, SchemaChange}
use schema_sentry.Store.{Db, DataSourceRow, DatasetRow, ScanRunRow, SchemaChangeRow, update}
use schema_sentry.Scan.Recording.{Recorded}
use schema_sentry.Scan.Writing.{change_fingerprint, is_open_of, resolve_missing}

-- An update maps the rows.
update-map {ℓ} :
    {A : Type ℓ} (p : A → Bool) (f : A → A) (xs : List A)
    → update p f xs ≡ map (λ x. if p x then f x else x) xs
update-map p f [] = refl
update-map p f (x ∷ xs) = ap (λ ys. (if p x then f x else x) ∷ ys) (update-map p f xs)

-- an open change of the source, with the fingerprint
pub record IsOpen (source_id : ℕ) (fingerprint : String) (changes : List SchemaChangeRow)
    : Type 0 where
  pub row : SchemaChangeRow
  pub stored : Memᴰ row changes
  pub of_source : row.source_id ≡ source_id
  pub is_open : row.state ≡ open_state
  pub named : row.fingerprint ≡ fingerprint

-- `uq_schema_changes_open_fingerprint`
abbrev pub UniqueOpen : ℕ → List SchemaChangeRow → Type 0
UniqueOpen source_id changes =
    (a b : SchemaChangeRow)
    → Memᴰ a (filter (is_open_of source_id) changes)
    → Memᴰ b (filter (is_open_of source_id) changes)
    → a.fingerprint ≡ b.fingerprint
    → a.id ≡ b.id

module _ (digest : Json → String) (scan : ScanRunRow) (source : DataSourceRow)
    (datasets : Dict DatasetRef DatasetRow) (key : String) (changes : List SchemaChange) (now : ℕ)
    (db db' : Db) where
  abbrev pub before : List SchemaChangeRow
  before = filter (is_open_of source.id) db.changes

  abbrev pub opened : Dict String SchemaChangeRow
  opened = index_by (λ r. r.fingerprint) before

  abbrev pub active : List String
  active = map (change_fingerprint digest key) changes

  -- the test of the loop that resolves
  abbrev gone : SchemaChangeRow → Bool
  gone r = elim (Dict.get r.fingerprint opened) [
    | none ↦ false
    | some o ↦ o.id == r.id && not (contains r.fingerprint active)
  ]

  pub Memᴰ-before :
      (r : SchemaChangeRow)
      → Memᴰ r before ↔ (Memᴰ r db.changes × (r.source_id ≡ source.id) × (r.state ≡ open_state))
  Memᴰ-before r = ground (
    arith,
    Memᴰ-filter (is_open_of source.id) r db.changes,
    ℕ_eq.test_iff r.source_id source.id,
    ChangeState_eq.test_iff r.state open_state,
  )

  -- A fingerprint that was open has its row.
  pub opened-some :
      (fingerprint : String) (o : SchemaChangeRow)
      → Dict.get fingerprint opened ≡ some o
      → Memᴰ o before × (o.fingerprint ≡ fingerprint)
  opened-some fingerprint o h =
      let found = sym (get-index_by (λ r. r.fingerprint) fingerprint before) ∙ h in
      (
        mem_of_latest (λ r. r.fingerprint) fingerprint before found,
        key_of_latest (λ r. r.fingerprint) fingerprint before found,
      )

  pub opened-mem :
      (r : SchemaChangeRow) → Memᴰ r before → is_some (Dict.get r.fingerprint opened) ≡ true
  opened-mem r m =
      subst (λ o. is_some o ≡ true) (sym (get-index_by (λ r. r.fingerprint) r.fingerprint before))
        (latest_of_mem (λ r. r.fingerprint) r before m)

  -- Of the rows that were open, those stay whose fingerprint is active.
  gone_iff :
      UniqueOpen source.id db.changes
      → (r : SchemaChangeRow) → Memᴰ r before
      → (gone r ≡ false) ↔ Memᴰ r.fingerprint active
  gone_iff unique r m = elim (Option-cases (Dict.get r.fingerprint opened)) [
    | inl missing ↦ absurd (ground (arith, opened-mem r m))
    | inr (o, found) ↦
        let (n, same) = opened-some r.fingerprint o found in
        rw (found, gone)
          (ground (
            arith,
            unique o r n m same,
            ℕ_eq.test_iff o.id r.id,
            contains_iff r.fingerprint active,
          ))
  ]

  abbrev close : SchemaChangeRow → SchemaChangeRow
  close r = record r { state = resolved; resolved_at = some now }

  abbrev settle : SchemaChangeRow → SchemaChangeRow
  settle r = if gone r then close r else r

  resolve_missing-map :
      (rows : List SchemaChangeRow) → resolve_missing opened active now rows ≡ map settle rows
  unfolding resolve_missing
  resolve_missing-map rows = update-map gone close rows

  -- An open row after the loop was one before it, and stayed.
  settle_open :
      (r : SchemaChangeRow) → (settle r).state ≡ open_state → (gone r ≡ false) × (settle r ≡ r)
  settle_open r h = elim (Bool-cases (gone r)) [
    | inl hit ↦ absurd (ground (arith, rw (hit, settle) at h))
    | inr miss ↦ (miss, rw (miss, settle) refl)
  ]

  module _ (recorded : Recorded digest scan source datasets opened key changes db db') where
    -- An added row is not resolved.
    added-stays : (r : SchemaChangeRow) → Memᴰ r recorded.rows → settle r ≡ r
    added-stays r m = elim (Option-cases (Dict.get r.fingerprint opened)) [
      | inl missing ↦ rw (missing, settle, gone) refl
      | inr (o, found) ↦ absurd (ground (arith, (recorded.are_new r m).1, ap is_some found))
    ]

    Memᴰ-changes :
        (r : SchemaChangeRow) → Memᴰ r db'.changes ↔ (Memᴰ r db.changes ⊎ Memᴰ r recorded.rows)
    Memᴰ-changes r = rw recorded.appended (Memᴰ-append r db.changes recorded.rows)

    settled-mem :
        (r : SchemaChangeRow) → Memᴰ r db'.changes → settle r ≡ r → Memᴰ r (map settle db'.changes)
    settled-mem r m same =
        subst (λ x. Memᴰ x (map settle db'.changes)) same (mem-map_of_mem settle db'.changes m)

    active_of_open :
        UniqueOpen source.id db.changes
        → (r : SchemaChangeRow) → Memᴰ r db'.changes
        → gone r ≡ false
        → r.source_id ≡ source.id
        → r.state ≡ open_state
        → Memᴰ r.fingerprint active
    active_of_open unique r m stays of_source is_open =
        ⊎_elim
          (λ n. let b = (Memᴰ-before r).1 (n, of_source, is_open) in (gone_iff unique r b).0 stays)
          (λ n. (recorded.are_new r n).0) ((Memᴰ-changes r).0 m)

    IsOpen-of_active :
        UniqueOpen source.id db.changes
        → (c : SchemaChange) → Memᴰ c changes
        → IsOpen source.id (change_fingerprint digest key c) (map settle db'.changes)
    IsOpen-of_active unique c m =
        elim (Option-cases (Dict.get (change_fingerprint digest key c) opened)) [
          | inl missing ↦
              let (r, n, same) = recorded.covers c m (rw missing refl) in
              record {
                row = r;
                stored = settled-mem r ((Memᴰ-changes r).1 (inr n)) (added-stays r n);
                of_source = (recorded.are_open r n).1;
                is_open = (recorded.are_open r n).0;
                named = same;
              }
          | inr (o, found) ↦
              let (n, same) = opened-some (change_fingerprint digest key c) o found in
              let (stored, of_source, is_open) = (Memᴰ-before o).0 n in
              let stays = (gone_iff unique o n).1 (
                subst (λ f. Memᴰ f active) (sym same)
                  (mem-map_of_mem (change_fingerprint digest key) changes m)) in
              record {
                row = o;
                stored = settled-mem o ((Memᴰ-changes o).1 (inl stored)) (rw (stays, settle) refl);
                of_source = of_source;
                is_open = is_open;
                named = same;
              }
        ]

    pub IsOpen-exact :
        UniqueOpen source.id db.changes
        → (fingerprint : String)
        → IsOpen source.id fingerprint (resolve_missing opened active now db'.changes)
          ↔ Memᴰ fingerprint active
    IsOpen-exact unique fingerprint = rw (resolve_missing-map db'.changes) (to, from)
      where
        to : IsOpen source.id fingerprint (map settle db'.changes) → Memᴰ fingerprint active
        to h =
            let (r, m, is) = mem_of_mem-map settle db'.changes h.stored in
            let (stays, same) = settle_open r (subst (λ x. x.state ≡ open_state) is h.is_open) in
            let is' = is ∙ same in
            subst (λ f. Memᴰ f active) (ap (λ x. x.fingerprint) (sym is') ∙ h.named)
              (active_of_open unique r m stays
                (subst (λ x. x.source_id ≡ source.id) is' h.of_source)
                (subst (λ x. x.state ≡ open_state) is' h.is_open))

        from : Memᴰ fingerprint active → IsOpen source.id fingerprint (map settle db'.changes)
        from m =
            let (c, n, is) = mem_of_mem-map (change_fingerprint digest key) changes m in
            subst (λ f. IsOpen source.id f (map settle db'.changes)) (sym is)
              (IsOpen-of_active unique c n)
