-- ===== src/Changes/Version.antt =====
-- The version check of an acceptance.
use schema_sentry.Prelude.{
  ℕ, suc, Bool, true, some, List, [], ◌∷◌, Memᴰ, ◌≡◌, inl, inr, refl, sym, ap, ◌∙◌, subst, arith,
  ◌==◌, ◌&&◌, ℕ_eq, Bool-cases, Option-cases,
}
use schema_sentry.Prelude.Result.{Result, ok, err, ok_injective}
use schema_sentry.Prelude.Exec.{Exec, continue}
use schema_sentry.Domain.Enums.{open_state, ChangeState_eq}
use schema_sentry.Store.{Db, DataSourceRow, SchemaChangeRow, find}
use schema_sentry.Changes.Accept.{
  AcceptanceResult, acceptance_transaction, accept, accept_locked, apply, apply_column,
  is_column_of,
}

-- What a sequence returns, its second part returned on the value of the first.
continue-ok :
    {S E A B : Type 0} (r : Result E A × S) (f : A → Exec S E B) {b : B}
    → (continue r f).0 ≡ ok b
    → (a : A) × (r.0 ≡ ok a) × ((f a r.1).0 ≡ ok b)
continue-ok (ok a, s) f h = (a, refl, h)
continue-ok (err e, s) f h = absurd (ground (arith, h))

-- A write that returned reports the version after the one that it read.
apply-version :
    (source : DataSourceRow) (change : SchemaChangeRow) (now : ℕ) (db : Db) (version : ℕ)
    → (apply source change now db).0 ≡ ok version
    → version ≡ suc source.baseline_version
unfolding apply
apply-version source change now db version h =
    let (u, first, returned) =
      continue-ok
        (apply_column change (find (is_column_of change) db.expected) change.change_type db) _ h in
    sym (ok_injective _ _ returned)

-- What is found is there and passes the test.
mem_of_find :
    {A : Type 0} (p : A → Bool) (xs : List A) (x : A)
    → find p xs ≡ some x
    → Memᴰ x xs × (p x ≡ true)
mem_of_find p [] x h = absurd (ground (arith, h))
mem_of_find p (y ∷ ys) x h = elim (Bool-cases (p y)) [
  | inl e ↦
      let same : y ≡ x = cc (rw (e) at h) in (Memᴰ.head (sym same), subst (λ z. p z ≡ true) same e)
  | inr e ↦ let (m, test) = mem_of_find p ys x (rw (e) at h) in (Memᴰ.tail m, test)
]

-- What the lock gives is stored: an open change with the id, and the source that it names.
acceptance_transaction-eq-some :
    (change_id : ℕ) (db : Db) (source : DataSourceRow) (change : SchemaChangeRow)
    → acceptance_transaction change_id db ≡ some (source, change)
    → Memᴰ change db.changes
      × (change.id ≡ change_id)
      × (change.state ≡ open_state)
      × Memᴰ source db.sources
      × (source.id ≡ change.source_id)
unfolding acceptance_transaction
acceptance_transaction-eq-some change_id db source change h =
    let is_open = λ (c : SchemaChangeRow). c.id == change_id && c.state == open_state in
    elim (Option-cases (find is_open db.changes)) [
      | inl missing ↦ absurd (ground (arith, rw (missing, acceptance_transaction) at h))
      | inr (c, found) ↦
          elim (Option-cases (find (λ (s : DataSourceRow). s.id == c.source_id) db.sources)) [
            | inl missing ↦
                absurd (ground (arith, rw (found, missing, acceptance_transaction) at h))
            | inr (s, owner) ↦
                let both = rw (found, owner, acceptance_transaction) at h in
                let of : s ≡ source = cc both in
                let same : c ≡ change = cc both in
                let (m, test) = mem_of_find is_open db.changes c found in
                let (k, own) =
                  mem_of_find (λ (s : DataSourceRow). s.id == c.source_id) db.sources s owner in
                subst
                  (λ (x : SchemaChangeRow).
                    Memᴰ x db.changes
                    × (x.id ≡ change_id)
                    × (x.state ≡ open_state)
                    × Memᴰ source db.sources
                    × (source.id ≡ x.source_id))
                  same
                  (
                    m,
                    (ℕ_eq.test_iff c.id change_id).0 (ground (arith, test)),
                    (ChangeState_eq.test_iff c.state open_state).0 (ground (arith, test)),
                    subst (λ x. Memᴰ x db.sources) of k,
                    subst (λ (x : DataSourceRow). x.id ≡ c.source_id) of
                        ((ℕ_eq.test_iff s.id c.source_id).0 own),
                  )
          ]
    ]

-- An acceptance that returns was of a stored change that was open and had the id, for the version that the
-- source of the change had, and it reports that id with the next version.
pub accept-version :
    (change_id expected_version now : ℕ) (db : Db) (result : AcceptanceResult)
    → (accept change_id expected_version now db).0 ≡ ok result
    → (source : DataSourceRow) × (change : SchemaChangeRow) × Memᴰ change db.changes
      × (change.id ≡ change_id)
      × (change.state ≡ open_state)
      × Memᴰ source db.sources
      × (source.id ≡ change.source_id)
      × (source.baseline_version ≡ expected_version)
      × (result.change_id ≡ change_id)
      × (result.baseline_version ≡ suc expected_version)
unfolding accept accept_locked
accept-version change_id expected_version now db result h =
    elim (Option-cases (acceptance_transaction change_id db)) [
      | inl missing ↦ absurd (ground (arith, rw (missing, accept) at h))
      | inr ((source, change), locked) ↦
          elim (Bool-cases (source.baseline_version == expected_version)) [
            | inr stale ↦ absurd (ground (arith, rw (locked, stale, accept) at h))
            | inl current ↦
                let (version, written, returned) =
                  continue-ok (apply source change now db) _ (rw (locked, current, accept) at h) in
                let is = ok_injective _ _ returned in
                let same = (ℕ_eq.test_iff source.baseline_version expected_version).0 current in
                let (stored, id, opened, registered, owns) =
                  acceptance_transaction-eq-some change_id db source change locked in
                (
                  source,
                  change,
                  stored,
                  id,
                  opened,
                  registered,
                  owns,
                  same,
                  sym (ap (λ r. r.change_id) is),
                  sym (ap (λ r. r.baseline_version) is)
                      ∙ apply-version source change now db version written
                      ∙ ap suc same,
                )
          ]
    ]
