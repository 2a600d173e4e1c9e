-- ===== src/Changes/Refused.antt =====
-- An acceptance that is refused.
use schema_sentry.Prelude.{
  ℕ, Bool, true, false, Option, none, some, ◌≡◌, ◌⊎◌, inl, inr, refl, arith, ◌==◌, ℕ_eq, Bool-cases,
  Option-cases, is_none, ◌||◌, String_eq, [], ◌∷◌, ◌++◌,
}
use schema_sentry.Prelude.Exec.{Exec, modify, continue}
use schema_sentry.Prelude.Json.{Json, null, boolean, number, text, object, get, get_field}
use schema_sentry.Prelude.Result
use schema_sentry.Prelude.Result.{Result, ok, err, Result-cases}
use schema_sentry.Prelude.Text.{int}
use schema_sentry.Domain.Enums.{
  ChangeType, add_column, drop_column, type_change, nullability_change,
}
use schema_sentry.Store.{
  Db, DataSourceRow, ExpectedColumnRow, SchemaChangeRow, Exception, source_not_found,
  scan_already_running, empty_schema_snapshot, lookup_error, driver_error, change_not_found,
  baseline_version_conflict, key_error, attribute_error, value_error, type_error, find,
}
use schema_sentry.Changes.Accept.{
  dictionary_of, of_int, integer, data_type_of, nullable_of, ordinal_of, added_row, is_null,
  apply_added, apply_dropped, apply_changed, write_column, apply_column, apply, accept_locked,
  accept, acceptance_transaction, AcceptanceResult, AcceptResponse, accepted_with, respond_accept,
  post_accept, is_column_of, set_data_type,
}

-- The exceptions for which the request rolls back.
abbrev is_internal : Exception → Bool
is_internal (change_not_found id) = false
is_internal (baseline_version_conflict expected actual) = false
is_internal (source_not_found key) = true
is_internal (scan_already_running key) = true
is_internal (empty_schema_snapshot key) = true
is_internal lookup_error = true
is_internal key_error = true
is_internal attribute_error = true
is_internal value_error = true
is_internal type_error = true
is_internal (driver_error name) = true

abbrev OnlyInternal : {A : Type 0} → Result Exception A → Type 0
OnlyInternal r = (e : Exception) → r ≡ err e → is_internal e ≡ true

abbrev RaisesInternal : {A : Type 0} → Exec Db Exception A → Type 0
RaisesInternal m = (db : Db) → OnlyInternal (m db).0

continue-OnlyInternal :
    {A B : Type 0} (r : Result Exception A × Db) (f : A → Exec Db Exception B)
    → OnlyInternal r.0
    → ((a : A) → RaisesInternal (f a))
    → OnlyInternal (continue r f).0
continue-OnlyInternal (ok a, db) f first rest e h = rest a db e h
continue-OnlyInternal (err k, db) f first rest e h = first e (ground (arith, h))

sequence-OnlyInternal :
    {A B : Type 0} (r : Result Exception A) (f : A → Result Exception B)
    → OnlyInternal r
    → ((a : A) → OnlyInternal (f a))
    → OnlyInternal (Result.◌>>=◌ r f)
sequence-OnlyInternal (ok a) f first rest e h = rest a e h
sequence-OnlyInternal (err k) f first rest e h = first e (ground (arith, h))

raised_is :
    {A : Type 0} (k e : Exception)
    → is_internal k ≡ true
    → ◌≡◌ {A = Result Exception A} (err k) (err e)
    → is_internal e ≡ true
raised_is k e internal h = ground (arith, h, internal)

dictionary_of-OnlyInternal : (v : Option Json) → OnlyInternal (dictionary_of v)
unfolding dictionary_of
dictionary_of-OnlyInternal none e h = raised_is value_error e refl h
dictionary_of-OnlyInternal (some null) e h = raised_is value_error e refl h
dictionary_of-OnlyInternal (some (boolean b)) e h = raised_is value_error e refl h
dictionary_of-OnlyInternal (some (number n)) e h = raised_is value_error e refl h
dictionary_of-OnlyInternal (some (text s)) e h = raised_is value_error e refl h
dictionary_of-OnlyInternal (some (object fs)) e h = absurd (ground (arith, h))

data_type_of-OnlyInternal : (j : Json) → OnlyInternal (data_type_of j)
unfolding data_type_of
data_type_of-OnlyInternal (object fs) e h = dictionary_of-OnlyInternal (get "data_type" fs) e h
data_type_of-OnlyInternal null e h = raised_is attribute_error e refl h
data_type_of-OnlyInternal (boolean b) e h = raised_is attribute_error e refl h
data_type_of-OnlyInternal (number n) e h = raised_is attribute_error e refl h
data_type_of-OnlyInternal (text s) e h = raised_is attribute_error e refl h

nullable_of-OnlyInternal : (j : Json) → OnlyInternal (nullable_of j)
unfolding nullable_of
nullable_of-OnlyInternal j e h = elim (Option-cases (get_field "nullable" j)) [
  | inl missing ↦ raised_is key_error e refl (rw (missing, nullable_of) at h)
  | inr (v, found) ↦ absurd (ground (arith, rw (found, nullable_of) at h))
]

integer-OnlyInternal : (j : Json) → OnlyInternal (integer j)
unfolding integer of_int
integer-OnlyInternal null e h = raised_is type_error e refl h
integer-OnlyInternal (boolean true) e h = absurd (ground (arith, h))
integer-OnlyInternal (boolean false) e h = absurd (ground (arith, h))
integer-OnlyInternal (number n) e h = absurd (ground (arith, h))
integer-OnlyInternal (text s) e h = elim (Option-cases (int s)) [
  | inl bad ↦ raised_is value_error e refl (rw (bad, integer) at h)
  | inr (n, good) ↦ absurd (ground (arith, rw (good, integer) at h))
]
integer-OnlyInternal (object fs) e h = raised_is type_error e refl h

ordinal_of-OnlyInternal : (j : Json) → OnlyInternal (ordinal_of j)
unfolding ordinal_of
ordinal_of-OnlyInternal j e h = elim (Option-cases (get_field "ordinal" j)) [
  | inl missing ↦ absurd (ground (arith, rw (missing, ordinal_of) at h))
  | inr (v, found) ↦ integer-OnlyInternal v e (rw (found, ordinal_of) at h)
]

added_row-OnlyInternal : (change : SchemaChangeRow) → OnlyInternal (added_row change)
unfolding added_row
added_row-OnlyInternal change =
    sequence-OnlyInternal (data_type_of change.after_json) _
      (data_type_of-OnlyInternal change.after_json)
      (λ t.
        sequence-OnlyInternal (nullable_of change.after_json) _
          (nullable_of-OnlyInternal change.after_json)
          (λ b.
            sequence-OnlyInternal (ordinal_of change.after_json) _
              (ordinal_of-OnlyInternal change.after_json) (λ n e h. absurd (ground (arith, h)))))

apply_added-RaisesInternal :
    (change : SchemaChangeRow) (expected : Option ExpectedColumnRow)
    → RaisesInternal (apply_added change expected)
unfolding apply_added
apply_added-RaisesInternal change (some c) db e h = elim (Bool-cases (is_null change.after_json)) [
  | inl is ↦ raised_is value_error e refl (rw (is, apply_added) at h)
  | inr is ↦ absurd (ground (arith, rw (is, apply_added) at h))
]
apply_added-RaisesInternal change none db e h = elim (Bool-cases (is_null change.after_json)) [
  | inl is ↦ raised_is value_error e refl (rw (is, apply_added) at h)
  | inr is ↦
      continue-OnlyInternal (added_row change, db)
        (λ row. modify (λ d. record d { expected = d.expected ++ row ∷ [] }))
        (added_row-OnlyInternal change) (λ row s k g. absurd (ground (arith, g))) e
        (rw (is, apply_added) at h)
]

write_column-RaisesInternal : (change : SchemaChangeRow) → RaisesInternal (write_column change)
unfolding write_column
write_column-RaisesInternal change db =
    continue-OnlyInternal (data_type_of change.after_json, db) _
      (data_type_of-OnlyInternal change.after_json)
      (λ t s.
        continue-OnlyInternal (nullable_of change.after_json, set_data_type change t s) _
          (nullable_of-OnlyInternal change.after_json) (λ b u e h. absurd (ground (arith, h))))

apply_changed-RaisesInternal :
    (change : SchemaChangeRow) (expected : Option ExpectedColumnRow)
    → RaisesInternal (apply_changed change expected)
unfolding apply_changed
apply_changed-RaisesInternal change expected db e h =
    elim (Bool-cases (is_none expected || is_null change.after_json)) [
      | inl is ↦ raised_is value_error e refl (rw (is, apply_changed) at h)
      | inr is ↦ write_column-RaisesInternal change db e (rw (is, apply_changed) at h)
    ]

apply_dropped-RaisesInternal :
    (change : SchemaChangeRow) (expected : Option ExpectedColumnRow)
    → RaisesInternal (apply_dropped change expected)
unfolding apply_dropped
apply_dropped-RaisesInternal change none db e h = raised_is value_error e refl h
apply_dropped-RaisesInternal change (some c) db e h = absurd (ground (arith, h))

apply_column-RaisesInternal :
    (change : SchemaChangeRow) (expected : Option ExpectedColumnRow) (t : ChangeType)
    → RaisesInternal (apply_column change expected t)
unfolding apply_column
apply_column-RaisesInternal change expected add_column = apply_added-RaisesInternal change expected
apply_column-RaisesInternal change expected drop_column =
    apply_dropped-RaisesInternal change expected
apply_column-RaisesInternal change expected type_change =
    apply_changed-RaisesInternal change expected
apply_column-RaisesInternal change expected nullability_change =
    apply_changed-RaisesInternal change expected

apply-RaisesInternal :
    (source : DataSourceRow) (change : SchemaChangeRow) (now : ℕ)
    → RaisesInternal (apply source change now)
unfolding apply
apply-RaisesInternal source change now db =
    let expected = find (is_column_of change) db.expected in
    continue-OnlyInternal (apply_column change expected change.change_type db) _
      (apply_column-RaisesInternal change expected change.change_type db)
      (λ _ s e h. absurd (ground (arith, h)))

-- the store of a response, unless it accepts
abbrev pub Unchanged : Db → AcceptResponse × Db → Type 0
Unchanged before (response, after) =
    ((result : AcceptanceResult) × (response ≡ accepted_with result)) ⊎ (after ≡ before)

respond_accept-Unchanged :
    (before : Db) (r : Result Exception AcceptanceResult × Db)
    → OnlyInternal r.0
    → Unchanged before (respond_accept before r)
unfolding respond_accept
respond_accept-Unchanged before (ok result, after) only = inl (result, refl)
respond_accept-Unchanged before (err (baseline_version_conflict a b), after) only =
    absurd (ground (arith, only (baseline_version_conflict a b) refl))
respond_accept-Unchanged before (err (change_not_found id), after) only =
    absurd (ground (arith, only (change_not_found id) refl))
respond_accept-Unchanged before (err (source_not_found key), after) only = inr refl
respond_accept-Unchanged before (err (scan_already_running key), after) only = inr refl
respond_accept-Unchanged before (err (empty_schema_snapshot key), after) only = inr refl
respond_accept-Unchanged before (err lookup_error, after) only = inr refl
respond_accept-Unchanged before (err key_error, after) only = inr refl
respond_accept-Unchanged before (err attribute_error, after) only = inr refl
respond_accept-Unchanged before (err value_error, after) only = inr refl
respond_accept-Unchanged before (err type_error, after) only = inr refl
respond_accept-Unchanged before (err (driver_error name), after) only = inr refl

-- A request to accept a change either answers with the acceptance, or it leaves the store as it was, also where
-- the acceptance failed after a write.
pub post_accept-Unchanged :
    (change_id expected_version now : ℕ) (db : Db)
    → Unchanged db (post_accept change_id expected_version now db)
unfolding post_accept accept accept_locked respond_accept
post_accept-Unchanged change_id expected_version now db =
    elim (Option-cases (acceptance_transaction change_id db)) [
      | inl missing ↦ rw (missing, post_accept, accept) (inr refl)
      | inr ((source, change), locked) ↦
          elim (Bool-cases (source.baseline_version == expected_version)) [
            | inr stale ↦ rw (locked, stale, post_accept, accept) (inr refl)
            | inl current ↦
                rw (locked, current, post_accept, accept)
                  (respond_accept-Unchanged db (continue (apply source change now db) _) (
                    continue-OnlyInternal (apply source change now db) _
                      (apply-RaisesInternal source change now db)
                      (λ v s e h. absurd (ground (arith, h)))))
          ]
    ]
