-- ===== src/Changes/Accept.antt =====
-- Acceptance of a change: `SqlAlchemyLockedAcceptance` and `acceptance_transaction` of
-- infrastructure/db/repositories/changes.py, application/change_service.py and the request
-- `POST /api/v1/changes/{id}/accept` of api/routers/changes.py. A column of the baseline is found by its
-- dataset and name, which `expected_column_identity` keeps unique. `now` is `datetime.now(UTC)`.
use schema_sentry.Prelude.{
  ℕ, suc, String, Bool, true, false, not, Option, none, some, [], ◌∷◌, ◌++◌, filter, ◌==◌, ◌&&◌,
  ◌||◌, ℕ_eq, String_eq, is_none, if◌then◌else◌,
}
use schema_sentry.Prelude.Exec.{pure, raise, gets, lift, modify, ◌>>=◌, ◌>>◌}
use schema_sentry.Prelude.Int.{ℤ, pos, ℤ_eq}
use schema_sentry.Prelude.Json.{
  Json, null, boolean, number, text, object, end, field, get, get_field,
}
use schema_sentry.Prelude.Result
use schema_sentry.Prelude.Result.{Result, ok, err}
use schema_sentry.Prelude.Text.{int}
use schema_sentry.Domain.Enums.{
  ChangeType, add_column, drop_column, type_change, nullability_change, open_state, accepted,
  ChangeState_eq,
}
use schema_sentry.Store.{
  Db, DataSourceRow, ExpectedColumnRow, SchemaChangeRow, Exception, source_not_found,
  scan_already_running, empty_schema_snapshot, lookup_error, driver_error, change_not_found,
  baseline_version_conflict, key_error, attribute_error, value_error, type_error, find, update,
}
use schema_sentry.Scan.Reading.{Session}

-- `bool(value)`
abbrev pub truth : Json → Bool
truth null = false
truth (boolean b) = b
truth (number n) = not (n == pos 0)
truth (text s) = not (s == "")
truth (object end) = false
truth (object (field k v fs)) = true

unfoldable pub of_int : Option ℤ → Result Exception ℤ
of_int none = err value_error
of_int (some n) = ok n

-- `int(value)`
unfoldable pub integer : Json → Result Exception ℤ
unfolding of_int
integer null = err type_error
integer (boolean true) = ok (pos 1)
integer (boolean false) = ok (pos 0)
integer (number n) = ok n
integer (text s) = of_int (int s)
integer (object fs) = err type_error

-- the check that the type is a dictionary
unfoldable pub dictionary_of : Option Json → Result Exception Json
dictionary_of (some (object t)) = ok (object t)
dictionary_of (some (boolean b)) = err value_error
dictionary_of (some (number n)) = err value_error
dictionary_of (some (text s)) = err value_error
dictionary_of (some null) = err value_error
dictionary_of none = err value_error

-- `_data_type`
unfoldable pub data_type_of : Json → Result Exception Json
unfolding dictionary_of
data_type_of (object fs) = dictionary_of (get "data_type" fs)
data_type_of null = err attribute_error
data_type_of (boolean b) = err attribute_error
data_type_of (number n) = err attribute_error
data_type_of (text s) = err attribute_error

-- `bool(after["nullable"])`
unfoldable pub nullable_of : Json → Result Exception Bool
nullable_of after = elim (get_field "nullable" after) [
  | none ↦ err key_error
  | some v ↦ ok (truth v)
]

-- `_optional_string`
unfoldable pub optional_string : Option Json → Option String
optional_string (some (text s)) = some s
optional_string (some null) = none
optional_string (some (boolean b)) = none
optional_string (some (number n)) = none
optional_string (some (object fs)) = none
optional_string none = none

unfoldable pub ordinal_of : Json → Result Exception ℤ
unfolding integer
ordinal_of after = elim (get_field "ordinal" after) [ none ↦ ok (pos 0) | some v ↦ integer v ]

-- the row of an added column
unfoldable pub added_row : SchemaChangeRow → Result Exception ExpectedColumnRow
unfolding data_type_of nullable_of optional_string ordinal_of
added_row change = Result.◌>>=◌ (data_type_of change.after_json) (λ t.
    Result.◌>>=◌ (nullable_of change.after_json) (λ b.
      Result.◌>>=◌ (ordinal_of change.after_json) (λ n. ok (record {
        dataset_id = change.dataset_id;
        name = change.column_name;
        data_type_json = t;
        nullable = b;
        default_expression = optional_string (get_field "default" change.after_json);
        ordinal = n;
      }))))

abbrev pub is_column_of : SchemaChangeRow → ExpectedColumnRow → Bool
is_column_of change c = c.dataset_id == change.dataset_id && c.name == change.column_name

-- `value is None`
abbrev pub is_null : Json → Bool
is_null null = true
is_null (boolean b) = false
is_null (number n) = false
is_null (text s) = false
is_null (object fs) = false

unfoldable pub apply_added : SchemaChangeRow → Option ExpectedColumnRow → Session (Unit {0})
unfolding added_row
apply_added change expected =
    if is_null change.after_json then raise value_error else elim expected [
      | some c ↦ pure tt
      | none ↦ lift (added_row change) >>= λ row.
          modify (λ db. record db { expected = db.expected ++ row ∷ [] })
    ]

unfoldable pub apply_dropped : SchemaChangeRow → Option ExpectedColumnRow → Session (Unit {0})
apply_dropped change none = raise value_error
apply_dropped change (some c) =
    modify (λ db. record db { expected = filter (λ r. not (is_column_of change r)) db.expected })

unfoldable pub set_data_type : SchemaChangeRow → Json → Db → Db
set_data_type change t db = record db {
  expected = update (is_column_of change) (λ c. record c { data_type_json = t }) db.expected;
}

unfoldable pub set_nullable : SchemaChangeRow → Bool → Db → Db
set_nullable change b db = record db {
  expected = update (is_column_of change) (λ c. record c { nullable = b }) db.expected;
}

unfoldable pub set_default : SchemaChangeRow → Option String → Db → Db
set_default change d db = record db {
  expected = update (is_column_of change) (λ c. record c { default_expression = d }) db.expected;
}

unfoldable pub write_column : SchemaChangeRow → Session (Unit {0})
unfolding data_type_of nullable_of optional_string set_data_type set_nullable set_default
write_column change = do
  t ← lift (data_type_of change.after_json)
  modify (set_data_type change t)
  b ← lift (nullable_of change.after_json)
  modify (set_nullable change b)
  modify (set_default change (optional_string (get_field "default" change.after_json)))

unfoldable pub apply_changed : SchemaChangeRow → Option ExpectedColumnRow → Session (Unit {0})
unfolding write_column
apply_changed change expected =
    if is_none expected || is_null change.after_json then raise value_error else write_column change

unfoldable pub apply_column :
    SchemaChangeRow → Option ExpectedColumnRow → ChangeType → Session (Unit {0})
unfolding apply_added apply_dropped apply_changed
apply_column change expected add_column = apply_added change expected
apply_column change expected drop_column = apply_dropped change expected
apply_column change expected type_change = apply_changed change expected
apply_column change expected nullability_change = apply_changed change expected

-- the version of the source and the state of the change
unfoldable pub accept_change : DataSourceRow → SchemaChangeRow → ℕ → Db → Db
accept_change source change now db = record db {
  sources =
      update (λ s. s.id == source.id) (λ s. record s { baseline_version = suc s.baseline_version })
        db.sources;
  changes =
      update (λ c. c.id == change.id) (λ c. record c { state = accepted; accepted_at = some now })
        db.changes;
}

unfoldable pub apply : DataSourceRow → SchemaChangeRow → ℕ → Session ℕ
unfolding apply_column accept_change
apply source change now = do
  expected ← gets (λ db. find (is_column_of change) db.expected)
  apply_column change expected change.change_type
  modify (accept_change source change now)
  pure (suc source.baseline_version)

-- ---------------------------------------------------------------- the service

-- What `acceptance_transaction` yields: the source and the open change, or nothing.
unfoldable pub acceptance_transaction : ℕ → Db → Option (DataSourceRow × SchemaChangeRow)
acceptance_transaction change_id db =
    elim (find (λ c. c.id == change_id && c.state == open_state) db.changes) [
      | none ↦ none
      | some c ↦ elim (find (λ s. s.id == c.source_id) db.sources) [
        | none ↦ none
        | some s ↦ some (s, c)
      ]
    ]

pub record AcceptanceResult : Type 0 where
  pub change_id : ℕ
  pub baseline_version : ℕ

-- `ChangeService.accept`, after the transaction yielded
unfoldable pub accept_locked :
    ℕ → ℕ → ℕ → Option (DataSourceRow × SchemaChangeRow) → Session AcceptanceResult
unfolding apply
accept_locked change_id expected_version now none = raise (change_not_found change_id)
accept_locked change_id expected_version now (some (source, change)) =
    if not (source.baseline_version == expected_version)
    then raise (baseline_version_conflict expected_version source.baseline_version)
    else (do
      version ← apply source change now
      pure (record { change_id = change_id; baseline_version = version }))

unfoldable pub accept : ℕ → ℕ → ℕ → Session AcceptanceResult
unfolding acceptance_transaction accept_locked
accept change_id expected_version now = do
  locked ← gets (acceptance_transaction change_id)
  accept_locked change_id expected_version now locked

-- ---------------------------------------------------------------- the request

pub data AcceptResponse : Type 0 where
  accepted_with : AcceptanceResult → AcceptResponse
  version_conflict : (expected actual : ℕ) → AcceptResponse
  not_found server_error : AcceptResponse

-- The answer, and the store once the transaction ended: only an exception that is no HTTPException
-- rolls back.
unfoldable pub respond_accept : Db → Result Exception AcceptanceResult × Db → AcceptResponse × Db
respond_accept before (ok result, after) = (accepted_with result, after)
respond_accept before (err (baseline_version_conflict e a), after) = (version_conflict e a, after)
respond_accept before (err (change_not_found id), after) = (not_found, after)
respond_accept before (err (source_not_found key), after) = (server_error, before)
respond_accept before (err (scan_already_running key), after) = (server_error, before)
respond_accept before (err (empty_schema_snapshot key), after) = (server_error, before)
respond_accept before (err lookup_error, after) = (server_error, before)
respond_accept before (err key_error, after) = (server_error, before)
respond_accept before (err attribute_error, after) = (server_error, before)
respond_accept before (err value_error, after) = (server_error, before)
respond_accept before (err type_error, after) = (server_error, before)
respond_accept before (err (driver_error name), after) = (server_error, before)

unfoldable pub post_accept : ℕ → ℕ → ℕ → Db → AcceptResponse × Db
unfolding accept respond_accept
post_accept change_id expected_version now db =
    respond_accept db (accept change_id expected_version now db)
