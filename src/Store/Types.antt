-- ===== src/Store/Types.antt =====
-- `CanonicalType(**data_type_json)`: a type read back from the dictionary that was stored.
use schema_sentry.Prelude.{
  String, Bool, true, ◌≡◌, refl, Option, none, some, [], ◌∷◌, contains, ◌&&◌, String_eq,
  if◌then◌else◌,
}
use schema_sentry.Prelude.Int.{ℤ}
use schema_sentry.Prelude.Json.{
  Json, Fields, null, number, text, object, end, field, get, optional_int,
}
use schema_sentry.Domain.Models.{CanonicalType, type_dict}

optional_number : Option Json → Option (Option ℤ)
optional_number none = some none
optional_number (some null) = some none
optional_number (some (number n)) = some (some n)
optional_number (some _) = none

text_of : Option Json → Option String
text_of (some (text s)) = some s
text_of _ = none

-- The keyword arguments are fields of the class.
only_fields : Fields → Bool
only_fields end = true
only_fields (field k v fs) =
    contains k ("name" ∷ "length" ∷ "precision" ∷ "scale" ∷ []) && only_fields fs

-- `none` is a `TypeError`, for a name that is missing and for a key that is no field, or a field of another kind than the stored dictionaries have
of_parts :
    Option String → Option (Option ℤ) → Option (Option ℤ) → Option (Option ℤ) → Option CanonicalType
of_parts (some n) (some l) (some p) (some s) =
    some (record { name = n; length = l; precision = p; scale = s })
of_parts _ _ _ _ = none

pub type_of_dict : Json → Option CanonicalType
unfolding optional_number text_of of_parts only_fields
type_of_dict (object fs) =
    if only_fields fs
    then of_parts (text_of (get "name" fs)) (optional_number (get "length" fs))
        (optional_number (get "precision" fs)) (optional_number (get "scale" fs))
    else none
type_of_dict _ = none

optional_number-optional_int : (o : Option ℤ) → optional_number (some (optional_int o)) ≡ some o
unfolding optional_number
optional_number-optional_int none = refl
optional_number-optional_int (some n) = refl

-- What is stored is read back: the dictionary that `to_canonical_dict` makes of a type gives the type.
pub type_of_dict-type_dict : (t : CanonicalType) → type_of_dict (type_dict t) ≡ some t
unfolding type_of_dict type_dict only_fields
type_of_dict-type_dict t =
    rw
      (
        optional_number-optional_int t.length,
        optional_number-optional_int t.precision,
        optional_number-optional_int t.scale,
      )
      refl
