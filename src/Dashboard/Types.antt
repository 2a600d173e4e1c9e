-- ===== src/Dashboard/Types.antt =====
-- The filter `column_type` of the dashboard, on the snapshots that a change stores as JSON.
use Prim.Native.String.{◌++◌}
use schema_sentry.Prelude.{
  String, true, false, Option, none, some, ◌≡◌, refl, String_eq, ◌==◌, if◌then◌else◌,
}
use schema_sentry.Prelude.Int.{ℤ, ℤ_eq, pos}
use schema_sentry.Prelude.Json.{Json, null, boolean, number, text, object, end, field, get}
use schema_sentry.Prelude.Text.{show}
use schema_sentry.Domain.Models.{ColumnDefinition, type_dict, column_dict, render, render_by}

-- `str(value)`; the text of a dictionary is left out
abbrev pub text_of : Json → Option String
text_of null = some "None"
text_of (boolean true) = some "True"
text_of (boolean false) = some "False"
text_of (number n) = some (show n)
text_of (text s) = some s
text_of (object fs) = none

-- `d.get(key)`, where `None` is as good as a missing key
abbrev pub present : Option Json → Option Json
present none = none
present (some null) = none
present (some (boolean b)) = some (boolean b)
present (some (number n)) = some (number n)
present (some (text s)) = some (text s)
present (some (object fs)) = some (object fs)

abbrev pub with_text : Option String → (String → Option String) → Option String
with_text none f = none
with_text (some s) f = f s

-- the text of a type from its name, length, precision and scale
unfoldable pub sized_text : String → Option Json → Option Json → Option Json → Option String
sized_text name (some length) precision scale =
    with_text (text_of length) (λ n. some (name ++ "(" ++ n ++ ")"))
sized_text name none (some precision) (some scale) =
    with_text (text_of precision)
      (λ p. with_text (text_of scale) (λ s. some (name ++ "(" ++ p ++ "," ++ s ++ ")")))
sized_text name none (some precision) none =
    with_text (text_of precision) (λ p. some (name ++ "(" ++ p ++ ")"))
sized_text name none none scale = some name

-- `str(data_type.get("name", "unknown"))`
abbrev pub name_text : Option Json → Option String
name_text none = some "unknown"
name_text (some v) = text_of v

unfoldable pub type_text : Option Json → Option String
unfolding sized_text
type_text none = some "unknown"
type_text (some (object fs)) = with_text (name_text (get "name" fs)) (λ name.
    sized_text name (present (get "length" fs)) (present (get "precision" fs))
      (present (get "scale" fs)))
type_text (some null) = none
type_text (some (boolean b)) = none
type_text (some (number n)) = none
type_text (some (text s)) = none

-- `_column_type`, where `none` is an exception
unfoldable pub column_type : Json → Option String
unfolding type_text
column_type null = some "Not present"
column_type (object end) = some "Not present"
column_type (object (field k v fs)) = type_text (get "data_type" (field k v fs))
column_type (boolean b) = if b then none else some "Not present"
column_type (number n) = if n == pos 0 then some "Not present" else none
column_type (text s) = if s == "" then some "Not present" else none

type_text-fields :
    (name : String) (length precision scale : Option ℤ)
    → type_text (
        some (
          type_dict
            (record { name = name; length = length; precision = precision; scale = scale })))
      ≡ some (render_by name length precision scale)
unfolding type_text sized_text type_dict render_by
type_text-fields name (some n) none none = refl
type_text-fields name (some n) none (some s) = refl
type_text-fields name (some n) (some p) none = refl
type_text-fields name (some n) (some p) (some s) = refl
type_text-fields name none (some p) (some s) = refl
type_text-fields name none (some p) none = refl
type_text-fields name none none none = refl
type_text-fields name none none (some s) = refl

-- The dashboard shows the type of a stored column as `CanonicalType.render` does.
pub column_type-column_dict :
    (c : ColumnDefinition) → column_type (column_dict c) ≡ some (render c.data_type)
unfolding column_type column_dict render
column_type-column_dict c =
    type_text-fields c.data_type.name c.data_type.length c.data_type.precision c.data_type.scale
