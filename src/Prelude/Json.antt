-- ===== src/Prelude/Json.antt =====
-- JSON values as Python dictionaries hold them: what `to_canonical_dict` builds and JSONB stores.
use Prim.Native.String.{String}
use mathlib.Core.Bool.{Bool}
use mathlib.Core.Option.{Option, none, some}
use schema_sentry.Prelude.Tests.{if◌then◌else◌}
use schema_sentry.Prelude.Equal.{◌==◌, String_eq}
use schema_sentry.Prelude.Int.{ℤ}

mutual
  pub data Json : Type 0 where
    null : Json
    boolean : Bool → Json
    number : ℤ → Json
    text : String → Json
    object : Fields → Json

  pub data Fields : Type 0 where
    end : Fields
    field : String → Json → Fields → Fields

-- `d.get(key)`; a key stands once in the dictionaries that the program builds
abbrev pub get : String → Fields → Option Json
get k end = none
get k (field j v fs) = if j == k then some v else get k fs

-- `d.get(key)` of a value that is used as a dictionary
abbrev pub get_field : String → Json → Option Json
get_field k (object fs) = get k fs
get_field k null = none
get_field k (boolean b) = none
get_field k (number n) = none
get_field k (text s) = none

abbrev pub optional_int : Option ℤ → Json
optional_int none = null
optional_int (some n) = number n

abbrev pub optional_text : Option String → Json
optional_text none = null
optional_text (some s) = text s
