-- ===== src/Scan/Collector.antt =====
-- src/schema_sentry/infrastructure/db/postgres_collector.py: the check of the schemas' names, and the columns
-- that the rows of information_schema give. The rows are what the query answers.
use Prim.Native.Char.{code}
use schema_sentry.Prelude.{
  String, Bool, true, false, Option, List, [], ◌∷◌, map, any, ◌==◌, ◌||◌, ℕ_eq, String_eq,
  if◌then◌else◌,
}
use schema_sentry.Prelude.Int.{ℤ}
use schema_sentry.Prelude.Result.{Result, ok, err}
use schema_sentry.Domain.Models.{ColumnDefinition}
use schema_sentry.Domain.TypeRules.{canonicalize_postgres_type}
use schema_sentry.Store.{Exception, value_error}

-- a row of the query, as a dictionary
pub record CatalogRow : Type 0 where
  pub table_schema : String
  pub table_name : String
  pub column_name : String
  pub ordinal_position : ℤ
  pub is_nullable : String
  pub data_type : String
  pub udt_name : String
  pub character_maximum_length : Option ℤ
  pub numeric_precision : Option ℤ
  pub numeric_scale : Option ℤ
  pub column_default : Option String

-- `_to_column`
unfoldable pub to_column : CatalogRow → ColumnDefinition
to_column row = record {
  dataset = record { schema = row.table_schema; table = row.table_name };
  name = row.column_name;
  data_type =
      canonicalize_postgres_type row.data_type row.udt_name row.character_maximum_length
        row.numeric_precision row.numeric_scale;
  nullable = row.is_nullable == "YES";
  default = row.column_default;
  ordinal = row.ordinal_position;
}

-- `"*" in schema or "%" in schema`
unfoldable pub has_wildcard : String → Bool
has_wildcard String.[] = false
has_wildcard (String.◌∷◌ c s) = code c == b'*' || code c == b'%' || has_wildcard s

abbrev is_empty : List String → Bool
is_empty [] = true
is_empty (x ∷ xs) = false

-- the check of the constructor
unfoldable pub checked_schemas : List String → Result Exception (List String)
unfolding has_wildcard
checked_schemas included_schemas =
    if is_empty included_schemas || any has_wildcard included_schemas
    then err value_error
    else ok included_schemas

-- `collect`, of the connection's answer
unfoldable pub collect :
    Result Exception (List CatalogRow) → Result Exception (List ColumnDefinition)
unfolding to_column
collect (err e) = err e
collect (ok rows) = ok (map to_column rows)
