-- ===== src/Domain/Models.antt =====
-- src/schema_sentry/domain/models.py: the value objects, their equality and order, the text of a
-- type, and the dictionaries that are stored as JSON.
use Prim.Native.String.{◌++◌}
use schema_sentry.Prelude.{
  String, ◌≡◌, ◌↔◌, Bool, true, ◌&&◌, Option, none, some, arith, Eq, ◌==◌, String_eq, Bool_eq,
  Option_eq,
}
use schema_sentry.Prelude.Int.{ℤ, ℤ_eq}
use schema_sentry.Prelude.Json.{
  Json, null, boolean, number, text, object, end, field, optional_int, optional_text,
}
use schema_sentry.Prelude.Order.{String_ord, pair_ord}
use schema_sentry.Prelude.Text.{show}
use schema_sentry.Domain.Enums.{ChangeType, Severity, change_type_value, severity_value}

pub record DatasetRef : Type 0 where
  pub schema : String
  pub table : String

pub record ColumnRef : Type 0 where
  pub dataset : DatasetRef
  pub name : String

abbrev pub dataset_qualified_name : DatasetRef → String
dataset_qualified_name d = d.schema ++ "." ++ d.table

abbrev pub qualified_name : ColumnRef → String
qualified_name c = dataset_qualified_name c.dataset ++ "." ++ c.name

pub record CanonicalType : Type 0 where
  pub name : String
  pub length : Option ℤ
  pub precision : Option ℤ
  pub scale : Option ℤ

-- `CanonicalType(name=name)`, with the defaults of the other fields
abbrev pub plain : String → CanonicalType
plain n = record { name = n; length = none; precision = none; scale = none }

unfoldable pub render_by : String → Option ℤ → Option ℤ → Option ℤ → String
render_by name (some n) p s = name ++ "(" ++ show n ++ ")"
render_by name none (some p) (some s) = name ++ "(" ++ show p ++ "," ++ show s ++ ")"
render_by name none (some p) none = name ++ "(" ++ show p ++ ")"
render_by name none none s = name

unfoldable pub render : CanonicalType → String
unfolding render_by
render t = render_by t.name t.length t.precision t.scale

unfoldable pub type_dict : CanonicalType → Json
type_dict t = object (
    field "name" (text t.name) (
      field "length" (optional_int t.length)
        (field "precision" (optional_int t.precision) (field "scale" (optional_int t.scale) end))))

pub record ColumnDefinition : Type 0 where
  pub dataset : DatasetRef
  pub name : String
  pub data_type : CanonicalType
  pub nullable : Bool
  pub default : Option String
  pub ordinal : ℤ

abbrev pub column_ref : ColumnDefinition → ColumnRef
column_ref c = record { dataset = c.dataset; name = c.name }

unfoldable pub column_dict : ColumnDefinition → Json
column_dict c = object (
    field "dataset" (text (dataset_qualified_name c.dataset)) (
      field "name" (text c.name) (
        field "data_type" (type_dict c.data_type) (
          field "nullable" (boolean c.nullable)
            (field "default" (optional_text c.default) (field "ordinal" (number c.ordinal) end))))))

pub record SchemaChange : Type 0 where
  pub dataset : DatasetRef
  pub column_name : String
  pub change_type : ChangeType
  pub severity : Severity
  pub before : Option ColumnDefinition
  pub after : Option ColumnDefinition

abbrev pub change_ref : SchemaChange → ColumnRef
change_ref c = record { dataset = c.dataset; name = c.column_name }

-- `column.to_canonical_dict() if column else None`
unfoldable pub optional_column_dict : Option ColumnDefinition → Json
optional_column_dict none = null
optional_column_dict (some c) = column_dict c

unfoldable pub change_dict : SchemaChange → Json
change_dict c = object (
    field "dataset" (text (dataset_qualified_name c.dataset)) (
      field "column_name" (text c.column_name) (
        field "change_type" (text (change_type_value c.change_type)) (
          field "severity" (text (severity_value c.severity)) (
            field "before" (optional_column_dict c.before)
              (field "after" (optional_column_dict c.after) end))))))

-- ---------------------------------------------------------------- equality and order

abbrev dataset_test : DatasetRef → DatasetRef → Bool
dataset_test a b = a.schema == b.schema && a.table == b.table

pub dataset_test_iff : (a b : DatasetRef) → (dataset_test a b ≡ true) ↔ (a ≡ b)
dataset_test_iff a b =
    ground (arith, String_eq.test_iff a.schema b.schema, String_eq.test_iff a.table b.table)

instance abbrev pub DatasetRef_eq : Eq DatasetRef
DatasetRef_eq = record { test = dataset_test; test_iff = dataset_test_iff }

abbrev column_test : ColumnRef → ColumnRef → Bool
column_test a b = a.dataset == b.dataset && a.name == b.name

pub column_test_iff : (a b : ColumnRef) → (column_test a b ≡ true) ↔ (a ≡ b)
column_test_iff a b =
    ground (arith, dataset_test_iff a.dataset b.dataset, String_eq.test_iff a.name b.name)

instance abbrev pub ColumnRef_eq : Eq ColumnRef
ColumnRef_eq = record { test = column_test; test_iff = column_test_iff }

abbrev type_test : CanonicalType → CanonicalType → Bool
type_test a b =
    a.name == b.name && a.length == b.length && a.precision == b.precision && a.scale == b.scale

pub type_test_iff : (a b : CanonicalType) → (type_test a b ≡ true) ↔ (a ≡ b)
type_test_iff a b = ground (
  arith,
  String_eq.test_iff a.name b.name,
  Option_eq.test_iff a.length b.length,
  Option_eq.test_iff a.precision b.precision,
  Option_eq.test_iff a.scale b.scale,
)

instance abbrev pub CanonicalType_eq : Eq CanonicalType
CanonicalType_eq = record { test = type_test; test_iff = type_test_iff }

-- `order=True` compares the fields in order: the sort key of a reference is its three texts.
abbrev pub ref_key : ColumnRef → (String × String) × String
ref_key c = ((c.dataset.schema, c.dataset.table), c.name)
