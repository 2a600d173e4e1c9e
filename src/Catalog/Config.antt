-- ===== src/Catalog/Config.antt =====
-- The models of application/catalog_service.py with their validators. The shape of the file is what
-- `yaml.safe_load` and pydantic read of it: the fields of each object, with the criticality as a text.
use schema_sentry.Prelude.{
  String, Bool, true, false, not, Option, none, some, List, [], ◌∷◌, map, all, length, ◌==◌, ◌&&◌,
  ℕ_eq, String_eq, to_set, if◌then◌else◌,
}
use schema_sentry.Prelude.Result.{Result, ok, err, ◌>>=◌}
use schema_sentry.Prelude.Text.{split_on, upper}
use schema_sentry.Domain.Enums.{PipelineCriticality, low, medium, high, critical}

pub record ColumnSetConfig : Type 0 where
  pub dataset : String
  pub columns : List String

pub record PipelineContent : Type 0 where
  pub key : String
  pub airflow_dag_id : String
  pub owner : String
  pub criticality : String
  pub inputs : List ColumnSetConfig
  pub outputs : List ColumnSetConfig

pub record PipelineConfig : Type 0 where
  pub key : String
  pub airflow_dag_id : String
  pub owner : String
  pub criticality : PipelineCriticality
  pub inputs : List ColumnSetConfig
  pub outputs : List ColumnSetConfig

pub record CatalogConfig : Type 0 where
  pub pipelines : List PipelineConfig

-- `invalid_catalog` is the `CatalogValidationError` of `_load`.
pub data CatalogError : Type 0 where
  invalid_catalog value_error key_error : CatalogError
  unknown_column self_loop : String → CatalogError

-- a field of at least one element or character
abbrev pub non_empty {ℓ} : {A : Type ℓ} → List A → Bool
non_empty [] = false
non_empty (x ∷ xs) = true

-- `len(parts) == 2 and all(parts)`
abbrev pub is_pair_of_texts : List String → Bool
is_pair_of_texts parts = length parts == 2 && all (λ p. not (p == "")) parts

-- `validate_dataset_name`; 46 is the point
unfoldable pub validate_dataset_name : String → Bool
validate_dataset_name value = is_pair_of_texts (split_on 46 value)

-- the test of `validate_unique_columns` and of `validate_pipeline_identity`
abbrev pub is_set : List String → Bool
is_set values = length values == length (to_set values)

unfoldable pub validate_column_set : ColumnSetConfig → Bool
unfolding validate_dataset_name
validate_column_set c = non_empty c.columns && validate_dataset_name c.dataset && is_set c.columns

-- `normalize_criticality` and the enumeration
unfoldable pub normalize_criticality : String → Option PipelineCriticality
normalize_criticality value =
    let text = upper value in
    if text == "LOW"
    then some low
    else if text == "MEDIUM"
    then some medium
    else if text == "HIGH"
    then some high
    else if text == "CRITICAL"
    then some critical
    else none

abbrev pub valid_fields : PipelineContent → Bool
valid_fields p =
    not (p.key == "")
    && not (p.airflow_dag_id == "")
    && not (p.owner == "")
    && non_empty p.inputs
    && non_empty p.outputs
    && all validate_column_set p.inputs
    && all validate_column_set p.outputs

abbrev pub configured : PipelineContent → PipelineCriticality → PipelineConfig
configured p c = record {
  key = p.key;
  airflow_dag_id = p.airflow_dag_id;
  owner = p.owner;
  criticality = c;
  inputs = p.inputs;
  outputs = p.outputs;
}

unfoldable pub with_criticality :
    PipelineContent → Option PipelineCriticality → Result CatalogError PipelineConfig
with_criticality p none = err invalid_catalog
with_criticality p (some c) = ok (configured p c)

unfoldable pub validate_pipeline_config : PipelineContent → Result CatalogError PipelineConfig
unfolding with_criticality
validate_pipeline_config p =
    if valid_fields p
    then with_criticality p (normalize_criticality p.criticality)
    else err invalid_catalog

unfoldable pub validate_pipelines : List PipelineContent → Result CatalogError (List PipelineConfig)
unfolding validate_pipeline_config
validate_pipelines [] = ok []
validate_pipelines (p ∷ ps) =
    validate_pipeline_config p >>= λ c. validate_pipelines ps >>= λ cs. ok (c ∷ cs)

-- `validate_pipeline_identity`
unfoldable pub validate_pipeline_identity : List PipelineConfig → Bool
validate_pipeline_identity ps =
    is_set (map (λ p. p.key) ps) && is_set (map (λ p. p.airflow_dag_id) ps)

unfoldable pub identified : List PipelineConfig → Result CatalogError CatalogConfig
unfolding validate_pipeline_identity
identified ps =
    if non_empty ps && validate_pipeline_identity ps
    then ok (record { pipelines = ps })
    else err invalid_catalog

-- `_load`. The content is `none` where the file cannot be read or has another shape.
unfoldable pub load : Option (List PipelineContent) → Result CatalogError CatalogConfig
unfolding validate_pipelines identified
load none = err invalid_catalog
load (some content) = validate_pipelines content >>= identified
