-- ===== src/Catalog/Valid.antt =====
-- The files that `CatalogConfig` accepts, said without its validators.
use schema_sentry.Prelude.{
  String, Option, some, List, [], ◌∷◌, map, All, ◌≡◌, ◌≢◌, String_eq, IsUnique,
}
use schema_sentry.Prelude.Text.{split_on, upper}
use schema_sentry.Domain.Enums.{PipelineCriticality, low, medium, high, critical}
use schema_sentry.Catalog.Config.{
  ColumnSetConfig, PipelineContent, PipelineConfig, CatalogConfig, configured,
}

-- The values of `PipelineCriticality`.
abbrev pub criticality_name : PipelineCriticality → String
criticality_name low = "LOW"
criticality_name medium = "MEDIUM"
criticality_name high = "HIGH"
criticality_name critical = "CRITICAL"

-- A schema and a table, both named, with a point between them; 46 is the point.
pub record IsTableParts (parts : List String) : Type 0 where
  pub schema : String
  pub table : String
  pub parts_are : parts ≡ schema ∷ table ∷ []
  pub has_schema : schema ≢ ""
  pub has_table : table ≢ ""

-- Some columns of a named table, none of them twice.
pub record IsColumnSet (s : ColumnSetConfig) : Type 0 where
  pub has_columns : s.columns ≢ []
  pub names_table : IsTableParts (split_on 46 s.dataset)
  pub unique_columns : IsUnique s.columns

-- A pipeline of the file, whose criticality is the name of one in any case, and the pipeline that it declares.
pub record Configures (p : PipelineContent) (c : PipelineConfig) : Type 0 where
  pub has_key : p.key ≢ ""
  pub has_dag : p.airflow_dag_id ≢ ""
  pub has_owner : p.owner ≢ ""
  pub has_inputs : p.inputs ≢ []
  pub has_outputs : p.outputs ≢ []
  pub inputs_fine : All IsColumnSet p.inputs
  pub outputs_fine : All IsColumnSet p.outputs
  pub names_criticality : upper p.criticality ≡ criticality_name c.criticality
  pub declares : c ≡ configured p c.criticality

-- one by one, in their order
abbrev pub AllConfigured : List PipelineContent → List PipelineConfig → Type 0
AllConfigured [] [] = Unit
AllConfigured [] (c ∷ cs) = ⊥
AllConfigured (p ∷ ps) [] = ⊥
AllConfigured (p ∷ ps) (c ∷ cs) = Configures p c × AllConfigured ps cs

-- The content of a file declares the configuration: some pipelines, no two with the same key and no two with
-- the same DAG.
pub record IsValid (content : Option (List PipelineContent)) (config : CatalogConfig) : Type 0 where
  pub pipelines : List PipelineContent
  pub has_content : content ≡ some pipelines
  pub configures : AllConfigured pipelines config.pipelines
  pub has_pipelines : config.pipelines ≢ []
  pub unique_keys : IsUnique (map (λ p. p.key) config.pipelines)
  pub unique_dags : IsUnique (map (λ p. p.airflow_dag_id) config.pipelines)
