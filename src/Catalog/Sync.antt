-- ===== src/Catalog/Sync.antt =====
-- `CatalogService.sync` of application/catalog_service.py with `known_columns` and `replace_catalog` of
-- infrastructure/db/repositories/catalog.py.
pub mod Rows
pub mod Columns
pub mod Edges
pub mod Complete
use schema_sentry.Prelude.{
  ℕ, suc, ◌+◌, String, Bool, true, false, Option, none, some, List, [], ◌∷◌, ◌++◌, map, length,
  ◌==◌, ◌&&◌, ℕ_eq, String_eq, contains, to_set, if◌then◌else◌,
}
use schema_sentry.Prelude.Dict
use schema_sentry.Prelude.Dict.{Dict, index_by}
use schema_sentry.Prelude.Exec.{Exec, pure, raise, gets, lift, modify, ◌>>=◌, ◌>>◌}
use schema_sentry.Prelude.Order.{String_ord, pair_ord}
use schema_sentry.Prelude.Result
use schema_sentry.Prelude.Result.{Result, ok, err}
use schema_sentry.Prelude.Sort.{sort_by}
use schema_sentry.Prelude.Text.{split_on}
use schema_sentry.Domain.Lineage.{PipelineDefinition, LineageEdge, LineageEdge_eq}
use schema_sentry.Domain.Models.{DatasetRef, DatasetRef_eq, ColumnRef, ColumnRef_eq, qualified_name}
use schema_sentry.Store.{Db, DatasetRow, ExpectedColumnRow, PipelineRow, LineageEdgeRow}
use schema_sentry.Scan.Reading.{dataset_ref, joined}
use schema_sentry.Catalog.Config.{
  CatalogError, value_error, key_error, unknown_column, self_loop, ColumnSetConfig, PipelineConfig,
  PipelineContent, CatalogConfig, load,
}

abbrev pub CatalogSession {ℓ} : Type ℓ → Type ℓ
CatalogSession A = Exec Db CatalogError A

-- ---------------------------------------------------------------- the columns of a configuration

abbrev pub known_column : ExpectedColumnRow × DatasetRow → ColumnRef
known_column (c, d) = record { dataset = dataset_ref d; name = c.name }

unfoldable pub known_columns : Db → List ColumnRef
known_columns db = to_set (map known_column (joined (λ c. c.dataset_id) db.datasets db.expected))

-- the loop over the names of one dataset
unfoldable pub dataset_columns :
    DatasetRef → List String → List ColumnRef → Result CatalogError (List ColumnRef)
dataset_columns dataset [] known = ok []
dataset_columns dataset (name ∷ names) known =
    let ref : ColumnRef = record { dataset = dataset; name = name } in
    if contains ref known
    then Result.◌>>=◌ (dataset_columns dataset names known) (λ refs. ok (ref ∷ refs))
    else err (unknown_column (qualified_name ref))

-- `schema, table = dataset.split(".")`
unfoldable pub split_dataset : List String → Result CatalogError DatasetRef
split_dataset (schema ∷ table ∷ []) = ok (record { schema = schema; table = table })
split_dataset [] = err value_error
split_dataset (a ∷ []) = err value_error
split_dataset (a ∷ b ∷ c ∷ rest) = err value_error

-- `_column_refs`
unfoldable pub column_refs :
    List ColumnSetConfig → List ColumnRef → Result CatalogError (List ColumnRef)
unfolding dataset_columns split_dataset
column_refs [] known = ok []
column_refs (c ∷ cs) known = Result.◌>>=◌ (split_dataset (split_on 46 c.dataset)) (λ dataset.
    Result.◌>>=◌ (dataset_columns dataset c.columns known)
      (λ refs. Result.◌>>=◌ (column_refs cs known) (λ more. ok (refs ++ more))))

-- ---------------------------------------------------------------- the edges

abbrev pub edge : PipelineDefinition → ColumnRef → ColumnRef → LineageEdge
edge pipeline upstream downstream = record {
  pipeline = pipeline;
  upstream = upstream;
  downstream = downstream;
}

-- the loop over the outputs for one input
unfoldable pub edges_to :
    PipelineDefinition → ColumnRef → List ColumnRef → Result CatalogError (List LineageEdge)
edges_to pipeline upstream [] = ok []
edges_to pipeline upstream (downstream ∷ rest) =
    if upstream == downstream
    then err (self_loop (qualified_name upstream))
    else Result.◌>>=◌ (edges_to pipeline upstream rest)
        (λ es. ok (edge pipeline upstream downstream ∷ es))

unfoldable pub edges_between :
    PipelineDefinition → List ColumnRef → List ColumnRef → Result CatalogError (List LineageEdge)
unfolding edges_to
edges_between pipeline [] outputs = ok []
edges_between pipeline (upstream ∷ inputs) outputs =
    Result.◌>>=◌ (edges_to pipeline upstream outputs)
      (λ es. Result.◌>>=◌ (edges_between pipeline inputs outputs) (λ more. ok (es ++ more)))

abbrev pub definition : PipelineConfig → PipelineDefinition
definition c = record {
  key = c.key;
  airflow_dag_id = c.airflow_dag_id;
  owner = c.owner;
  criticality = c.criticality;
}

-- the edges of one pipeline
unfoldable pub pipeline_edges :
    List ColumnRef → PipelineConfig → Result CatalogError (List LineageEdge)
unfolding column_refs edges_between
pipeline_edges known c = Result.◌>>=◌ (column_refs c.inputs known) (λ inputs.
    Result.◌>>=◌ (column_refs c.outputs known)
      (λ outputs. edges_between (definition c) inputs outputs))

-- the loop over the pipelines, and the set of their edges
unfoldable pub all_edges :
    List ColumnRef → List PipelineConfig → Result CatalogError (List LineageEdge)
unfolding pipeline_edges
all_edges known [] = ok []
all_edges known (c ∷ cs) =
    Result.◌>>=◌ (pipeline_edges known c)
      (λ es. Result.◌>>=◌ (all_edges known cs) (λ more. ok (es ++ more)))

abbrev pub edge_order : LineageEdge → (String × String) × String
edge_order e = ((e.pipeline.key, qualified_name e.upstream), qualified_name e.downstream)

-- ---------------------------------------------------------------- the store

abbrev pub pipeline_row : ℕ → PipelineDefinition → PipelineRow
pipeline_row id p = record {
  id = id;
  key = p.key;
  airflow_dag_id = p.airflow_dag_id;
  owner = p.owner;
  criticality = p.criticality;
}

-- the rows of the pipelines, with new ids
abbrev pub pipeline_rows : ℕ → List PipelineDefinition → List PipelineRow
pipeline_rows id [] = []
pipeline_rows id (p ∷ ps) = pipeline_row id p ∷ pipeline_rows (suc id) ps

abbrev pub edge_row : LineageEdge → PipelineRow → DatasetRow → DatasetRow → LineageEdgeRow
edge_row e p u d = record {
  pipeline_id = p.id;
  upstream_dataset_id = u.id;
  upstream_column = e.upstream.name;
  downstream_dataset_id = d.id;
  downstream_column = e.downstream.name;
}

-- `d[key]`
abbrev pub or_key_error {ℓ} : {A : Type ℓ} → Option A → Result CatalogError A
or_key_error none = err key_error
or_key_error (some a) = ok a

module _ (pipelines : Dict String PipelineRow) (datasets : Dict DatasetRef DatasetRow) where
  unfoldable pub row_of_edge : LineageEdge → Result CatalogError LineageEdgeRow
  row_of_edge e = Result.◌>>=◌ (or_key_error (Dict.get e.pipeline.key pipelines)) (λ p.
      Result.◌>>=◌ (or_key_error (Dict.get e.upstream.dataset datasets)) (λ u.
        Result.◌>>=◌ (or_key_error (Dict.get e.downstream.dataset datasets))
          (λ d. ok (edge_row e p u d))))

  -- the loop over the edges
  unfoldable pub add_edges : List LineageEdge → CatalogSession (Unit {0})
  unfolding row_of_edge
  add_edges [] = pure tt
  add_edges (e ∷ es) = do
    row ← lift (row_of_edge e)
    modify (λ db. record db { edges = db.edges ++ row ∷ [] })
    add_edges es

unfoldable pub replace_catalog :
    List PipelineDefinition → List LineageEdge → CatalogSession (Unit {0})
unfolding add_edges
replace_catalog pipelines edges = do
  datasets ← gets (λ db. index_by dataset_ref db.datasets)
  rows ← gets (λ db. pipeline_rows db.next_id pipelines)
  modify (λ db. record db { edges = []; pipelines = rows; next_id = db.next_id + length rows })
  add_edges (index_by (λ p. p.key) rows) datasets edges

-- ---------------------------------------------------------------- the service

pub record CatalogSyncResult : Type 0 where
  pub pipeline_count : ℕ
  pub edge_count : ℕ

-- the sync of a configuration that was loaded
unfoldable pub sync_config : CatalogConfig → CatalogSession CatalogSyncResult
unfolding known_columns all_edges replace_catalog
sync_config config = do
  known ← gets known_columns
  edges ← lift (all_edges known config.pipelines)
  let ordered_pipelines = sort_by (λ p. p.key) (map definition config.pipelines)
  let ordered_edges = sort_by edge_order (to_set edges)
  replace_catalog ordered_pipelines ordered_edges
  pure (record { pipeline_count = length ordered_pipelines; edge_count = length ordered_edges })

unfoldable pub sync : Option (List PipelineContent) → CatalogSession CatalogSyncResult
unfolding sync_config load
sync content = lift (load content) >>= sync_config
