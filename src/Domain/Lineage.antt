-- ===== src/Domain/Lineage.antt =====
-- src/schema_sentry/domain/lineage.py: the graph of column lineage and the breadth-first search for the
-- pipelines that a set of columns reaches. The `while` loop takes fuel, and `none` is that it ran out.
pub mod Graph
pub mod Invariant
pub mod Rounds
pub mod Impact
use Prim.Native.String.{◌++◌ as append}
use schema_sentry.Prelude.{
  ℕ, zero, suc, ◌+◌, String, Bool, true, false, Option, none, some, List, [], ◌∷◌, ◌++◌, map,
  length, ◌==◌, ◌&&◌, Eq, ◌≡◌, ◌↔◌, arith, String_eq, pair_eq, contains, filter, if◌then◌else◌,
}
use schema_sentry.Prelude.Dict
use schema_sentry.Prelude.Dict.{Dict, values}
use schema_sentry.Prelude.Int.{ℤ, negate, ℤ_ord}
use schema_sentry.Prelude.Order.{String_ord, pair_ord}
use schema_sentry.Prelude.Sort.{sort_by}
use schema_sentry.Domain.Enums.{
  PipelineCriticality, low, medium, high, critical, breaking, Severity_eq, PipelineCriticality_eq,
}
use schema_sentry.Domain.Models.{ColumnRef, ColumnRef_eq, qualified_name, SchemaChange, change_ref}

pub record PipelineDefinition : Type 0 where
  pub key : String
  pub airflow_dag_id : String
  pub owner : String
  pub criticality : PipelineCriticality

pub record LineageEdge : Type 0 where
  pub pipeline : PipelineDefinition
  pub upstream : ColumnRef
  pub downstream : ColumnRef

abbrev pipeline_test : PipelineDefinition → PipelineDefinition → Bool
pipeline_test a b =
    a.key == b.key
    && a.airflow_dag_id == b.airflow_dag_id
    && a.owner == b.owner
    && a.criticality == b.criticality

pub pipeline_test_iff : (a b : PipelineDefinition) → (pipeline_test a b ≡ true) ↔ (a ≡ b)
pipeline_test_iff a b = ground (
  arith,
  String_eq.test_iff a.key b.key,
  String_eq.test_iff a.airflow_dag_id b.airflow_dag_id,
  String_eq.test_iff a.owner b.owner,
  PipelineCriticality_eq.test_iff a.criticality b.criticality,
)

instance abbrev pub PipelineDefinition_eq : Eq PipelineDefinition
PipelineDefinition_eq = record { test = pipeline_test; test_iff = pipeline_test_iff }

abbrev edge_test : LineageEdge → LineageEdge → Bool
edge_test a b = a.pipeline == b.pipeline && a.upstream == b.upstream && a.downstream == b.downstream

pub edge_test_iff : (a b : LineageEdge) → (edge_test a b ≡ true) ↔ (a ≡ b)
edge_test_iff a b = ground (
  arith,
  pipeline_test_iff a.pipeline b.pipeline,
  ColumnRef_eq.test_iff a.upstream b.upstream,
  ColumnRef_eq.test_iff a.downstream b.downstream,
)

instance abbrev pub LineageEdge_eq : Eq LineageEdge
LineageEdge_eq = record { test = edge_test; test_iff = edge_test_iff }

pub record PipelineImpact : Type 0 where
  pub pipeline : PipelineDefinition
  pub downstream : ColumnRef
  pub path : List LineageEdge

abbrev pub criticality_rank : PipelineCriticality → ℕ
criticality_rank low = 0
criticality_rank medium = 1
criticality_rank high = 2
criticality_rank critical = 3

-- `edges_by_upstream`
abbrev pub LineageGraph : Type 0
LineageGraph = Dict ColumnRef (List LineageEdge)

abbrev pub or_empty {ℓ} : {A : Type ℓ} → Option (List A) → List A
or_empty none = []
or_empty (some xs) = xs

-- `grouped[edge.upstream].append(edge)` for each edge
group_into : LineageGraph → List LineageEdge → LineageGraph
group_into grouped [] = grouped
group_into grouped (e ∷ es) =
    group_into (Dict.put e.upstream (or_empty (Dict.get e.upstream grouped) ++ e ∷ []) grouped) es

abbrev pub edge_sort_key : LineageEdge → ((String × String) × String) × String
edge_sort_key e =
    (((e.pipeline.key, e.downstream.dataset.schema), e.downstream.dataset.table), e.downstream.name)

pub lineage_graph : List LineageEdge → LineageGraph
unfolding group_into
lineage_graph edges = map (λ (c, es). (c, sort_by edge_sort_key es)) (group_into [] edges)

-- `self.edges_by_upstream.get(column, ())`
pub edges_from : LineageGraph → ColumnRef → List LineageEdge
edges_from graph column = or_empty (Dict.get column graph)

-- ---------------------------------------------------------------- the search

abbrev pub ImpactKey : Type 0
ImpactKey = String × ColumnRef

abbrev pub edge_key : LineageEdge → ImpactKey
edge_key e = (e.pipeline.key, e.downstream)

pub record Search : Type 0 where
  pub queue : List (ColumnRef × List LineageEdge)
  pub visited : List ImpactKey
  pub found : Dict ImpactKey PipelineImpact

-- what the inner loop does with a key that was not visited
pub add_impact : List LineageEdge → Search → LineageEdge → Search
add_impact path s e =
    let next_path = path ++ e ∷ [] in
    record {
      queue = s.queue ++ (e.downstream, next_path) ∷ [];
      visited = edge_key e ∷ s.visited;
      found =
          Dict.put (edge_key e)
            (record { pipeline = e.pipeline; downstream = e.downstream; path = next_path }) s.found;
    }

-- the body of the inner loop
pub visit_edge : List LineageEdge → Search → LineageEdge → Search
unfolding add_impact
visit_edge path s e = if contains (edge_key e) s.visited then s else add_impact path s e

pub visit_edges : List LineageEdge → Search → List LineageEdge → Search
unfolding visit_edge
visit_edges path s [] = s
visit_edges path s (e ∷ es) = visit_edges path (visit_edge path s e) es

abbrev pub impact_sort_key : PipelineImpact → (ℤ × String) × String
impact_sort_key i = (
  (negate (criticality_rank i.pipeline.criticality), i.pipeline.key),
  qualified_name i.downstream,
)

module _ (graph : LineageGraph) where
  -- one round of the `while` loop, after (column, path) left the queue
  pub expand : ColumnRef → List LineageEdge → List (ColumnRef × List LineageEdge) → Search → Search
  unfolding visit_edges edges_from
  expand column path rest s = visit_edges path (record s { queue = rest }) (edges_from graph column)

  pub search_loop : ℕ → Search → Option Search
  search_loop zero s = elim s.queue [ [] ↦ some s | _ ∷ _ ↦ none ]
  search_loop (suc fuel) s = elim s.queue [
    | [] ↦ some s
    | (column, path) ∷ rest ↦ search_loop fuel (expand column path rest s)
  ]

  pub initial : List ColumnRef → Search
  initial columns = record { queue = map (λ c. (c, [])) columns; visited = []; found = [] }

  pub impacts_for_columns : ℕ → List ColumnRef → Option (List PipelineImpact)
  impacts_for_columns fuel columns = elim (search_loop fuel (initial columns)) [
    | none ↦ none
    | some s ↦ some (sort_by impact_sort_key (values s.found))
  ]

  unfoldable pub impacts : ℕ → List SchemaChange → Option (List PipelineImpact)
  impacts fuel changes =
      impacts_for_columns fuel (map change_ref (filter (λ c. c.severity == breaking) changes))
