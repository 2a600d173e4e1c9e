-- ===== src/Catalog/Sync/Complete.antt =====
-- Configurations whose edges are all collected: the loops of `CatalogService.sync` return on them.
use mathlib.Core.List.Memᴰ
use mathlib.Core.Logic.{⊎_elim}
use schema_sentry.Prelude.{
  String, true, List, [], ◌∷◌, map, all, length, ◌==◌, ℕ_eq, String_eq, concat_map, Memᴰ, ◌≡◌, ◌≢◌,
  inl, inr, refl, sym, subst, arith, contains_iff, Bool-cases, Memᴰ-append, Memᴰ-cons,
}
use schema_sentry.Prelude.Result.{ok, returned}
use schema_sentry.Prelude.Text.{split_on}
use schema_sentry.Domain.Lineage.{PipelineDefinition, LineageEdge}
use schema_sentry.Domain.Models.{DatasetRef, ColumnRef, ColumnRef_eq}
use schema_sentry.Catalog.Config.{
  ColumnSetConfig, PipelineConfig, validate_column_set, validate_dataset_name,
}
use schema_sentry.Catalog.Sync.{
  dataset_columns, split_dataset, column_refs, edge, edges_to, edges_between, definition,
  pipeline_edges, all_edges,
}
use schema_sentry.Catalog.Sync.Columns.{column, dataset_of_parts, declared_columns}
use schema_sentry.Catalog.Sync.Edges.{cross, pipeline_edges-eq-ok}

dataset_columns-known :
    (dataset : DatasetRef) (names : List String) (known : List ColumnRef)
    → ((r : ColumnRef) → Memᴰ r (map (column dataset) names) → Memᴰ r known)
    → dataset_columns dataset names known ≡ ok (map (column dataset) names)
unfolding dataset_columns
dataset_columns-known dataset [] known h = refl
dataset_columns-known dataset (name ∷ names) known h =
    let here =
      (contains_iff (column dataset name) known).1 (h (column dataset name) (Memᴰ.head refl)) in
    rw (here, dataset_columns-known dataset names known (λ r m. h r (Memᴰ.tail m))) refl

split_dataset-pair :
    (parts : List String)
    → (length parts == 2) ≡ true
    → split_dataset parts ≡ ok (dataset_of_parts parts)
unfolding split_dataset
split_dataset-pair [] h = absurd (ground (arith, h))
split_dataset-pair (a ∷ []) h = absurd (ground (arith, h))
split_dataset-pair (a ∷ b ∷ []) h = refl
split_dataset-pair (a ∷ b ∷ c ∷ rest) h = absurd (ground (arith, h))

split_dataset-valid :
    (s : ColumnSetConfig)
    → validate_column_set s ≡ true
    → split_dataset (split_on 46 s.dataset) ≡ ok (dataset_of_parts (split_on 46 s.dataset))
unfolding validate_column_set validate_dataset_name
split_dataset-valid s h = split_dataset-pair (split_on 46 s.dataset) (ground (arith, h))

column_refs-known :
    (sets : List ColumnSetConfig) (known : List ColumnRef)
    → all validate_column_set sets ≡ true
    → ((r : ColumnRef) → Memᴰ r (declared_columns sets) → Memᴰ r known)
    → column_refs sets known ≡ ok (declared_columns sets)
unfolding column_refs declared_columns
column_refs-known [] known valid h = refl
column_refs-known (s ∷ sets) known valid h =
    let dataset = dataset_of_parts (split_on 46 s.dataset) in
    let here = map (column dataset) s.columns in
    let more = declared_columns sets in
    rw
      (
        split_dataset-valid s (ground (arith, valid)),
        dataset_columns-known dataset s.columns known
            (λ r m. h r ((Memᴰ-append r here more).1 (inl m))),
        column_refs-known sets known (ground (arith, valid))
            (λ r m. h r ((Memᴰ-append r here more).1 (inr m))),
      )
      refl

module _ (p : PipelineDefinition) where
  edges_to-apart :
      (u : ColumnRef) (outputs : List ColumnRef)
      → ((d : ColumnRef) → Memᴰ d outputs → u ≢ d)
      → edges_to p u outputs ≡ ok (map (edge p u) outputs)
  unfolding edges_to
  edges_to-apart u [] h = refl
  edges_to-apart u (d ∷ ds) h = elim (Bool-cases (u == d)) [
    | inl loop ↦ absurd (h d (Memᴰ.head refl) ((ColumnRef_eq.test_iff u d).0 loop))
    | inr apart ↦ rw (apart, edges_to-apart u ds (λ c m. h c (Memᴰ.tail m))) refl
  ]

  edges_between-apart :
      (inputs outputs : List ColumnRef)
      → ((u d : ColumnRef) → Memᴰ u inputs → Memᴰ d outputs → u ≢ d)
      → edges_between p inputs outputs ≡ ok (concat_map (λ u. map (edge p u) outputs) inputs)
  unfolding edges_between
  edges_between-apart [] outputs h = refl
  edges_between-apart (u ∷ us) outputs h =
      rw
        (
          edges_to-apart u outputs (λ d n. h u d (Memᴰ.head refl) n),
          edges_between-apart us outputs (λ a d m n. h a d (Memᴰ.tail m) n),
        )
        refl

-- The columns of a pipeline are known, and none is both an input and an output.
pub record IsSyncable (known : List ColumnRef) (c : PipelineConfig) : Type 0 where
  pub inputs_known : (u : ColumnRef) → Memᴰ u (declared_columns c.inputs) → Memᴰ u known
  pub outputs_known : (d : ColumnRef) → Memᴰ d (declared_columns c.outputs) → Memᴰ d known
  pub apart :
      (u d : ColumnRef)
      → Memᴰ u (declared_columns c.inputs)
      → Memᴰ d (declared_columns c.outputs)
      → u ≢ d

-- what the validators of the column sets leave
unfoldable pub HasValidSets : PipelineConfig → Type 0
HasValidSets c =
    (all validate_column_set c.inputs ≡ true) × (all validate_column_set c.outputs ≡ true)

pipeline_edges-syncable :
    (known : List ColumnRef) (c : PipelineConfig)
    → HasValidSets c
    → IsSyncable known c
    → pipeline_edges known c ≡ ok (cross c)
unfolding pipeline_edges HasValidSets
pipeline_edges-syncable known c valid h =
    rw
      (
        column_refs-known c.inputs known valid.0 h.inputs_known,
        column_refs-known c.outputs known valid.1 h.outputs_known,
      )
      (edges_between-apart (definition c) (declared_columns c.inputs) (declared_columns c.outputs)
        h.apart)

-- The loop over the pipelines returns where each of them can be synced.
pub all_edges-syncable :
    (known : List ColumnRef) (cs : List PipelineConfig)
    → ((c : PipelineConfig) → Memᴰ c cs → HasValidSets c)
    → ((c : PipelineConfig) → Memᴰ c cs → IsSyncable known c)
    → all_edges known cs ≡ ok (concat_map cross cs)
unfolding all_edges
all_edges-syncable known [] valid h = refl
all_edges-syncable known (c ∷ cs) valid h =
    rw
      (
        pipeline_edges-syncable known c (valid c (Memᴰ.head refl)) (h c (Memᴰ.head refl)),
        all_edges-syncable known cs (λ x m. valid x (Memᴰ.tail m)) (λ x m. h x (Memᴰ.tail m)),
      )
      refl

-- Where it returns, each of the pipelines can be synced.
pub all_edges-IsSyncable :
    (known : List ColumnRef) (cs : List PipelineConfig) (es : List LineageEdge)
    → all_edges known cs ≡ ok es
    → (c : PipelineConfig) → Memᴰ c cs
    → IsSyncable known c
unfolding all_edges
all_edges-IsSyncable known [] es h c m = absurd (Memᴰ.not-nil m)
all_edges-IsSyncable known (c0 ∷ cs) es h c m =
    let (here, first, h1) = returned es (pipeline_edges known c0) _ h in
    let (more, others, _) = returned es (all_edges known cs) _ h1 in
    let (_, known_in, known_out, apart) = pipeline_edges-eq-ok known c0 here first in
    let head_syncable : IsSyncable known c0 = record {
      inputs_known = known_in;
      outputs_known = known_out;
      apart = apart;
    } in
    ⊎_elim (λ same. subst (IsSyncable known) (sym same) head_syncable)
      (all_edges-IsSyncable known cs more others c) ((Memᴰ-cons c c0 cs).0 m)
