-- ===== src/Catalog/Synced.antt =====
-- What `CatalogService.sync` does with a configuration.

use schema_sentry.Prelude.{
  Option, List, map, length, Memᴰ, ◌≡◌, ◌↔◌, ◌⊎◌, inl, inr, refl, sym, ap, ◌∙◌, subst, arith,
  String_eq, to_set, Memᴰ-to_set, mem_of_mem-map, mem-map_of_mem, length-map, IsUnique,
  eq_of_IsUnique-map,
}
use schema_sentry.Prelude.Order.{String_ord, pair_ord}
use schema_sentry.Prelude.Result.{ok, err, Result-cases, ok_injective}
use schema_sentry.Prelude.Sort.{sort_by, Memᴰ-sort_by, length-sort_by}
use schema_sentry.Domain.Lineage.{PipelineDefinition, LineageEdge, LineageEdge_eq}
use schema_sentry.Store.{Db}
use schema_sentry.Changes.Guard.{lineage_edges}
use schema_sentry.Catalog.Config.{
  CatalogError, PipelineContent, CatalogConfig, PipelineConfig, load,
}
use schema_sentry.Catalog.Sync.{
  known_columns, definition, all_edges, edge_order, CatalogSyncResult, sync_config, sync,
}
use schema_sentry.Catalog.Sync.Edges.{IsDeclared, all_edges-eq-ok}
use schema_sentry.Catalog.Sync.Complete.{IsSyncable, all_edges-syncable, all_edges-IsSyncable}
use schema_sentry.Catalog.Loaded.{load-eq-ok}
use schema_sentry.Catalog.Valid.{IsValid}
use schema_sentry.Catalog.Accepted.{load-eq-ok_iff}
use schema_sentry.Catalog.Correct.{HasDatasetIds, HasPipelineKeys, replace_catalog-lineage}

-- The content declares a valid configuration, each pipeline of which can be synced.
pub record IsRegistrable (db : Db) (content : Option (List PipelineContent)) : Type 0 where
  pub config : CatalogConfig
  pub valid : IsValid content config
  pub syncable : (c : PipelineConfig) → Memᴰ c config.pipelines → IsSyncable (known_columns db) c

-- The content was registered: the lineage of the store is the one that the configuration declares.
pub record IsRegistered (content : Option (List PipelineContent)) (db : Db) (r : CatalogSyncResult)
    (db' : Db) : Type 0 where
  pub registrable : IsRegistrable db content
  pub lineage :
      (e : LineageEdge) → Memᴰ e (lineage_edges db') ↔ IsDeclared registrable.config.pipelines e
  pub counted : r.pipeline_count ≡ length registrable.config.pipelines

abbrev ordered_pipelines : CatalogConfig → List PipelineDefinition
ordered_pipelines config = sort_by (λ p. p.key) (map definition config.pipelines)

abbrev ordered_edges : List LineageEdge → List LineageEdge
ordered_edges edges = sort_by edge_order (to_set edges)

Memᴰ-ordered_edges :
    (e : LineageEdge) (es : List LineageEdge) → Memᴰ e (ordered_edges es) ↔ Memᴰ e es
Memᴰ-ordered_edges e es = ground (arith, Memᴰ-sort_by edge_order e (to_set es), Memᴰ-to_set e es)

ordered_pipelines-HasPipelineKeys :
    (config : CatalogConfig)
    → IsUnique (map (λ p. p.key) config.pipelines)
    → HasPipelineKeys (ordered_pipelines config)
ordered_pipelines-HasPipelineKeys config unique a b m n h =
    let ds = map definition config.pipelines in
    let (c, mc, is_c) =
      mem_of_mem-map definition config.pipelines
        ((Memᴰ-sort_by (λ (p : PipelineDefinition). p.key) a ds).0 m) in
    let (d, md, is_d) =
      mem_of_mem-map definition config.pipelines
        ((Memᴰ-sort_by (λ (p : PipelineDefinition). p.key) b ds).0 n) in
    let same =
      eq_of_IsUnique-map (λ (p : PipelineConfig). p.key) config.pipelines c d unique mc md
        (sym (ap (λ x. x.key) is_c) ∙ h ∙ ap (λ x. x.key) is_d) in
    is_c ∙ ap definition same ∙ sym is_d

definition-ordered_pipelines :
    (config : CatalogConfig) (e : LineageEdge)
    → IsDeclared config.pipelines e
    → Memᴰ e.pipeline (ordered_pipelines config)
definition-ordered_pipelines config e d =
    (Memᴰ-sort_by (λ (p : PipelineDefinition). p.key) e.pipeline
        (map definition config.pipelines)).1
      (subst (λ p. Memᴰ p (map definition config.pipelines)) (sym d.names)
        (mem-map_of_mem definition config.pipelines d.listed))

-- A configuration whose edges were collected is stored.
stored :
    (config : CatalogConfig) (es : List LineageEdge) (db : Db)
    → HasDatasetIds db
    → IsUnique (map (λ p. p.key) config.pipelines)
    → all_edges (known_columns db) config.pipelines ≡ ok es
    → (r : CatalogSyncResult) × (db' : Db) × (sync_config config db ≡ (ok r, db'))
      × ((e : LineageEdge) → Memᴰ e (lineage_edges db') ↔ IsDeclared config.pipelines e)
      × (r.pipeline_count ≡ length config.pipelines)
unfolding sync_config
stored config es db ids unique h =
    let ps = ordered_pipelines config in
    let facts = all_edges-eq-ok (known_columns db) config.pipelines es h in
    let (db', returns, lineage) =
      replace_catalog-lineage db ps (ordered_edges es) ids
        (ordered_pipelines-HasPipelineKeys config unique)
        (λ e m.
          definition-ordered_pipelines config e ((facts e).0.0 ((Memᴰ-ordered_edges e es).0 m)))
        (λ e m. let (u, d, _) = (facts e).1 ((Memᴰ-ordered_edges e es).0 m) in (u, d)) in
    let result : CatalogSyncResult = record {
      pipeline_count = length ps;
      edge_count = length (ordered_edges es);
    } in
    (
      result,
      db',
      rw (h, returns) refl,
      λ e. ground (arith, lineage e, Memᴰ-ordered_edges e es, (facts e).0),
      length-sort_by (λ (p : PipelineDefinition). p.key) (map definition config.pipelines)
          ∙ length-map definition config.pipelines,
    )

-- A sync either registers the content, or it raises, changes nothing, and the content was not registrable.
pub sync_exact :
    (content : Option (List PipelineContent)) (db : Db)
    → HasDatasetIds db
    → ((r : CatalogSyncResult) × (db' : Db) × (sync content db ≡ (ok r, db'))
        × IsRegistered content db r db')
      ⊎ ((e : CatalogError) × (sync content db ≡ (err e, db)) × ¬ IsRegistrable db content)
unfolding sync sync_config
sync_exact content db ids = elim (Result-cases (load content)) [
  | inr (e, refused) ↦ inr (
    e,
    rw (refused) refl,
    λ h. ground (arith, (load-eq-ok_iff content h.config).1 h.valid, refused),
  )
  | inl (config, loaded) ↦
      let (valid, unique) = load-eq-ok content config loaded in
      elim (Result-cases (all_edges (known_columns db) config.pipelines)) [
        | inr (e, refused) ↦ inr (
          e,
          rw (loaded, refused) refl,
          λ h.
              let same =
                ok_injective config h.config
                  (sym loaded ∙ (load-eq-ok_iff content h.config).1 h.valid) in
              let collected = all_edges-syncable (known_columns db) config.pipelines valid (
                subst
                  (λ x. (c : PipelineConfig) → Memᴰ c x.pipelines → IsSyncable (known_columns db) c)
                  (sym same) h.syncable) in
              ground (arith, collected, refused),
        )
        | inl (es, collected) ↦
            let (r, db', returns, lineage, counted) = stored config es db ids unique collected in
            inl (
              r,
              db',
              rw (loaded, sync) returns,
              record {
                registrable = record {
                  config = config;
                  valid = (load-eq-ok_iff content config).0 loaded;
                  syncable = all_edges-IsSyncable (known_columns db) config.pipelines es collected;
                };
                lineage = lineage;
                counted = counted;
              },
            )
      ]
]
