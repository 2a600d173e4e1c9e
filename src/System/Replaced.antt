-- ===== src/System/Replaced.antt =====
-- The sync of the catalogue keeps the invariant of the store.
use schema_sentry.Prelude.{
  ℕ, suc, ◌+◌, ◌≤◌, ◌<◌, String, false, Option, List, [], ◌∷◌, map, length, ◌≡◌, refl, subst, arith,
  All, ℕ_eq, String_eq, contains, ◌∷◌,
}
use schema_sentry.Prelude.Dict.{Dict, index_by}
use schema_sentry.Prelude.Exec.{lift}
use schema_sentry.Prelude.Preserves.{Preserves, continue-keeps, bind-keeps}
use schema_sentry.Domain.Enums.{AlertChannel_eq}
use schema_sentry.Domain.Lineage.{PipelineDefinition, LineageEdge}
use schema_sentry.Domain.Models.{DatasetRef, DatasetRef_eq}
use schema_sentry.Store.{DatasetRow, PipelineRow}
use schema_sentry.Store.Ids.{HasIds}
use schema_sentry.Alerts.{}
use schema_sentry.Changes.Accept.{}
use schema_sentry.Catalog.Config.{CatalogConfig, PipelineContent, load}
use schema_sentry.Catalog.Sync.{
  known_columns, all_edges, pipeline_rows, row_of_edge, add_edges, replace_catalog, sync_config,
  sync,
}
use schema_sentry.Scan.Reading.{dataset_ref}
use schema_sentry.System.Sound.{IsSound, replace_pipelines-IsSound, other_tables-IsSound}

pipeline_rows-HasIds :
    (n : ℕ) (ps : List PipelineDefinition)
    → All (λ i. n ≤ i) (map (λ p. p.id) (pipeline_rows n ps))
      × HasIds (n + length (pipeline_rows n ps)) (map (λ p. p.id) (pipeline_rows n ps))
pipeline_rows-HasIds n [] = (tt, (tt, tt))
pipeline_rows-HasIds n (p ∷ ps) =
    let (above, fresh) = pipeline_rows-HasIds (suc n) ps in
    let ids = map (λ (x : PipelineRow). x.id) (pipeline_rows (suc n) ps) in
    (
      (omega arith, weaker ids above),
      (
        (omega arith, subst (λ k. All (λ i. i < k) ids) (omega arith) fresh.0),
        (absent ids above, fresh.1),
      ),
    )
  where
    weaker : (is : List ℕ) → All (λ i. suc n ≤ i) is → All (λ i. n ≤ i) is
    weaker [] h = tt
    weaker (i ∷ is) h = (omega (arith, h.0), weaker is h.1)

    absent : (is : List ℕ) → All (λ i. suc n ≤ i) is → contains n is ≡ false
    absent [] h = refl
    absent (i ∷ is) h = ground (arith, absent is h.1, ℕ_eq.test_iff n i, h.0)

add_edges-keeps :
    (pipelines : Dict String PipelineRow) (datasets : Dict DatasetRef DatasetRow)
    (es : List LineageEdge)
    → Preserves IsSound (add_edges pipelines datasets es)
unfolding add_edges
add_edges-keeps pipelines datasets [] db h = h
add_edges-keeps pipelines datasets (e ∷ es) db h =
    bind-keeps IsSound (lift (row_of_edge pipelines datasets e)) _ (λ s k. k)
      (λ row s k.
        add_edges-keeps pipelines datasets es _ (other_tables-IsSound s k s.expected s.observed _))
      db h

replace_catalog-keeps :
    (ps : List PipelineDefinition) (es : List LineageEdge)
    → Preserves IsSound (replace_catalog ps es)
unfolding replace_catalog
replace_catalog-keeps ps es db h =
    let rows = pipeline_rows db.next_id ps in
    let cleared = other_tables-IsSound db h db.expected db.observed [] in
    let (_, ids) = pipeline_rows-HasIds db.next_id ps in
    add_edges-keeps (index_by (λ p. p.key) rows) (index_by dataset_ref db.datasets) es _
      (replace_pipelines-IsSound _ cleared rows (db.next_id + length rows) (omega arith) ids)

sync_config-keeps : (config : CatalogConfig) → Preserves IsSound (sync_config config)
unfolding sync_config
sync_config-keeps config db h =
    bind-keeps IsSound (lift (all_edges (known_columns db) config.pipelines)) _ (λ s k. k)
      (λ edges s k.
        continue-keeps IsSound (replace_catalog _ _ s) _ (replace_catalog-keeps _ _ s k)
          (λ _ t l. l))
      db h

pub sync-keeps : (content : Option (List PipelineContent)) → Preserves IsSound (sync content)
unfolding sync
sync-keeps content =
    bind-keeps IsSound (lift (load content)) sync_config (λ s k. k) sync_config-keeps
