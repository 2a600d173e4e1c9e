-- ===== src/Catalog/Correct.antt =====
-- After a sync the lineage is the one that the catalogue declares.

use schema_sentry.Prelude.{
  ◌+◌, String, some, List, [], length, Memᴰ, ◌≡◌, ◌↔◌, refl, sym, ap, ◌∙◌, subst, arith, String_eq,
  Memᴰ-to_set, mem_of_mem-map,
}
use schema_sentry.Prelude.Dict
use schema_sentry.Prelude.Dict.{Dict, index_by}
use schema_sentry.Prelude.Order.{String_ord, pair_ord}
use schema_sentry.Prelude.Result.{ok}
use schema_sentry.Domain.Lineage.{PipelineDefinition, LineageEdge, LineageEdge_eq}
use schema_sentry.Domain.Models.{DatasetRef, DatasetRef_eq, ColumnRef, ColumnRef_eq}
use schema_sentry.Store.{Db, DatasetRow, PipelineRow, LineageEdgeRow}
use schema_sentry.Scan.Joins.{Memᴰ-joined}
use schema_sentry.Scan.Reading.{dataset_ref, joined}
use schema_sentry.Changes.Guard.{pipeline_definition, domain_edge, lineage_edges}
use schema_sentry.Changes.Guard.Rows.{EdgeRows, Memᴰ-lineage_edges}
use schema_sentry.Catalog.Sync.{known_columns, known_column, pipeline_rows, replace_catalog}
use schema_sentry.Catalog.Sync.Rows.{
  found_by, of_found, pipeline_rows-definition, pipeline_rows-id, row_of_definition, Refers,
  stored_row, Added, add_edges-Added,
}

-- the primary key of the datasets
abbrev pub HasDatasetIds : Db → Type 0
HasDatasetIds db =
    (a b : DatasetRow) → Memᴰ a db.datasets → Memᴰ b db.datasets → a.id ≡ b.id → a ≡ b

-- what `validate_pipeline_identity` checks
abbrev pub HasPipelineKeys : List PipelineDefinition → Type 0
HasPipelineKeys ps = (a b : PipelineDefinition) → Memᴰ a ps → Memᴰ b ps → a.key ≡ b.key → a ≡ b

-- A known column lies in a dataset of the store.
dataset_of_known :
    (db : Db) (r : ColumnRef)
    → Memᴰ r (known_columns db)
    → (d : DatasetRow) × Memᴰ d db.datasets × (dataset_ref d ≡ r.dataset)
unfolding known_columns
dataset_of_known db r m =
    let (row, n, is) =
      mem_of_mem-map known_column (joined (λ c. c.dataset_id) db.datasets db.expected)
        ((Memᴰ-to_set r _).0 m) in
    let (_, registered, _) =
      (Memᴰ-joined (λ c. c.dataset_id) db.datasets row.0 row.1 db.expected).0 n in
    (row.1, registered, sym (ap (λ x. x.dataset) is))

module _ (db : Db) (ps : List PipelineDefinition) (es : List LineageEdge) (ids : HasDatasetIds db)
    (keys : HasPipelineKeys ps) (pipelines_of : (e : LineageEdge) → Memᴰ e es → Memᴰ e.pipeline ps)
    (known : (e : LineageEdge)
      → Memᴰ e es
      → Memᴰ e.upstream (known_columns db) × Memᴰ e.downstream (known_columns db)) where
  abbrev new_rows : List PipelineRow
  new_rows = pipeline_rows db.next_id ps

  abbrev by_key : Dict String PipelineRow
  by_key = index_by (λ p. p.key) new_rows

  abbrev by_ref : Dict DatasetRef DatasetRow
  by_ref = index_by dataset_ref db.datasets

  refers : (e : LineageEdge) → Memᴰ e es → Refers by_key by_ref e
  refers e m =
      let (p0, mp, is) = row_of_definition db.next_id ps e.pipeline (pipelines_of e m) in
      let (p, has_p, _, _) = found_by (λ (q : PipelineRow). q.key) new_rows p0 mp in
      let (u0, mu, is_u) = dataset_of_known db e.upstream (known e m).0 in
      let (u, has_u, _, _) = found_by dataset_ref db.datasets u0 mu in
      let (d0, md, is_d) = dataset_of_known db e.downstream (known e m).1 in
      let (d, has_d, _, _) = found_by dataset_ref db.datasets d0 md in
      record {
        pipeline = p;
        upstream = u;
        downstream = d;
        has_pipeline = subst (λ k. Dict.get k by_key ≡ some p) (ap (λ x. x.key) is) has_p;
        has_upstream = subst (λ k. Dict.get k by_ref ≡ some u) is_u has_u;
        has_downstream = subst (λ k. Dict.get k by_ref ≡ some d) is_d has_d;
      }

  -- The row of an edge, joined with the rows that it refers to, is the edge.
  domain_edge-stored :
      (e : LineageEdge)
      → Memᴰ e es
      → (h : Refers by_key by_ref e)
      → e ≡ domain_edge (stored_row by_key by_ref e h) h.pipeline h.upstream h.downstream
  domain_edge-stored e m h =
      let (mp, kp) =
        of_found (λ (q : PipelineRow). q.key) new_rows e.pipeline.key h.pipeline h.has_pipeline in
      let (_, ru) = of_found dataset_ref db.datasets e.upstream.dataset h.upstream h.has_upstream in
      let (_, rd) =
        of_found dataset_ref db.datasets e.downstream.dataset h.downstream h.has_downstream in
      let same =
        keys (pipeline_definition h.pipeline) e.pipeline
          (pipeline_rows-definition db.next_id ps h.pipeline mp).0 (pipelines_of e m) kp in
      ground (arith, same, ru, rd)

  -- the store after `replace_catalog`
  abbrev replaced_db : List LineageEdgeRow → Db
  replaced_db rows = record db {
    edges = rows;
    pipelines = new_rows;
    next_id = db.next_id + length new_rows;
  }

  rows_of_edge :
      (rows : List LineageEdgeRow)
      → Added by_key by_ref es rows
      → (e : LineageEdge) → Memᴰ e es
      → EdgeRows (replaced_db rows) e
  rows_of_edge rows added e m =
      let (h, stored) = added.of_edge e m in
      let (mp, _) =
        of_found (λ (q : PipelineRow). q.key) new_rows e.pipeline.key h.pipeline h.has_pipeline in
      let (mu, _) = of_found dataset_ref db.datasets e.upstream.dataset h.upstream h.has_upstream in
      let (md, _) =
        of_found dataset_ref db.datasets e.downstream.dataset h.downstream h.has_downstream in
      record {
        row = stored_row by_key by_ref e h;
        pipeline = h.pipeline;
        upstream = h.upstream;
        downstream = h.downstream;
        stored = stored;
        has_pipeline = mp;
        has_upstream = mu;
        has_downstream = md;
        pipeline_id = refl;
        upstream_id = refl;
        downstream_id = refl;
        is = domain_edge-stored e m h;
      }

  edge_of_rows :
      (rows : List LineageEdgeRow)
      → Added by_key by_ref es rows
      → (e : LineageEdge) → EdgeRows (replaced_db rows) e
      → Memᴰ e es
  edge_of_rows rows added e r =
      let (e0, h, m, is) = added.of_row r.row r.stored in
      let (mp, _) =
        of_found (λ (q : PipelineRow). q.key) new_rows e0.pipeline.key h.pipeline h.has_pipeline in
      let (mu, _) =
        of_found dataset_ref db.datasets e0.upstream.dataset h.upstream h.has_upstream in
      let (md, _) =
        of_found dataset_ref db.datasets e0.downstream.dataset h.downstream h.has_downstream in
      let p =
        pipeline_rows-id db.next_id ps r.pipeline h.pipeline r.has_pipeline mp
          (r.pipeline_id ∙ ap (λ x. x.pipeline_id) is) in
      let u =
        ids r.upstream h.upstream r.has_upstream mu
          (r.upstream_id ∙ ap (λ x. x.upstream_dataset_id) is) in
      let d =
        ids r.downstream h.downstream r.has_downstream md
          (r.downstream_id ∙ ap (λ x. x.downstream_dataset_id) is) in
      subst (λ x. Memᴰ x es)
        (domain_edge-stored e0 m h
          ∙ sym (
              r.is
              ∙ joined_eq r.row (stored_row by_key by_ref e0 h) r.pipeline h.pipeline r.upstream
                  h.upstream r.downstream h.downstream is p u d))
        m
    where
      joined_eq :
          (row row' : LineageEdgeRow) (p p' : PipelineRow) (u u' d d' : DatasetRow)
          → row ≡ row'
          → p ≡ p'
          → u ≡ u'
          → d ≡ d'
          → domain_edge row p u d ≡ domain_edge row' p' u' d'
      joined_eq row row' p p' u u' d d' a b c e = cc

  -- `replace_catalog` returns, and the lineage of the store then holds the given edges and no other.
  pub replace_catalog-lineage :
      (db' : Db) × (replace_catalog ps es db ≡ (ok tt, db'))
      × ((e : LineageEdge) → Memᴰ e (lineage_edges db') ↔ Memᴰ e es)
  unfolding replace_catalog
  replace_catalog-lineage =
      let (rows, ends, added) =
        add_edges-Added by_key by_ref es
          (record db { edges = []; pipelines = new_rows; next_id = db.next_id + length new_rows })
          refers in
      (
        replaced_db rows,
        ends,
        λ e. (
          λ m. edge_of_rows rows added e ((Memᴰ-lineage_edges (replaced_db rows) e).0 m),
          λ m. (Memᴰ-lineage_edges (replaced_db rows) e).1 (rows_of_edge rows added e m),
        ),
      )
