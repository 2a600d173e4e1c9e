-- ===== src/Changes/Guard/Rows.antt =====
-- The lineage that the query of a pipeline check reads from the tables.

use schema_sentry.Prelude.{
  List, Memᴰ, ◌≡◌, ◌↔◌, sym, subst, ◌==◌, ℕ_eq, map, filter, Memᴰ-concat_map, Memᴰ-filter,
  mem-map_of_mem, mem_of_mem-map,
}
use schema_sentry.Domain.Lineage.{LineageEdge}
use schema_sentry.Store.{Db, PipelineRow, DatasetRow, LineageEdgeRow}
use schema_sentry.Changes.Guard.{domain_edge, edges_of_row, lineage_edges}

-- The rows that an edge of the lineage is read from.
pub record EdgeRows (db : Db) (e : LineageEdge) : Type 0 where
  pub row : LineageEdgeRow
  pub pipeline : PipelineRow
  pub upstream : DatasetRow
  pub downstream : DatasetRow
  pub stored : Memᴰ row db.edges
  pub has_pipeline : Memᴰ pipeline db.pipelines
  pub has_upstream : Memᴰ upstream db.datasets
  pub has_downstream : Memᴰ downstream db.datasets
  pub pipeline_id : pipeline.id ≡ row.pipeline_id
  pub upstream_id : upstream.id ≡ row.upstream_dataset_id
  pub downstream_id : downstream.id ≡ row.downstream_dataset_id
  pub is : e ≡ domain_edge row pipeline upstream downstream

module _ (db : Db) (e : LineageEdge) where
  abbrev downstreams : LineageEdgeRow → List DatasetRow
  downstreams r = filter (λ d. d.id == r.downstream_dataset_id) db.datasets

  abbrev upstreams : LineageEdgeRow → List DatasetRow
  upstreams r = filter (λ u. u.id == r.upstream_dataset_id) db.datasets

  abbrev pipelines : LineageEdgeRow → List PipelineRow
  pipelines r = filter (λ p. p.id == r.pipeline_id) db.pipelines

  -- The lineage holds the edges that the joined rows give.
  pub Memᴰ-lineage_edges : Memᴰ e (lineage_edges db) ↔ EdgeRows db e
  unfolding lineage_edges edges_of_row
  Memᴰ-lineage_edges = (to, from)
    where
      to : Memᴰ e (lineage_edges db) → EdgeRows db e
      to m =
          let (r, stored, m1) = (Memᴰ-concat_map (edges_of_row db) e db.edges).0 m in
          let (p, mp, m2) = (Memᴰ-concat_map _ e (pipelines r)).0 m1 in
          let (u, mu, m3) = (Memᴰ-concat_map _ e (upstreams r)).0 m2 in
          let (d, md, is) = mem_of_mem-map (domain_edge r p u) (downstreams r) m3 in
          let (p_in, p_id) = (Memᴰ-filter _ p db.pipelines).0 mp in
          let (u_in, u_id) = (Memᴰ-filter _ u db.datasets).0 mu in
          let (d_in, d_id) = (Memᴰ-filter _ d db.datasets).0 md in
          record {
            row = r;
            pipeline = p;
            upstream = u;
            downstream = d;
            stored = stored;
            has_pipeline = p_in;
            has_upstream = u_in;
            has_downstream = d_in;
            pipeline_id = (ℕ_eq.test_iff p.id r.pipeline_id).0 p_id;
            upstream_id = (ℕ_eq.test_iff u.id r.upstream_dataset_id).0 u_id;
            downstream_id = (ℕ_eq.test_iff d.id r.downstream_dataset_id).0 d_id;
            is = is;
          }

      from : EdgeRows db e → Memᴰ e (lineage_edges db)
      from h =
          let md =
            (Memᴰ-filter (λ d. d.id == h.row.downstream_dataset_id) h.downstream db.datasets).1 (
              h.has_downstream,
              (ℕ_eq.test_iff h.downstream.id h.row.downstream_dataset_id).1 h.downstream_id,
            ) in
          let mu = (Memᴰ-filter (λ u. u.id == h.row.upstream_dataset_id) h.upstream db.datasets).1 (
            h.has_upstream,
            (ℕ_eq.test_iff h.upstream.id h.row.upstream_dataset_id).1 h.upstream_id,
          ) in
          let mp =
            (Memᴰ-filter (λ p. p.id == h.row.pipeline_id) h.pipeline db.pipelines).1
              (h.has_pipeline, (ℕ_eq.test_iff h.pipeline.id h.row.pipeline_id).1 h.pipeline_id) in
          let here =
            subst (λ x. Memᴰ x (map (domain_edge h.row h.pipeline h.upstream) (downstreams h.row)))
              (sym h.is)
              (mem-map_of_mem (domain_edge h.row h.pipeline h.upstream) (downstreams h.row) md) in
          (Memᴰ-concat_map (edges_of_row db) e db.edges).1 (
            h.row,
            h.stored,
            (Memᴰ-concat_map _ e (pipelines h.row)).1
                (h.pipeline, mp, (Memᴰ-concat_map _ e (upstreams h.row)).1 (h.upstream, mu, here)),
          )
