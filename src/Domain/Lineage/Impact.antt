-- ===== src/Domain/Lineage/Impact.antt =====
-- What the search for impacts promises.
use mathlib.Core.List.Memᴰ
use mathlib.Core.Logic.{⊎_elim}
use schema_sentry.Prelude.{
  ℕ, ◌+◌, ◌≤◌, String, ◌≡◌, ◌↔◌, inl, inr, refl, sym, ap, ◌∙◌, subst, Bool, true, some, List, [],
  Memᴰ, arith, ◌==◌, contains, pair_eq, String_eq, length, any, any_of_mem, mem_of_any,
}
use schema_sentry.Prelude.Dict.{values, mem-values_of_get}
use schema_sentry.Prelude.Int.{ℤ_ord}
use schema_sentry.Prelude.Order.{String_ord, pair_ord}
use schema_sentry.Prelude.Sort.{sort_by, Memᴰ-sort_by, IsSortedBy, sort_by-IsSortedBy}
use schema_sentry.Domain.Models.{ColumnRef, ColumnRef_eq}
use schema_sentry.Domain.Lineage.{
  LineageEdge, PipelineImpact, edge_key, lineage_graph, Search, initial, impact_sort_key,
  impacts_for_columns,
}
use schema_sentry.Domain.Lineage.Invariant.{Trail, start, along, IsImpact, impact_key, Known}
use schema_sentry.Domain.Lineage.Rounds.{Inv, search_loop-Inv, initial-Inv, work-initial}

module _ (edges : List LineageEdge) (columns : List ColumnRef) where
  -- With an empty queue what is known is expanded.
  visited_of_Known :
      (s : Search)
      → Inv edges columns [] s
      → s.queue ≡ []
      → (c : ColumnRef) → Known edges columns c s
      → (e : LineageEdge) → Memᴰ e edges
      → e.upstream ≡ c
      → contains (edge_key e) s.visited ≡ true
  visited_of_Known s h empty c known e m u =
      ⊎_elim (λ (q, n). absurd (Memᴰ.not-nil (subst (Memᴰ (c, q)) empty n)))
        (λ done. ⊎_elim (λ v. v) (λ n. absurd (Memᴰ.not-nil n)) (done e m u)) (h.closed c known)

  -- A column at the end of a walk is known once the edges of the columns before it are visited.
  Known-of_Trail :
      (s : Search)
      → Inv edges columns [] s
      → s.queue ≡ []
      → (c : ColumnRef) (p : List LineageEdge) → Trail edges columns c p
      → Known edges columns c s
  Known-of_Trail s h empty c p (start m) = inl m
  Known-of_Trail s h empty c p (along {c = b} {p = q} e t m u) =
      let known = Known-of_Trail s h empty b q t in
      inr (edge_key e, visited_of_Known s h empty b known e m u, refl)

  -- The end of the search: all edges out of what the columns reach are visited.
  finished :
      (s : Search)
      → Inv edges columns [] s
      → s.queue ≡ []
      → (e : LineageEdge) (p : List LineageEdge) → Trail edges columns e.upstream p
      → Memᴰ e edges
      → contains (edge_key e) s.visited ≡ true
  finished s h empty e p t m =
      visited_of_Known s h empty e.upstream (Known-of_Trail s h empty e.upstream p t) e m refl

  found_for :
      (s : Search)
      → Inv edges columns [] s
      → s.queue ≡ []
      → (e : LineageEdge) (p : List LineageEdge) → Memᴰ e edges
      → Trail edges columns e.upstream p
      → (i : PipelineImpact) × Memᴰ i (sort_by impact_sort_key (values s.found))
        × (impact_key i ≡ edge_key e)
  found_for s h empty e p m t =
      let (i, got, named) = h.named (edge_key e) (finished s h empty e p t m) in
      (
        i,
        (Memᴰ-sort_by impact_sort_key i (values s.found)).1
            (mem-values_of_get (edge_key e) s.found got),
        named,
      )

  -- With as much fuel as there are columns and edges the search ends. It returns impacts in the order of
  -- criticality, pipeline and column. Each is a walk from one of the columns along edges of the graph,
  -- with the pipeline and the target of its last edge; and for each edge that a walk reaches there is an
  -- impact on the edge's pipeline and target.
  pub impacts_exact :
      (fuel : ℕ)
      → length columns + length edges ≤ fuel
      → (impacts : List PipelineImpact) × (impacts_for_columns (lineage_graph edges) fuel columns
          ≡ some impacts)
        × IsSortedBy impact_sort_key impacts
        × ((i : PipelineImpact) → Memᴰ i impacts → IsImpact edges columns i)
        × ((e : LineageEdge) (p : List LineageEdge)
            → Memᴰ e edges
            → Trail edges columns e.upstream p
            → (i : PipelineImpact) × Memᴰ i impacts × (impact_key i ≡ edge_key e))
  unfolding impacts_for_columns
  impacts_exact fuel enough =
      let (s, ends, h, empty) =
        search_loop-Inv edges columns fuel (initial (lineage_graph edges) columns)
          (omega (arith, work-initial edges columns)) (initial-Inv edges columns) in
      (
        sort_by impact_sort_key (values s.found),
        rw (ends, impacts_for_columns) refl,
        sort_by-IsSortedBy impact_sort_key (values s.found),
        λ i m. h.sound.impacts i ((Memᴰ-sort_by impact_sort_key i (values s.found)).0 m),
        found_for s h empty,
      )

  -- Some walk from the columns ends with an edge of the pipeline.
  abbrev pub Affects : String → Type 0
  Affects key =
      (e : LineageEdge) × (p : List LineageEdge) × Memᴰ e edges
      × Trail edges columns e.upstream p
      × (e.pipeline.key ≡ key)

  -- the test `any(impact.pipeline.key == key for impact in impacts)`
  abbrev pub names_pipeline : String → List PipelineImpact → Bool
  names_pipeline key is = any (λ i. i.pipeline.key == key) is

  -- The search ends, and names a pipeline exactly if the columns affect it.
  pub impacts-names_pipeline :
      (fuel : ℕ) (key : String)
      → length columns + length edges ≤ fuel
      → (is : List PipelineImpact) × (impacts_for_columns (lineage_graph edges) fuel columns
          ≡ some is)
        × ((names_pipeline key is ≡ true) ↔ Affects key)
  impacts-names_pipeline fuel key enough =
      let (is, ends, _, sound, complete) = impacts_exact fuel enough in
      (is, ends, (affects is sound, named is complete))
    where
      affects :
          (is : List PipelineImpact)
          → ((i : PipelineImpact) → Memᴰ i is → IsImpact edges columns i)
          → names_pipeline key is ≡ true
          → Affects key
      affects is sound h =
          let (i, m, same) = mem_of_any (λ i. i.pipeline.key == key) is h in
          let impact = sound i m in
          (
            impact.last,
            impact.before,
            impact.edge,
            subst (λ c. Trail edges columns c impact.before) (sym impact.joins) impact.walk,
            sym (ap (λ j. j.pipeline.key) impact.is)
                ∙ (String_eq.test_iff i.pipeline.key key).0 same,
          )

      named :
          (is : List PipelineImpact)
          → ((e : LineageEdge) (p : List LineageEdge)
              → Memᴰ e edges
              → Trail edges columns e.upstream p
              → (i : PipelineImpact) × Memᴰ i is × (impact_key i ≡ edge_key e))
          → Affects key
          → names_pipeline key is ≡ true
      named is complete (e, p, m, t, same) =
          let (i, n, key_same) = complete e p m t in
          any_of_mem (λ i. i.pipeline.key == key) is n
            ((String_eq.test_iff i.pipeline.key key).1 (ap (λ k. k.0) key_same ∙ same))
