-- ===== src/Domain/Lineage/Graph.antt =====
-- The grouped and sorted edges of the graph are the edges that it was built from.
use mathlib.Core.List.Memᴰ
use mathlib.Core.Logic.{⊎_elim}
use schema_sentry.Prelude.{
  ◌≡◌, ◌↔◌, ◌⊎◌, inl, List, [], ◌∷◌, ◌++◌, map, Memᴰ, Memᴰ-append, Memᴰ-cons, arith,
}
use schema_sentry.Prelude.Dict
use schema_sentry.Prelude.Dict.{Dict, get-put}
use schema_sentry.Prelude.Order.{String_ord, pair_ord}
use schema_sentry.Prelude.Sort.{sort_by, Memᴰ-sort_by}
use schema_sentry.Domain.Models.{ColumnRef, ColumnRef_eq}
use schema_sentry.Domain.Lineage.{
  LineageEdge, LineageGraph, or_empty, group_into, edge_sort_key, lineage_graph, edges_from,
}

abbrev sorted_entry : ColumnRef × List LineageEdge → ColumnRef × List LineageEdge
sorted_entry (c, es) = (c, sort_by edge_sort_key es)

Memᴰ-get-map :
    (e : LineageEdge) (c : ColumnRef) (g : LineageGraph)
    → Memᴰ e (or_empty (Dict.get c (map sorted_entry g))) ↔ Memᴰ e (or_empty (Dict.get c g))
unfolding Dict.get
Memᴰ-get-map e c [] = (λ m. m, λ m. m)
Memᴰ-get-map e c ((j, es) ∷ g) = ground (arith, Memᴰ-get-map e c g, Memᴰ-sort_by edge_sort_key e es)

Memᴰ-group_into :
    (e : LineageEdge) (c : ColumnRef) (g : LineageGraph) (es : List LineageEdge)
    → Memᴰ e (or_empty (Dict.get c (group_into g es)))
      ↔ (Memᴰ e (or_empty (Dict.get c g)) ⊎ (Memᴰ e es × (e.upstream ≡ c)))
unfolding group_into
Memᴰ-group_into e c g [] = (inl, ⊎_elim (λ m. m) (λ m. absurd (Memᴰ.not-nil m.0)))
Memᴰ-group_into e c g (x ∷ es) =
    let here = or_empty (Dict.get x.upstream g) in
    let g' = Dict.put x.upstream (here ++ x ∷ []) g in
    ground (
      arith,
      Memᴰ-group_into e c g' es,
      get-put x.upstream c (here ++ x ∷ []) g,
      ColumnRef_eq.test_iff x.upstream c,
      Memᴰ-append e here (x ∷ []),
      Memᴰ-cons e x [],
      Memᴰ-cons e x es,
      Memᴰ.not-nil {a = e},
    )

pub Memᴰ-edges_from :
    (e : LineageEdge) (c : ColumnRef) (edges : List LineageEdge)
    → Memᴰ e (edges_from (lineage_graph edges) c) ↔ (Memᴰ e edges × (e.upstream ≡ c))
unfolding edges_from lineage_graph Dict.get
Memᴰ-edges_from e c edges = ground (
  arith,
  Memᴰ-get-map e c (group_into [] edges),
  Memᴰ-group_into e c [] edges,
  Memᴰ.not-nil {a = e},
)
