-- ===== src/Examples/Domains.antt =====
-- The comparison of schemas, the rules for types and the search of the lineage at concrete inputs.
use mathlib.Core.List.Memᴰ
use schema_sentry.Prelude.{
  true, false, some, List, [], ◌∷◌, Memᴰ, ◌≡◌, ◌↔◌, refl, arith, Bool, Bool-cases, inl, inr, ◌==◌,
}
use schema_sentry.Prelude.Dict.{latest}
use schema_sentry.Prelude.Int.{ℤ_ord, pos}
use schema_sentry.Prelude.Order.{String_ord, pair_ord}
use schema_sentry.Prelude.Result.{ok}
use schema_sentry.Prelude.Sort.{IsSortedBy}
use schema_sentry.Domain.Diff.{diff_columns, change_sort_key}
use schema_sentry.Domain.Diff.Columns.{column_changes, Agrees}
use schema_sentry.Domain.Diff.Drift.{column_at, diff_columns_exact, diff_columns-eq-nil_iff}
use schema_sentry.Domain.Diff.Safety.{StillServes, no_breaking_serves}
use schema_sentry.Domain.Enums.{breaking}
use schema_sentry.Domain.Lineage.{
  LineageEdge, PipelineImpact, lineage_graph, impacts_for_columns, impact_sort_key, edge_key,
  edges_from,
}
use schema_sentry.Domain.Lineage.Graph.{Memᴰ-edges_from}
use schema_sentry.Domain.Lineage.Impact.{
  impacts_exact, impacts-names_pipeline, names_pipeline, Affects,
}
use schema_sentry.Domain.Lineage.Invariant.{Trail, IsImpact, impact_key}
use schema_sentry.Domain.Models.{
  CanonicalType, plain, ColumnRef, ColumnRef_eq, SchemaChange, change_ref,
}
use schema_sentry.Domain.TypeRules.{classify_type_change}
use schema_sentry.Domain.TypeRules.Capacity.{Value, integer, fits, classify_type_change_safe}
use schema_sentry.Domain.TypeRules.Exact.{
  varying, numeric, varying_narrowing_loses, numeric_rescaling_flagged,
}
use schema_sentry.Examples.Data.{level_ref, level, wide_level, rank, level_edge}

-- the values of the types outside the families
abbrev opaque_fits : CanonicalType → Value → Bool
opaque_fits t v = true

classify_type_change_safe_example : fits opaque_fits (plain "bigint") (integer (pos 7)) ≡ true
unfolding classify_type_change fits
classify_type_change_safe_example =
    classify_type_change_safe opaque_fits (plain "integer") (plain "bigint") (integer (pos 7))
      (ground arith) refl

varying_narrowing_loses_example :
    (v : Value) × (fits opaque_fits (varying (some 20)) v ≡ true)
    × (fits opaque_fits (varying (some 10)) v ≡ false)
unfolding classify_type_change
varying_narrowing_loses_example = varying_narrowing_loses opaque_fits (some 20) 10 refl

numeric_rescaling_flagged_example :
    ((classify_type_change (numeric 5 2) (numeric 7 4)).severity ≡ breaking)
    × ((v : Value)
        → fits opaque_fits (numeric 5 2) v ≡ true
        → fits opaque_fits (numeric 7 4) v ≡ true)
numeric_rescaling_flagged_example = numeric_rescaling_flagged opaque_fits 5 2 2 (omega arith)

impacts_exact_example :
    (is : List PipelineImpact) × (impacts_for_columns
        (lineage_graph (level_edge ∷ []))
        2
        (level_ref ∷ [])
      ≡ some is)
    × IsSortedBy impact_sort_key is
    × ((i : PipelineImpact) → Memᴰ i is → IsImpact (level_edge ∷ []) (level_ref ∷ []) i)
    × ((e : LineageEdge) (p : List LineageEdge)
        → Memᴰ e (level_edge ∷ [])
        → Trail (level_edge ∷ []) (level_ref ∷ []) e.upstream p
        → (i : PipelineImpact) × Memᴰ i is × (impact_key i ≡ edge_key e))
impacts_exact_example = impacts_exact (level_edge ∷ []) (level_ref ∷ []) 2 (omega arith)

impacts-names_pipeline_example :
    (is : List PipelineImpact) × (impacts_for_columns
        (lineage_graph (level_edge ∷ []))
        2
        (level_ref ∷ [])
      ≡ some is)
    × ((names_pipeline (level_edge ∷ []) (level_ref ∷ []) "daily" is ≡ true)
        ↔ Affects (level_edge ∷ []) (level_ref ∷ []) "daily")
impacts-names_pipeline_example =
    impacts-names_pipeline (level_edge ∷ []) (level_ref ∷ []) 2 "daily" (omega arith)

Memᴰ-edges_from_example :
    Memᴰ level_edge (edges_from (lineage_graph (level_edge ∷ [])) level_ref)
    ↔ (Memᴰ level_edge (level_edge ∷ []) × (level_edge.upstream ≡ level_ref))
Memᴰ-edges_from_example = Memᴰ-edges_from level_edge level_ref (level_edge ∷ [])

diff_columns_exact_example :
    (changes : List SchemaChange) × (diff_columns
        (level ∷ [])
        (wide_level ∷ rank ∷ [])
        (level_ref ∷ [])
      ≡ ok changes)
    × IsSortedBy change_sort_key changes
    × ((c : SchemaChange)
        → Memᴰ c changes
          ↔ Memᴰ c (
              column_changes
                (change_ref c)
                (column_at (change_ref c) (level ∷ []))
                (column_at (change_ref c) (wide_level ∷ rank ∷ []))
                (level_ref ∷ [])))
diff_columns_exact_example =
    diff_columns_exact (level ∷ []) (wide_level ∷ rank ∷ []) (level_ref ∷ [])

diff_columns-eq-nil_iff_example :
    (diff_columns (level ∷ []) (level ∷ []) [] ≡ ok [])
    ↔ ((r : ColumnRef) → Agrees (column_at r (level ∷ [])) (column_at r (level ∷ [])))
diff_columns-eq-nil_iff_example = diff_columns-eq-nil_iff (level ∷ []) (level ∷ []) []

level_kept : (r : ColumnRef) → Agrees (column_at r (level ∷ [])) (column_at r (level ∷ []))
unfolding latest
level_kept r = elim (Bool-cases (level_ref == r)) [
  | inl hit ↦ rw (hit, latest) (refl, refl)
  | inr miss ↦ rw (miss, latest) tt
]

no_breaking_serves_example : StillServes opaque_fits level (column_at level_ref (level ∷ []))
unfolding latest
no_breaking_serves_example =
    no_breaking_serves opaque_fits (level ∷ []) (level ∷ []) (level_ref ∷ []) [] level_ref level
      ((diff_columns-eq-nil_iff (level ∷ []) (level ∷ []) (level_ref ∷ [])).1 level_kept)
      (λ c m. absurd (Memᴰ.not-nil m)) refl refl
