-- ===== src/Catalog/Sync/Edges.antt =====
-- The edges that a configuration declares.
use schema_sentry.Catalog.Sync.Columns.{declared_columns, column_refs-eq-ok}
use mathlib.Core.List.Memᴰ
use mathlib.Core.Logic.{⊎_elim}
use schema_sentry.Prelude.{
  List, [], ◌∷◌, ◌++◌, map, concat_map, Memᴰ, ◌≡◌, ◌↔◌, ◌≢◌, inl, inr, refl, sym, ap, ◌∙◌, subst,
  arith, ◌==◌, String_eq, Bool-cases, Memᴰ-append, Memᴰ-cons, Memᴰ-concat_map, mem-map_of_mem,
  mem_of_mem-map,
}
use schema_sentry.Prelude.Result.{ok, returned, ok_injective}
use schema_sentry.Domain.Lineage.{PipelineDefinition, LineageEdge}
use schema_sentry.Domain.Models.{ColumnRef, ColumnRef_eq}
use schema_sentry.Catalog.Config.{PipelineConfig}
use schema_sentry.Catalog.Sync.{
  column_refs, edge, edges_to, edges_between, definition, pipeline_edges, all_edges,
}

-- ---------------------------------------------------------------- edges

module _ (p : PipelineDefinition) where
  edges_to-eq-ok :
      (u : ColumnRef) (outputs : List ColumnRef) (es : List LineageEdge)
      → edges_to p u outputs ≡ ok es
      → (es ≡ map (edge p u) outputs) × ((d : ColumnRef) → Memᴰ d outputs → u ≢ d)
  unfolding edges_to
  edges_to-eq-ok u [] es h = (sym (ok_injective [] es h), λ d m. absurd (Memᴰ.not-nil m))
  edges_to-eq-ok u (d ∷ ds) es h = elim (Bool-cases (u == d)) [
    | inl loop ↦ absurd (ground (arith, rw (loop, edges_to) at h))
    | inr apart ↦
        let (more, first, same) = returned es (edges_to p u ds) _ (rw (apart, edges_to) at h) in
        let (is, others) = edges_to-eq-ok u ds more first in
        (
          sym (ok_injective (edge p u d ∷ more) es same) ∙ ap (λ l. edge p u d ∷ l) is,
          λ c m.
              ⊎_elim (λ e equal. ground (arith, ColumnRef_eq.test_iff u d, e, equal, apart))
                (others c) ((Memᴰ-cons c d ds).0 m),
        )
  ]

  edges_between-eq-ok :
      (inputs outputs : List ColumnRef) (es : List LineageEdge)
      → edges_between p inputs outputs ≡ ok es
      → (es ≡ concat_map (λ u. map (edge p u) outputs) inputs)
        × ((u d : ColumnRef) → Memᴰ u inputs → Memᴰ d outputs → u ≢ d)
  unfolding edges_between
  edges_between-eq-ok [] outputs es h =
      (sym (ok_injective [] es h), λ u d m. absurd (Memᴰ.not-nil m))
  edges_between-eq-ok (u ∷ us) outputs es h =
      let (here, first, h1) = returned es (edges_to p u outputs) _ h in
      let (more, others, h2) = returned es (edges_between p us outputs) _ h1 in
      let (is, apart) = edges_to-eq-ok u outputs here first in
      let (is_more, apart_more) = edges_between-eq-ok us outputs more others in
      (
        sym (ok_injective (here ++ more) es h2)
            ∙ ap (λ l. l ++ more) is
            ∙ ap (λ l. map (edge p u) outputs ++ l) is_more,
        λ a d m n.
            ⊎_elim (λ e. subst (λ c. c ≢ d) (sym e) (apart d n)) (λ later. apart_more a d later n)
              ((Memᴰ-cons a u us).0 m),
      )

-- ---------------------------------------------------------------- the configuration

-- An edge that a pipeline of the configuration declares: from one of its inputs to one of its outputs.
pub record IsDeclared (pipelines : List PipelineConfig) (e : LineageEdge) : Type 0 where
  pub config : PipelineConfig
  pub listed : Memᴰ config pipelines
  pub from_input : Memᴰ e.upstream (declared_columns config.inputs)
  pub to_output : Memᴰ e.downstream (declared_columns config.outputs)
  pub names : e.pipeline ≡ definition config

abbrev pub cross : PipelineConfig → List LineageEdge
cross c =
    concat_map (λ u. map (edge (definition c) u) (declared_columns c.outputs))
      (declared_columns c.inputs)

pub pipeline_edges-eq-ok :
    (known : List ColumnRef) (c : PipelineConfig) (es : List LineageEdge)
    → pipeline_edges known c ≡ ok es
    → (es ≡ cross c)
      × ((u : ColumnRef) → Memᴰ u (declared_columns c.inputs) → Memᴰ u known)
      × ((d : ColumnRef) → Memᴰ d (declared_columns c.outputs) → Memᴰ d known)
      × ((u d : ColumnRef)
          → Memᴰ u (declared_columns c.inputs)
          → Memᴰ d (declared_columns c.outputs)
          → u ≢ d)
unfolding pipeline_edges
pipeline_edges-eq-ok known c es h =
    let (inputs, first, h1) = returned es (column_refs c.inputs known) _ h in
    let (outputs, others, h2) = returned es (column_refs c.outputs known) _ h1 in
    let (is_in, known_in) = column_refs-eq-ok c.inputs known inputs first in
    let (is_out, known_out) = column_refs-eq-ok c.outputs known outputs others in
    let (is, apart) = edges_between-eq-ok (definition c) inputs outputs es h2 in
    (
      is
          ∙ ap (λ l. concat_map (λ u. map (edge (definition c) u) l) inputs) is_out
          ∙ ap (λ l. concat_map (λ u. map (edge (definition c) u) (declared_columns c.outputs)) l)
              is_in,
      λ u m. known_in u (subst (λ l. Memᴰ u l) (sym is_in) m),
      λ d m. known_out d (subst (λ l. Memᴰ d l) (sym is_out) m),
      λ u d m n.
          apart u d (subst (λ l. Memᴰ u l) (sym is_in) m) (subst (λ l. Memᴰ d l) (sym is_out) n),
    )

Memᴰ-cross :
    (c : PipelineConfig) (e : LineageEdge)
    → Memᴰ e (cross c) ↔ (
        Memᴰ e.upstream (declared_columns c.inputs)
        × Memᴰ e.downstream (declared_columns c.outputs)
        × (e.pipeline ≡ definition c))
Memᴰ-cross c e = (to, from)
  where
    to :
        Memᴰ e (cross c)
        → Memᴰ e.upstream (declared_columns c.inputs)
          × Memᴰ e.downstream (declared_columns c.outputs)
          × (e.pipeline ≡ definition c)
    to m =
        let (u, m1, n) =
          (Memᴰ-concat_map (λ u. map (edge (definition c) u) (declared_columns c.outputs)) e
              (declared_columns c.inputs)).0
            m in
        let (d, m2, is) = mem_of_mem-map (edge (definition c) u) (declared_columns c.outputs) n in
        (
          subst (λ x. Memᴰ x (declared_columns c.inputs)) (sym (ap (λ x. x.upstream) is)) m1,
          subst (λ x. Memᴰ x (declared_columns c.outputs)) (sym (ap (λ x. x.downstream) is)) m2,
          ap (λ x. x.pipeline) is,
        )

    from :
        Memᴰ e.upstream (declared_columns c.inputs)
          × Memᴰ e.downstream (declared_columns c.outputs)
          × (e.pipeline ≡ definition c)
        → Memᴰ e (cross c)
    from (m1, m2, is) =
        (Memᴰ-concat_map (λ u. map (edge (definition c) u) (declared_columns c.outputs)) e
            (declared_columns c.inputs)).1
          (
            e.upstream,
            m1,
            subst
                (λ p.
                  Memᴰ (edge p e.upstream e.downstream)
                    (map (edge (definition c) e.upstream) (declared_columns c.outputs)))
                (sym is)
                (mem-map_of_mem (edge (definition c) e.upstream) (declared_columns c.outputs) m2),
          )

-- Where the loop over the pipelines returns, it returns the declared edges; they join known columns, and no
-- column with itself.
pub all_edges-eq-ok :
    (known : List ColumnRef) (cs : List PipelineConfig) (es : List LineageEdge)
    → all_edges known cs ≡ ok es
    → (e : LineageEdge)
    → (Memᴰ e es ↔ IsDeclared cs e)
      × (Memᴰ e es → Memᴰ e.upstream known × Memᴰ e.downstream known × (e.upstream ≢ e.downstream))
unfolding all_edges
all_edges-eq-ok known [] es h e =
    let none_left = sym (ok_injective [] es h) in
    (
      (
        λ m. absurd (Memᴰ.not-nil (subst (λ l. Memᴰ e l) none_left m)),
        λ d. absurd (Memᴰ.not-nil d.listed),
      ),
      λ m. absurd (Memᴰ.not-nil (subst (λ l. Memᴰ e l) none_left m)),
    )
all_edges-eq-ok known (c ∷ cs) es h e =
    let (here, first, h1) = returned es (pipeline_edges known c) _ h in
    let (more, others, h2) = returned es (all_edges known cs) _ h1 in
    let (is, known_in, known_out, apart) = pipeline_edges-eq-ok known c here first in
    let (iff, facts) = all_edges-eq-ok known cs more others e in
    let whole = ok_injective (here ++ more) es h2 in
    let split =
      λ (m : Memᴰ e es). (Memᴰ-append e here more).0 (subst (λ l. Memᴰ e l) (sym whole) m) in
    let crossed = λ (m : Memᴰ e here). (Memᴰ-cross c e).0 (subst (λ l. Memᴰ e l) is m) in
    (
      (
        λ m. ⊎_elim (λ n. first_declared (crossed n)) (λ n. later_declared (iff.0 n)) (split m),
        λ d. subst (λ l. Memᴰ e l) whole (joined d here more is iff.1),
      ),
      λ m.
          ⊎_elim
            (λ n.
              let (a, b, _) = crossed n in
              (known_in e.upstream a, known_out e.downstream b, apart e.upstream e.downstream a b))
            facts (split m),
    )
  where
    first_declared :
        Memᴰ e.upstream (declared_columns c.inputs)
          × Memᴰ e.downstream (declared_columns c.outputs)
          × (e.pipeline ≡ definition c)
        → IsDeclared (c ∷ cs) e
    first_declared (a, b, n) = record {
      config = c;
      listed = Memᴰ.head refl;
      from_input = a;
      to_output = b;
      names = n;
    }

    later_declared : IsDeclared cs e → IsDeclared (c ∷ cs) e
    later_declared d = record {
      config = d.config;
      listed = Memᴰ.tail d.listed;
      from_input = d.from_input;
      to_output = d.to_output;
      names = d.names;
    }

    joined :
        IsDeclared (c ∷ cs) e
        → (here more : List LineageEdge) → here ≡ cross c
        → (IsDeclared cs e → Memᴰ e more)
        → Memᴰ e (here ++ more)
    joined d here more is later = (Memᴰ-append e here more).1 (
        ⊎_elim
          (λ same. inl (
            subst (λ l. Memᴰ e l) (sym is)
              ((Memᴰ-cross c e).1 (
                subst (λ x. Memᴰ e.upstream (declared_columns x.inputs)) same d.from_input,
                subst (λ x. Memᴰ e.downstream (declared_columns x.outputs)) same d.to_output,
                d.names ∙ ap definition same,
              ))))
          (λ m. inr (
            later (record {
              config = d.config;
              listed = m;
              from_input = d.from_input;
              to_output = d.to_output;
              names = d.names;
            })))
          ((Memᴰ-cons d.config c cs).0 d.listed))
