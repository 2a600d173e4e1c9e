-- ===== src/Catalog/Sync/Rows.antt =====
-- The rows that `replace_catalog` adds.
use mathlib.Core.List.Memᴰ
use mathlib.Core.Logic.{⊎_elim}
use schema_sentry.Prelude.{
  ℕ, suc, ◌≤◌, String, some, List, [], ◌∷◌, ◌++◌, Memᴰ, ◌≡◌, inl, inr, refl, sym, ap, ◌∙◌, subst,
  arith, is_some, Option-cases, Memᴰ-cons, String_eq, append-nil, append_assoc,
}
use schema_sentry.Prelude.Dict
use schema_sentry.Prelude.Dict.{
  Dict, index_by, latest, get-index_by, key_of_latest, mem_of_latest, latest_of_mem,
}
use schema_sentry.Prelude.Equal.{Eq}
use schema_sentry.Prelude.Result.{ok}
use schema_sentry.Domain.Lineage.{PipelineDefinition, LineageEdge}
use schema_sentry.Domain.Models.{DatasetRef, DatasetRef_eq}
use schema_sentry.Store.{Db, DatasetRow, PipelineRow, LineageEdgeRow}
use schema_sentry.Changes.Guard.{pipeline_definition}
use schema_sentry.Catalog.Sync.{pipeline_row, pipeline_rows, edge_row, row_of_edge, add_edges}

-- An index finds a row for the key of each of its rows.
pub found_by {ℓ} :
    {K : Type 0} {A : Type ℓ} ⦃e : Eq K⦄ (key : A → K) (xs : List A) (a : A)
    → Memᴰ a xs
    → (b : A) × (Dict.get (key a) (index_by key xs) ≡ some b) × Memᴰ b xs × (key b ≡ key a)
found_by key xs a m = elim (Option-cases (latest key (key a) xs)) [
  | inl missing ↦ absurd (ground (arith, latest_of_mem key a xs m, ap is_some missing))
  | inr (b, found) ↦ (
    b,
    get-index_by key (key a) xs ∙ found,
    mem_of_latest key (key a) xs found,
    key_of_latest key (key a) xs found,
  )
]

-- What an index finds is one of its rows, with the key.
pub of_found {ℓ} :
    {K : Type 0} {A : Type ℓ} ⦃e : Eq K⦄ (key : A → K) (xs : List A) (k : K) (b : A)
    → Dict.get k (index_by key xs) ≡ some b
    → Memᴰ b xs × (key b ≡ k)
of_found key xs k b h =
    let found = sym (get-index_by key k xs) ∙ h in
    (mem_of_latest key k xs found, key_of_latest key k xs found)

-- ---------------------------------------------------------------- pipelines

pub pipeline_rows-definition :
    (n : ℕ) (ps : List PipelineDefinition) (p : PipelineRow)
    → Memᴰ p (pipeline_rows n ps)
    → Memᴰ (pipeline_definition p) ps × (n ≤ p.id)
pipeline_rows-definition n [] p m = absurd (Memᴰ.not-nil m)
pipeline_rows-definition n (d ∷ ds) p (Memᴰ.head same) =
    (Memᴰ.head (ap pipeline_definition same), ground (arith, ap (λ r. r.id) same))
pipeline_rows-definition n (d ∷ ds) p (Memᴰ.tail m) =
    let (k, le) = pipeline_rows-definition (suc n) ds p m in (Memᴰ.tail k, omega arith)

pub pipeline_rows-id :
    (n : ℕ) (ps : List PipelineDefinition) (p q : PipelineRow)
    → Memᴰ p (pipeline_rows n ps)
    → Memᴰ q (pipeline_rows n ps)
    → p.id ≡ q.id
    → p ≡ q
pipeline_rows-id n [] p q m k h = absurd (Memᴰ.not-nil m)
pipeline_rows-id n (d ∷ ds) p q (Memᴰ.head a) (Memᴰ.head b) h = a ∙ sym b
pipeline_rows-id n (d ∷ ds) p q (Memᴰ.head a) (Memᴰ.tail k) h =
    absurd (omega (arith, (pipeline_rows-definition (suc n) ds q k).1, ap (λ r. r.id) a, h))
pipeline_rows-id n (d ∷ ds) p q (Memᴰ.tail m) (Memᴰ.head b) h =
    absurd (omega (arith, (pipeline_rows-definition (suc n) ds p m).1, ap (λ r. r.id) b, h))
pipeline_rows-id n (d ∷ ds) p q (Memᴰ.tail m) (Memᴰ.tail k) h =
    pipeline_rows-id (suc n) ds p q m k h

pub row_of_definition :
    (n : ℕ) (ps : List PipelineDefinition) (d : PipelineDefinition)
    → Memᴰ d ps
    → (p : PipelineRow) × Memᴰ p (pipeline_rows n ps) × (pipeline_definition p ≡ d)
row_of_definition n [] d m = absurd (Memᴰ.not-nil m)
row_of_definition n (x ∷ xs) d (Memᴰ.head same) = (pipeline_row n x, Memᴰ.head refl, sym same)
row_of_definition n (x ∷ xs) d (Memᴰ.tail m) =
    let (p, k, is) = row_of_definition (suc n) xs d m in (p, Memᴰ.tail k, is)

-- ---------------------------------------------------------------- edges

module _ (pipelines : Dict String PipelineRow) (datasets : Dict DatasetRef DatasetRow) where
  -- the rows that an edge refers to
  pub record Refers (e : LineageEdge) : Type 0 where
    pub pipeline : PipelineRow
    pub upstream : DatasetRow
    pub downstream : DatasetRow
    pub has_pipeline : Dict.get e.pipeline.key pipelines ≡ some pipeline
    pub has_upstream : Dict.get e.upstream.dataset datasets ≡ some upstream
    pub has_downstream : Dict.get e.downstream.dataset datasets ≡ some downstream

  abbrev pub stored_row : (e : LineageEdge) → Refers e → LineageEdgeRow
  stored_row e h = edge_row e h.pipeline h.upstream h.downstream

  -- The rows that the loop adds, one for each edge.
  pub record Added (es : List LineageEdge) (rows : List LineageEdgeRow) : Type 0 where
    pub of_row :
        (row : LineageEdgeRow)
        → Memᴰ row rows
        → (e : LineageEdge) × (h : Refers e) × Memᴰ e es × (row ≡ stored_row e h)
    pub of_edge : (e : LineageEdge) → Memᴰ e es → (h : Refers e) × Memᴰ (stored_row e h) rows

  add_edge-eq :
      (e : LineageEdge) (es : List LineageEdge) (h : Refers e) (db : Db)
      → add_edges pipelines datasets (e ∷ es) db
        ≡ add_edges pipelines datasets es (record db { edges = db.edges ++ stored_row e h ∷ [] })
  unfolding add_edges row_of_edge
  add_edge-eq e es h db = rw (h.has_pipeline, h.has_upstream, h.has_downstream) refl

  pub add_edges-Added :
      (es : List LineageEdge) (db : Db)
      → ((e : LineageEdge) → Memᴰ e es → Refers e)
      → (rows : List LineageEdgeRow) × (add_edges pipelines datasets es db
          ≡ (ok tt, record db { edges = db.edges ++ rows }))
        × Added es rows
  unfolding add_edges
  add_edges-Added [] db refers = (
    [],
    ap (λ l. (ok tt, record db { edges = l })) (sym (append-nil db.edges)),
    record { of_row = λ row m. absurd (Memᴰ.not-nil m); of_edge = λ e m. absurd (Memᴰ.not-nil m) },
  )
  add_edges-Added (e ∷ es) db refers =
      let h = refers e (Memᴰ.head refl) in
      let (rows, ends, added) =
        add_edges-Added es (record db { edges = db.edges ++ stored_row e h ∷ [] })
          (λ x m. refers x (Memᴰ.tail m)) in
      (
        stored_row e h ∷ rows,
        add_edge-eq e es h db
            ∙ ends
            ∙ ap (λ l. (ok tt, record db { edges = l }))
                (append_assoc db.edges (stored_row e h ∷ []) rows),
        record {
          of_row = λ row m.
              ⊎_elim (λ same. (e, h, Memᴰ.head refl, same))
                (λ k. let (x, hx, mx, is) = added.of_row row k in (x, hx, Memᴰ.tail mx, is))
                ((Memᴰ-cons row (stored_row e h) rows).0 m);
          of_edge = λ x m.
              ⊎_elim (first x e h rows)
                (λ k. let (hx, mx) = added.of_edge x k in (hx, Memᴰ.tail mx))
                ((Memᴰ-cons x e es).0 m);
        },
      )
    where
      first :
          (x e : LineageEdge) (h : Refers e) (rows : List LineageEdgeRow)
          → x ≡ e
          → (hx : Refers x) × Memᴰ (stored_row x hx) (stored_row e h ∷ rows)
      first x e h rows same =
          subst (λ y. (hy : Refers y) × Memᴰ (stored_row y hy) (stored_row e h ∷ rows)) (sym same)
            (h, Memᴰ.head refl)
