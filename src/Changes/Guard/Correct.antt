-- ===== src/Changes/Guard/Correct.antt =====
-- The check of a pipeline finds the open breaking changes whose columns reach it.
use mathlib.Core.List.Memᴰ
use schema_sentry.Prelude.{
  suc, String, Bool, true, false, List, [], ◌∷◌, map, filter, length, Memᴰ, ◌≡◌, ◌↔◌, refl, sym,
  subst, arith, ◌==◌, ℕ_eq, String_eq, is_none, Memᴰ-filter, Memᴰ-cons, mem-map_of_mem,
  mem_of_mem-map,
}
use schema_sentry.Prelude.Order.{ℕ_ord, String_ord, pair_ord}
use schema_sentry.Prelude.Result.{ok}
use schema_sentry.Prelude.Sort.{Memᴰ-sort_by}
use schema_sentry.Domain.Enums.{breaking, open_state, ChangeState_eq, Severity_eq}
use schema_sentry.Domain.Lineage.{LineageEdge, impacts}
use schema_sentry.Domain.Lineage.Impact.{Affects, impacts-names_pipeline}
use schema_sentry.Domain.Models.{SchemaChange, change_ref}
use schema_sentry.Store.{Db, SchemaChangeRow, DatasetRow, PipelineRow, find}
use schema_sentry.Scan.Joins.{Memᴰ-joined}
use schema_sentry.Scan.Reading.{joined}
use schema_sentry.Changes.Guard.{
  BlockingChange, PipelineValidation, is_open_breaking, domain_change, blocking_change, affects?,
  blocking_order, blocking_changes, lineage_edges, list_open_breaking_changes_for_pipeline,
  validate_pipeline, is_empty,
}

-- The test of one change is that its column reaches the pipeline.
affects?_iff :
    (edges : List LineageEdge) (key : String) (c : SchemaChange)
    → c.severity ≡ breaking
    → (affects? edges key c ≡ true) ↔ Affects edges (change_ref c ∷ []) key
unfolding affects? impacts
affects?_iff edges key c severe =
    let (is, ends, named) =
      impacts-names_pipeline edges (change_ref c ∷ []) (suc (length edges)) key (omega arith) in
    simp (severe, ends) named

-- The rows of a blocking change: an open breaking change and its dataset, whose column reaches the
-- pipeline.
pub record IsBlocking (key : String) (db : Db) (b : BlockingChange) : Type 0 where
  pub change : SchemaChangeRow
  pub dataset : DatasetRow
  pub stored : Memᴰ change db.changes
  pub registered : Memᴰ dataset db.datasets
  pub joins : dataset.id ≡ change.dataset_id
  pub is_open : change.state ≡ open_state
  pub is_breaking : change.severity ≡ breaking
  pub reaches : Affects (lineage_edges db) (change_ref (domain_change (change, dataset)) ∷ []) key
  pub is : b ≡ blocking_change (change, dataset)

module _ (key : String) (db : Db) where
  abbrev rows : List (SchemaChangeRow × DatasetRow)
  rows = joined (λ c. c.dataset_id) db.datasets (filter is_open_breaking db.changes)

  abbrev reaches? : SchemaChangeRow × DatasetRow → Bool
  reaches? r = affects? (lineage_edges db) key (domain_change r)

  -- the rows that the loop runs over
  Memᴰ-rows :
      (c : SchemaChangeRow) (d : DatasetRow)
      → Memᴰ {A = SchemaChangeRow × DatasetRow} (c, d) rows ↔ (
          Memᴰ c db.changes
          × (c.state ≡ open_state)
          × (c.severity ≡ breaking)
          × Memᴰ d db.datasets
          × (d.id ≡ c.dataset_id))
  Memᴰ-rows c d = ground (
    arith,
    Memᴰ-joined (λ c. c.dataset_id) db.datasets c d (filter is_open_breaking db.changes),
    Memᴰ-filter is_open_breaking c db.changes,
    ChangeState_eq.test_iff c.state open_state,
    Severity_eq.test_iff c.severity breaking,
  )

  IsBlocking-of_row :
      (c : SchemaChangeRow) (d : DatasetRow)
      → Memᴰ {A = SchemaChangeRow × DatasetRow} (c, d) (filter reaches? rows)
      → IsBlocking key db (blocking_change (c, d))
  IsBlocking-of_row c d m =
      let (n, hit) = (Memᴰ-filter {A = SchemaChangeRow × DatasetRow} reaches? (c, d) rows).0 m in
      let (stored, is_open, severe, registered, joins) = (Memᴰ-rows c d).0 n in
      record {
        change = c;
        dataset = d;
        stored = stored;
        registered = registered;
        joins = joins;
        is_open = is_open;
        is_breaking = severe;
        reaches = (affects?_iff (lineage_edges db) key (domain_change (c, d)) severe).0 hit;
        is = refl;
      }

  row_of_blocking :
      (b : BlockingChange) (h : IsBlocking key db b)
      → Memᴰ {A = SchemaChangeRow × DatasetRow} (h.change, h.dataset) (filter reaches? rows)
  row_of_blocking b h =
      (Memᴰ-filter {A = SchemaChangeRow × DatasetRow} reaches? (h.change, h.dataset) rows).1 (
        (Memᴰ-rows h.change h.dataset).1
            (h.stored, h.is_open, h.is_breaking, h.registered, h.joins),
        (affects?_iff (lineage_edges db) key (domain_change (h.change, h.dataset)) h.is_breaking).1
            h.reaches,
      )

  -- The list holds a change exactly if it is an open breaking change whose column reaches the pipeline.
  pub blocking_changes_exact :
      (b : BlockingChange) → Memᴰ b (blocking_changes key db) ↔ IsBlocking key db b
  unfolding blocking_changes
  blocking_changes_exact b = (to, from)
    where
      to : Memᴰ b (blocking_changes key db) → IsBlocking key db b
      to m =
          let (r, n, same) =
            mem_of_mem-map blocking_change (filter reaches? rows)
              ((Memᴰ-sort_by blocking_order b _).0 m) in
          subst (λ x. IsBlocking key db x) (sym same) (IsBlocking-of_row r.0 r.1 n)

      from : IsBlocking key db b → Memᴰ b (blocking_changes key db)
      from h = (Memᴰ-sort_by blocking_order b _).1 (
          subst (λ x. Memᴰ x (map blocking_change (filter reaches? rows))) (sym h.is)
            (mem-map_of_mem blocking_change (filter reaches? rows) (row_of_blocking b h)))

  pipeline_found :
      (p : PipelineRow) (ps : List PipelineRow)
      → Memᴰ p ps
      → p.key ≡ key
      → is_none (find (λ q. q.key == key) ps) ≡ false
  pipeline_found p [] m h = absurd (Memᴰ.not-nil m)
  pipeline_found p (q ∷ qs) m h =
      ground (arith, Memᴰ-cons p q qs, pipeline_found p qs, String_eq.test_iff q.key key)

  is_empty_iff :
      (bs : List BlockingChange) → (is_empty bs ≡ true) ↔ ((b : BlockingChange) → ¬ Memᴰ b bs)
  is_empty_iff [] = (λ _ b m. Memᴰ.not-nil m, λ _. refl)
  is_empty_iff (b ∷ bs) = (λ h. absurd (no h), λ none_in. absurd (none_in b (Memᴰ.head refl)))
    where
      no : ¬ (false ≡ true)
      no = ground arith

  -- For a registered pipeline the check answers, writes nothing and lists exactly the open breaking changes
  -- whose column reaches the pipeline; it says `safe` exactly if there is no such change.
  pub validate_pipeline_exact :
      (p : PipelineRow)
      → Memᴰ p db.pipelines
      → p.key ≡ key
      → (v : PipelineValidation) × (validate_pipeline key db ≡ (ok v, db))
        × ((b : BlockingChange) → Memᴰ b v.blocking_changes ↔ IsBlocking key db b)
        × ((v.safe ≡ true) ↔ ((b : BlockingChange) → ¬ IsBlocking key db b))
  unfolding validate_pipeline list_open_breaking_changes_for_pipeline
  validate_pipeline_exact p m same = (
    record {
      pipeline_key = key;
      safe = is_empty (blocking_changes key db);
      blocking_changes = blocking_changes key db;
    },
    rw (pipeline_found p db.pipelines m same) refl,
    blocking_changes_exact,
    (
      λ h b block.
          (is_empty_iff (blocking_changes key db)).0 h b ((blocking_changes_exact b).1 block),
      λ h. (is_empty_iff (blocking_changes key db)).1 (λ b m. h b ((blocking_changes_exact b).0 m)),
    ),
  )
