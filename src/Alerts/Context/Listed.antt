-- ===== src/Alerts/Context/Listed.antt =====
-- The changes that an alert lists.

use schema_sentry.Prelude.{
  ℕ, Bool, not, List, map, filter, Memᴰ, ◌≡◌, ◌↔◌, ◌≢◌, sym, subst, arith, ◌==◌, ◌&&◌, ℕ_eq,
  Memᴰ-filter, mem-map_of_mem, mem_of_mem-map,
}
use schema_sentry.Prelude.Order.{String_ord, pair_ord}
use schema_sentry.Prelude.Sort.{sort_by, Memᴰ-sort_by}
use schema_sentry.Domain.Enums.{info, Severity_eq}
use schema_sentry.Store.{Db, SchemaChangeRow, DatasetRow}
use schema_sentry.Scan.Joins.{Memᴰ-joined}
use schema_sentry.Scan.Reading.{joined}
use schema_sentry.Alerts.Context.{
  AlertChangeContext, change_context, context_order, context_changes,
}

-- A line of the alert: a change that the scan found, above INFO, with its dataset.
pub record IsListed (scan_id : ℕ) (db : Db) (x : AlertChangeContext) : Type 0 where
  pub change : SchemaChangeRow
  pub dataset : DatasetRow
  pub stored : Memᴰ change db.changes
  pub of_scan : change.scan_id ≡ scan_id
  pub above_info : change.severity ≢ info
  pub registered : Memᴰ dataset db.datasets
  pub joins : dataset.id ≡ change.dataset_id
  pub is : x ≡ change_context db (change, dataset)

module _ (scan_id : ℕ) (db : Db) where
  abbrev listed? : SchemaChangeRow → Bool
  listed? c = c.scan_id == scan_id && not (c.severity == info)

  abbrev pairs : List (SchemaChangeRow × DatasetRow)
  pairs = joined (λ c. c.dataset_id) db.datasets (filter listed? db.changes)

  Memᴰ-pairs :
      (c : SchemaChangeRow) (d : DatasetRow)
      → Memᴰ {A = SchemaChangeRow × DatasetRow} (c, d) pairs ↔ (
          Memᴰ c db.changes
          × (c.scan_id ≡ scan_id)
          × (c.severity ≢ info)
          × Memᴰ d db.datasets
          × (d.id ≡ c.dataset_id))
  Memᴰ-pairs c d = ground (
    arith,
    Memᴰ-joined (λ c. c.dataset_id) db.datasets c d (filter listed? db.changes),
    Memᴰ-filter listed? c db.changes,
    ℕ_eq.test_iff c.scan_id scan_id,
    Severity_eq.test_iff c.severity info,
  )

  -- The context of a scan's alert lists exactly the changes that the scan stored above INFO, each with its
  -- dataset: an open change that an earlier scan found is not listed again.
  pub context_changes_exact :
      (x : AlertChangeContext) → Memᴰ x (context_changes scan_id db) ↔ IsListed scan_id db x
  unfolding context_changes
  context_changes_exact x = (to, from)
    where
      to : Memᴰ x (context_changes scan_id db) → IsListed scan_id db x
      to m =
          let (r, n, same) = mem_of_mem-map (change_context db) (sort_by context_order pairs) m in
          let (stored, of_scan, above_info, registered, joins) =
            (Memᴰ-pairs r.0 r.1).0 ((Memᴰ-sort_by context_order r pairs).0 n) in
          record {
            change = r.0;
            dataset = r.1;
            stored = stored;
            of_scan = of_scan;
            above_info = above_info;
            registered = registered;
            joins = joins;
            is = same;
          }

      from : IsListed scan_id db x → Memᴰ x (context_changes scan_id db)
      from h =
          subst (λ y. Memᴰ y (map (change_context db) (sort_by context_order pairs))) (sym h.is)
            (mem-map_of_mem (change_context db) (sort_by context_order pairs) (
              (Memᴰ-sort_by context_order (h.change, h.dataset) pairs).1 (
                (Memᴰ-pairs h.change h.dataset).1
                  (h.stored, h.of_scan, h.above_info, h.registered, h.joins))))
