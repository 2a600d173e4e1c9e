-- ===== src/System/Sound.antt =====
-- The invariant of a committed store, and the writes that keep it.
use schema_sentry.Prelude.{
  none, some, ◌==◌, ℕ_eq, ℕ, suc, ◌≤◌, ◌<◌, Bool, List, [], ◌∷◌, ◌++◌, map, ◌≡◌, sym, subst, arith,
  Memᴰ, All, eq_of_IsUnique-map,
}
use schema_sentry.Alerts.{find_delivery, update_delivery}
use schema_sentry.Alerts.Rows.{All-update_first, ids-update_first}
use schema_sentry.Domain.Enums.{pending}
use schema_sentry.Store.{
  Db, DataSourceRow, DatasetRow, ExpectedColumnRow, ScanRunRow, ObservedColumnRow, SchemaChangeRow,
  PipelineRow, LineageEdgeRow, AlertDeliveryRow, update,
}
use schema_sentry.Store.Ids.{HasIds, HasIds-weaken, ids-append_new, ids-update, All-of_ids}

-- A delivery has at most three attempts, and one that waits was not tried yet and is due at once.
abbrev pub IsDelivery : AlertDeliveryRow → Type 0
IsDelivery d =
    (d.attempt_count ≤ 3) × (d.status ≡ pending → (d.attempt_count ≡ 0) × (d.next_retry_at ≡ none))

-- The ids of the sources, scans, datasets, changes, pipelines and deliveries are distinct and in use, table by
-- table, and the deliveries are as above.
pub record IsSound (db : Db) : Type 0 where
  pub source_ids : HasIds db.next_id (map (λ s. s.id) db.sources)
  pub scan_ids : HasIds db.next_id (map (λ s. s.id) db.scans)
  pub dataset_ids : HasIds db.next_id (map (λ d. d.id) db.datasets)
  pub change_ids : HasIds db.next_id (map (λ c. c.id) db.changes)
  pub pipeline_ids : HasIds db.next_id (map (λ p. p.id) db.pipelines)
  pub delivery_ids : HasIds db.next_id (map (λ d. d.id) db.deliveries)
  pub deliveries : All IsDelivery db.deliveries

module _ (db : Db) (h : IsSound db) where
  -- Ids are given out, and none of them is taken yet.
  pub later-IsSound : (n : ℕ) → db.next_id ≤ n → IsSound (record db { next_id = n })
  later-IsSound n le = record {
    source_ids = HasIds-weaken db.next_id n _ le h.source_ids;
    scan_ids = HasIds-weaken db.next_id n _ le h.scan_ids;
    dataset_ids = HasIds-weaken db.next_id n _ le h.dataset_ids;
    change_ids = HasIds-weaken db.next_id n _ le h.change_ids;
    pipeline_ids = HasIds-weaken db.next_id n _ le h.pipeline_ids;
    delivery_ids = HasIds-weaken db.next_id n _ le h.delivery_ids;
    deliveries = h.deliveries;
  }

  later : IsSound (record db { next_id = suc db.next_id })
  later = later-IsSound (suc db.next_id) (omega arith)

  pub new_scan-IsSound :
      (s : ScanRunRow)
      → s.id ≡ db.next_id
      → IsSound (record db { scans = db.scans ++ s ∷ []; next_id = suc db.next_id })
  new_scan-IsSound s same = record {
    source_ids = later.source_ids;
    scan_ids = ids-append_new (λ (x : ScanRunRow). x.id) db.next_id db.scans s same h.scan_ids;
    dataset_ids = later.dataset_ids;
    change_ids = later.change_ids;
    pipeline_ids = later.pipeline_ids;
    delivery_ids = later.delivery_ids;
    deliveries = h.deliveries;
  }

  pub new_dataset-IsSound :
      (d : DatasetRow)
      → d.id ≡ db.next_id
      → IsSound (record db { datasets = db.datasets ++ d ∷ []; next_id = suc db.next_id })
  new_dataset-IsSound d same = record {
    source_ids = later.source_ids;
    scan_ids = later.scan_ids;
    dataset_ids =
        ids-append_new (λ (x : DatasetRow). x.id) db.next_id db.datasets d same h.dataset_ids;
    change_ids = later.change_ids;
    pipeline_ids = later.pipeline_ids;
    delivery_ids = later.delivery_ids;
    deliveries = h.deliveries;
  }

  pub new_change-IsSound :
      (c : SchemaChangeRow)
      → c.id ≡ db.next_id
      → IsSound (record db { changes = db.changes ++ c ∷ []; next_id = suc db.next_id })
  new_change-IsSound c same = record {
    source_ids = later.source_ids;
    scan_ids = later.scan_ids;
    dataset_ids = later.dataset_ids;
    change_ids =
        ids-append_new (λ (x : SchemaChangeRow). x.id) db.next_id db.changes c same h.change_ids;
    pipeline_ids = later.pipeline_ids;
    delivery_ids = later.delivery_ids;
    deliveries = h.deliveries;
  }

  pub new_delivery-IsSound :
      (d : AlertDeliveryRow)
      → d.id ≡ db.next_id
      → IsDelivery d
      → IsSound (record db { deliveries = db.deliveries ++ d ∷ []; next_id = suc db.next_id })
  new_delivery-IsSound d same new = record {
    source_ids = later.source_ids;
    scan_ids = later.scan_ids;
    dataset_ids = later.dataset_ids;
    change_ids = later.change_ids;
    pipeline_ids = later.pipeline_ids;
    delivery_ids =
        ids-append_new (λ (x : AlertDeliveryRow). x.id) db.next_id db.deliveries d same
          h.delivery_ids;
    deliveries = bounded db.deliveries h.deliveries;
  }
    where
      bounded : (ds : List AlertDeliveryRow) → All IsDelivery ds → All IsDelivery (ds ++ d ∷ [])
      bounded [] all = (new, tt)
      bounded (x ∷ xs) all = (all.0, bounded xs all.1)

  pub update_scans-IsSound :
      (p : ScanRunRow → Bool) (f : ScanRunRow → ScanRunRow)
      → ((s : ScanRunRow) → (f s).id ≡ s.id)
      → IsSound (record db { scans = update p f db.scans })
  update_scans-IsSound p f keep = record {
    source_ids = h.source_ids;
    scan_ids =
        subst (HasIds db.next_id) (sym (ids-update (λ (x : ScanRunRow). x.id) p f db.scans keep))
          h.scan_ids;
    dataset_ids = h.dataset_ids;
    change_ids = h.change_ids;
    pipeline_ids = h.pipeline_ids;
    delivery_ids = h.delivery_ids;
    deliveries = h.deliveries;
  }

  pub update_sources-IsSound :
      (p : DataSourceRow → Bool) (f : DataSourceRow → DataSourceRow)
      → ((x : DataSourceRow) → (f x).id ≡ x.id)
      → IsSound (record db { sources = update p f db.sources })
  update_sources-IsSound p f keep = record {
    source_ids =
        subst (HasIds db.next_id)
          (sym (ids-update (λ (x : DataSourceRow). x.id) p f db.sources keep)) h.source_ids;
    scan_ids = h.scan_ids;
    dataset_ids = h.dataset_ids;
    change_ids = h.change_ids;
    pipeline_ids = h.pipeline_ids;
    delivery_ids = h.delivery_ids;
    deliveries = h.deliveries;
  }

  pub update_changes-IsSound :
      (p : SchemaChangeRow → Bool) (f : SchemaChangeRow → SchemaChangeRow)
      → ((c : SchemaChangeRow) → (f c).id ≡ c.id)
      → IsSound (record db { changes = update p f db.changes })
  update_changes-IsSound p f keep = record {
    source_ids = h.source_ids;
    scan_ids = h.scan_ids;
    dataset_ids = h.dataset_ids;
    change_ids =
        subst (HasIds db.next_id)
          (sym (ids-update (λ (x : SchemaChangeRow). x.id) p f db.changes keep)) h.change_ids;
    pipeline_ids = h.pipeline_ids;
    delivery_ids = h.delivery_ids;
    deliveries = h.deliveries;
  }

  pub update_delivery-IsSound :
      (id : ℕ) (f : AlertDeliveryRow → AlertDeliveryRow)
      → ((d : AlertDeliveryRow) → (f d).id ≡ d.id)
      → ((d : AlertDeliveryRow) → find_delivery id db ≡ some d → IsDelivery (f d))
      → IsSound (update_delivery id f db)
  update_delivery-IsSound id f keep fine = record {
    source_ids = h.source_ids;
    scan_ids = h.scan_ids;
    dataset_ids = h.dataset_ids;
    change_ids = h.change_ids;
    pipeline_ids = h.pipeline_ids;
    delivery_ids =
        subst (HasIds db.next_id) (sym (ids-update_first (λ d. d.id == id) f db.deliveries keep))
          h.delivery_ids;
    deliveries =
        All-update_first (λ d. d.id == id) f IsDelivery db.deliveries h.deliveries
          (λ d found _. fine d found);
  }

  -- New pipelines take the ids from the next one on, in place of the old ones.
  pub replace_pipelines-IsSound :
      (ps : List PipelineRow) (n : ℕ)
      → db.next_id ≤ n
      → HasIds n (map (λ p. p.id) ps)
      → IsSound (record db { pipelines = ps; next_id = n })
  replace_pipelines-IsSound ps n le ids =
      let g = later-IsSound n le in
      record {
        source_ids = g.source_ids;
        scan_ids = g.scan_ids;
        dataset_ids = g.dataset_ids;
        change_ids = g.change_ids;
        pipeline_ids = ids;
        delivery_ids = g.delivery_ids;
        deliveries = h.deliveries;
      }

  -- The other tables are free.
  pub other_tables-IsSound :
      (expected : List ExpectedColumnRow) (observed : List ObservedColumnRow)
      (edges : List LineageEdgeRow)
      → IsSound (record db { expected = expected; observed = observed; edges = edges })
  other_tables-IsSound expected observed edges = record {
    source_ids = h.source_ids;
    scan_ids = h.scan_ids;
    dataset_ids = h.dataset_ids;
    change_ids = h.change_ids;
    pipeline_ids = h.pipeline_ids;
    delivery_ids = h.delivery_ids;
    deliveries = h.deliveries;
  }

  -- Datasets are told apart by their ids.
  pub dataset_eq_of_id :
      (a b : DatasetRow) → Memᴰ a db.datasets → Memᴰ b db.datasets → a.id ≡ b.id → a ≡ b
  dataset_eq_of_id a b m n same =
      eq_of_IsUnique-map (λ (d : DatasetRow). d.id) db.datasets a b h.dataset_ids.1 m n same

  -- The next id is free for a scan.
  pub scan-fresh : All (λ s. s.id < db.next_id) db.scans
  scan-fresh = All-of_ids (λ (s : ScanRunRow). s.id) db.next_id db.scans h.scan_ids.0
