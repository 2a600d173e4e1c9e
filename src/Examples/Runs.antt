-- ===== src/Examples/Runs.antt =====
-- Whole scans and a sync of the catalogue at concrete inputs.
use mathlib.Core.List.Memᴰ
use schema_sentry.Prelude.Int.{pos}
use schema_sentry.Prelude.{
  String_eq, is_some, true, false, none, some, ◌⊎◌, String, List, [], ◌∷◌, map, Memᴰ, ◌≡◌, ◌↔◌,
  refl, sym, ap, ◌∙◌, arith,
}
use schema_sentry.Prelude.Json.{Json, null}
use schema_sentry.Prelude.Result.{ok, err}
use schema_sentry.Domain.Enums.{manual, slack, pending, AlertChannel_eq}
use schema_sentry.Store.{Db, ExpectedColumnRow, AlertDeliveryRow, lookup_error}
use schema_sentry.Scan.Writing.{
  change_fingerprint, complete_drift_scan, complete_scan, persist_observations,
}
use schema_sentry.Scan.Service.{Clock, run_scan}
use schema_sentry.Scan.Drift.{IsOpen}
use schema_sentry.Domain.Diff.{diff_columns}
use schema_sentry.Domain.Models.{SchemaChange, ColumnDefinition, column_ref}
use schema_sentry.Scan.Baseline.{complete_initial_baseline}
use schema_sentry.Scan.Reading.{load_expected_columns}
use schema_sentry.Scan.Stored.Again.{complete_initial_baseline-loaded}
use schema_sentry.Scan.Unregistered.{complete_drift_scan-unregistered}
use schema_sentry.Scan.Ends.{Ended}
use schema_sentry.Scan.Again.{complete_drift_scan_again}
use schema_sentry.Catalog.Config.{CatalogError, PipelineContent}
use schema_sentry.Catalog.Sync.{CatalogSyncResult}
use schema_sentry.Catalog.Synced.{IsRegistered, IsRegistrable}
use schema_sentry.Examples.Data.{
  level, rank, rank_added, game, scan, level_changed, store, delivery_row,
}
use schema_sentry.Prelude.Dict
use schema_sentry.Prelude.Dict.{index_by}
use schema_sentry.Security.{Settings, production}
use schema_sentry.Alerts.{Notifier, delivery_failed, list_dispatchable_for_scan}
use schema_sentry.Alerts.Context.{ScanAlertContext, context_of, context_changes, get_scan_context}
use schema_sentry.Alerts.Dispatcher.{enabled_channels, notifiers, notifiers-enabled, dispatched}
use schema_sentry.System.{by_channel, sync_catalog, scan_request}
use schema_sentry.System.Sound.{IsSound}
use schema_sentry.System.Outcomes.{sound_run-Ended, sync_catalog_exact}
use schema_sentry.Alerts.Settled.{IsBroken}
use schema_sentry.System.Settled.{dispatched-settles}
use schema_sentry.System.Reachable.{
  first_db, synced_catalog, scanned, at_first, after_step, IsReachable-IsSound,
}

abbrev digest : Json → String
digest j = "level"

abbrev clock : Clock
clock = record { started_at = 100; finished_at = 200; failed_at = 300 }

current :
    (fingerprint : String)
    → IsOpen 1 fingerprint store.changes
      ↔ Memᴰ fingerprint (map (change_fingerprint digest "game") (rank_added ∷ []))
current fingerprint = (to, from)
  where
    to : IsOpen 1 fingerprint store.changes → Memᴰ fingerprint ("level" ∷ [])
    to h = named_level h.stored
      where
        named_level : Memᴰ h.row (level_changed ∷ []) → Memᴰ fingerprint ("level" ∷ [])
        named_level (Memᴰ.head same) = Memᴰ.head (sym h.named ∙ ap (λ x. x.fingerprint) same)
        named_level (Memᴰ.tail m) = absurd (Memᴰ.not-nil m)

    from : Memᴰ fingerprint ("level" ∷ []) → IsOpen 1 fingerprint store.changes
    from (Memᴰ.head same) = record {
      row = level_changed;
      stored = Memᴰ.head refl;
      of_source = refl;
      is_open = refl;
      named = sym same;
    }
    from (Memᴰ.tail m) = absurd (Memᴰ.not-nil m)

complete_drift_scan_again_example :
    complete_drift_scan digest (slack ∷ []) 3 "game" (level ∷ rank ∷ []) (rank_added ∷ []) 50 store
    ≡ (ok tt, complete_scan scan 50 (persist_observations scan (level ∷ rank ∷ []) store))
complete_drift_scan_again_example =
    complete_drift_scan_again digest (slack ∷ []) 3 "game" (level ∷ rank ∷ []) (rank_added ∷ []) 50
      store game scan refl refl current

abbrev waiting : AlertDeliveryRow
waiting = record delivery_row { attempt_count = 0 }

abbrev expected_level : ExpectedColumnRow
expected_level = record {
  dataset_id = 2;
  name = "level";
  data_type_json = null;
  nullable = false;
  default_expression = none;
  ordinal = pos 1;
}

abbrev expected_report : ExpectedColumnRow
expected_report = record expected_level { dataset_id = 6 }

abbrev known_store : Db
known_store = record store {
  deliveries = waiting ∷ [];
  expected = expected_level ∷ expected_report ∷ [];
  pipelines = [];
  edges = [];
}

abbrev content : List PipelineContent
content =
    record {
      key = "weekly";
      airflow_dag_id = "weekly";
      owner = "data";
      criticality = "high";
      inputs = record { dataset = "public.players"; columns = "level" ∷ [] } ∷ [];
      outputs = record { dataset = "mart.report"; columns = "level" ∷ [] } ∷ [];
    }
    ∷ []

known_store-IsSound : IsSound known_store
known_store-IsSound = record {
  source_ids = ((omega arith, tt), (refl, tt));
  scan_ids = ((omega arith, tt), (refl, tt));
  dataset_ids = ((omega arith, (omega arith, tt)), (refl, (refl, tt)));
  change_ids = ((omega arith, tt), (refl, tt));
  pipeline_ids = (tt, tt);
  delivery_ids = ((omega arith, tt), (refl, tt));
  deliveries = ((omega arith, λ _. (refl, refl)), tt);
}

sound_run-Ended_example :
    Ended 8 1 manual clock
      (run_scan digest (slack ∷ []) true (ok (level ∷ rank ∷ [])) clock "game" manual known_store)
sound_run-Ended_example =
    sound_run-Ended digest (slack ∷ []) (ok (level ∷ rank ∷ [])) clock "game" manual known_store
      game known_store-IsSound refl

sync_catalog_exact_example :
    ((r : CatalogSyncResult) × (db' : Db) × (sync_catalog (some content) known_store ≡ (ok r, db'))
      × IsRegistered (some content) known_store r db')
    ⊎ ((e : CatalogError) × (sync_catalog (some content) known_store ≡ (err e, known_store))
        × ¬ IsRegistrable known_store (some content))
sync_catalog_exact_example = sync_catalog_exact (some content) known_store known_store-IsSound

-- ---------------------------------------------------------------- alerts

abbrev settings : Settings
settings = record {
  environment = production;
  api_key = "secret";
  auth_disabled = false;
  trust_proxy_auth = false;
  slack_webhook_url = some "https://hooks";
  email_to = [];
  dashboard_base_url = "http://localhost:8000/";
}

abbrev message : ScanAlertContext → String
message context = context.source_key

abbrev by_slack : String → Notifier String
by_slack url text = ok (some text)

abbrev by_email : List String → Notifier String
by_email recipients text = err (delivery_failed "refused")

enabled :
    (d : AlertDeliveryRow)
    → Memᴰ d known_store.deliveries
    → d.scan_id ≡ 3
    → d.status ≡ pending
    → Memᴰ d.channel (enabled_channels settings)
unfolding enabled_channels
enabled d (Memᴰ.head same) of_scan waits = Memᴰ.head (ap (λ x. x.channel) same)
enabled d (Memᴰ.tail m) of_scan waits = absurd (Memᴰ.not-nil m)

dispatched-settles_example :
    (list_dispatchable_for_scan 3 (
        dispatched get_scan_context message
          (by_channel digest message by_slack by_email settings)
          3
          100
          known_store)
      ≡ [])
    ⊎ ((d : AlertDeliveryRow) × (name : String) × Memᴰ d known_store.deliveries
        × (d.scan_id ≡ 3)
        × (d.status ≡ pending)
        × IsBroken get_scan_context message
            (by_channel digest message by_slack by_email settings)
            known_store
            d
            name
        × (dispatched get_scan_context message
              (by_channel digest message by_slack by_email settings)
              3
              100
              known_store
            ≡ known_store))
unfolding get_scan_context context_of
dispatched-settles_example =
    dispatched-settles digest message by_slack by_email settings 3 100 known_store
      (record {
        scan_id = 3;
        source_key = "game";
        error_code = none;
        changes = context_changes 3 known_store;
      })
      known_store-IsSound refl enabled

notifiers-enabled_example :
    (is_some (Dict.get slack (notifiers by_slack by_email settings)) ≡ true)
    ↔ Memᴰ slack (enabled_channels settings)
notifiers-enabled_example = notifiers-enabled by_slack by_email settings slack

abbrev synced : Db
synced = (sync_catalog (some content) (first_db (game ∷ []) 2)).1

abbrev scanned_again : Db
scanned_again =
    (scan_request digest message by_slack by_email settings (some "secret") none true
      (ok (level ∷ rank ∷ [])) clock "game" 400 synced).1

IsReachable-IsSound_example : IsSound scanned_again
IsReachable-IsSound_example =
    IsReachable-IsSound digest message by_slack by_email settings scanned_again (
      after_step
        (after_step (at_first (game ∷ []) 2 ((omega arith, tt), (refl, tt)))
          (synced_catalog (some content) (first_db (game ∷ []) 2)))
        (scanned (some "secret") none true (ok (level ∷ rank ∷ [])) clock "game" 400 synced))

-- ---------------------------------------------------------------- the baseline

abbrev new_store : Db
new_store = record (first_db (game ∷ []) 8) { scans = scan ∷ [] }

distinct_columns :
    (a b : ColumnDefinition)
    → Memᴰ a (level ∷ rank ∷ [])
    → Memᴰ b (level ∷ rank ∷ [])
    → column_ref a ≡ column_ref b
    → a ≡ b
distinct_columns a b (Memᴰ.head p) (Memᴰ.head q) h = p ∙ sym q
distinct_columns a b (Memᴰ.head p) (Memᴰ.tail (Memᴰ.head q)) h = absurd (
    ground (
      arith,
      (String_eq.test_iff "level" "rank").1
          (sym (ap (λ x. x.name) p) ∙ ap (λ r. r.name) h ∙ ap (λ x. x.name) q),
    ))
distinct_columns a b (Memᴰ.tail (Memᴰ.head p)) (Memᴰ.head q) h = absurd (
    ground (
      arith,
      (String_eq.test_iff "rank" "level").1
          (sym (ap (λ x. x.name) p) ∙ ap (λ r. r.name) h ∙ ap (λ x. x.name) q),
    ))
distinct_columns a b (Memᴰ.tail (Memᴰ.head p)) (Memᴰ.tail (Memᴰ.head q)) h = p ∙ sym q
distinct_columns a b (Memᴰ.tail (Memᴰ.tail m)) n h = absurd (Memᴰ.not-nil m)
distinct_columns a b m (Memᴰ.tail (Memᴰ.tail n)) h = absurd (Memᴰ.not-nil n)

complete_initial_baseline-loaded_example :
    (loaded : List ColumnDefinition) × (db' : Db) × (complete_initial_baseline 3 "game"
        (level ∷ rank ∷ [])
        50
        new_store
      ≡ (ok tt, db'))
    × (load_expected_columns "game" db' ≡ (ok loaded, db'))
    × ((c : ColumnDefinition) → Memᴰ c loaded ↔ Memᴰ c (level ∷ rank ∷ []))
    × (diff_columns loaded (level ∷ rank ∷ []) [] ≡ ok [])
complete_initial_baseline-loaded_example =
    complete_initial_baseline-loaded 3 "game" (level ∷ rank ∷ []) 50 new_store game scan [] refl
      refl (tt, tt) (λ r m. absurd (Memᴰ.not-nil m)) (λ r d m n s e. Memᴰ.not-nil m)
      distinct_columns

-- ---------------------------------------------------------------- a new table

abbrev score_added : SchemaChange
score_added = record rank_added { dataset = record { schema = "public"; table = "scores" } }

abbrev other_digest : Json → String
other_digest j = "score"

complete_drift_scan-unregistered_example :
    (complete_drift_scan other_digest
      (slack ∷ [])
      3
      "game"
      (level ∷ rank ∷ [])
      (score_added ∷ [])
      50
      store).0
    ≡ err lookup_error
unfolding Dict.get index_by Dict.put
complete_drift_scan-unregistered_example =
    complete_drift_scan-unregistered other_digest (slack ∷ []) 3 "game" (level ∷ rank ∷ [])
      (score_added ∷ []) 50 store game scan score_added refl refl (Memᴰ.head refl) refl refl
