-- ===== src/Catalog.antt =====
-- The catalogue of pipelines: the configuration and the sync of src/schema_sentry/application/catalog_service.py,
-- and the lineage that src/schema_sentry/infrastructure/db/repositories/catalog.py stores.
pub mod Config
pub mod Sync
pub mod Valid
pub mod Checked
pub mod Accepted
pub mod Loaded
pub mod Correct
pub mod Synced
