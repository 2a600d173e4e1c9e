-- ===== src/Scan.antt =====
-- Scans: src/schema_sentry/infrastructure/db/repositories/scans.py and
-- src/schema_sentry/application/scan_service.py. `digest` stands for the SHA-256 of the compact JSON text
-- of a value, which the standard library computes.
pub mod Reading
pub mod Joins
pub mod Writing
pub mod Baseline
pub mod Collector
pub mod Service
pub mod Recording
pub mod Drift
pub mod Outcome
pub mod Frame
pub mod Ends
pub mod Again
pub mod Stored
pub mod Unregistered
