-- ===== src/Examples.antt =====
-- The theorems at concrete inputs: a game source with one table, a pipeline that reads it, and a delivery.
mod Acceptance
mod Data
mod Domains
mod Services
mod Runs
mod Pages
