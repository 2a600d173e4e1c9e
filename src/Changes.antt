-- ===== src/Changes.antt =====
-- The life of a change after a scan: acceptance into the baseline, and the check of a pipeline.
pub mod Accept
pub mod Version
pub mod Refused
pub mod Guard
