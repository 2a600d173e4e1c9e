-- ===== src/Domain.antt =====
-- The framework-independent policy domain: src/schema_sentry/domain.
pub mod Enums
pub mod Models
pub mod TypeRules
pub mod Diff
pub mod Lineage
