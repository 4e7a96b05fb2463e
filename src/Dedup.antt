-- ===== src/Dedup.antt =====
-- The reading of deduplicated files: packages/synology-apm-repo-sdk/src/synology_apm_repo/sdk/dedup.
pub mod CompositionReader
