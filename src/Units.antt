-- ===== src/Units.antt =====
-- The browsable tree of restorable units:
-- packages/synology-apm-repo-sdk/src/synology_apm_repo/sdk/units.
pub mod Node
pub mod Ref
