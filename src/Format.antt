-- ===== src/Format.antt =====
-- The on-disk formats: packages/synology-apm-repo-sdk/src/synology_apm_repo/sdk/format.
pub mod Const
pub mod Address
pub mod Header
pub mod ChunkMap
pub mod Redundancy
pub mod Composition
pub mod Compression
pub mod Bucket
