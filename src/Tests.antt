-- ===== src/Tests.antt =====
-- Concrete runs of the development: the theorems applied to inputs where their conditions hold.
mod Formats
mod Caches
mod Store
mod Buckets
mod Jobs
mod Refs
mod Screens
mod Readers
