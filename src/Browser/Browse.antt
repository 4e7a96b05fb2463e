-- ===== src/Browser/Browse.antt =====
-- BROWSER/core/browse: the store of the screen that lists repositories, catalogs, workloads and
-- versions.
pub mod Model
pub mod Handlers
pub mod Update
pub mod Valid
pub mod Asked
pub mod Answers
pub mod Steps
pub mod NotHeld
pub mod Rescan
