-- ===== src/Browser.antt =====
-- The pure core of the browser:
-- packages/synology-apm-repo-browser/src/synology_apm_repo/browser/core.
pub mod Keys
pub mod Digits
pub mod Unit
pub mod App
pub mod RemoteData
pub mod Browse
