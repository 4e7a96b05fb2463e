-- ===== src/Browser/App.antt =====
-- core/app: the store of the background jobs.
pub mod Model
pub mod Update
pub mod Valid
pub mod Promote
pub mod Sound
pub mod Steps
pub mod Queue
pub mod Progress
