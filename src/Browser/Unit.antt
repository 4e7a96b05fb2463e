-- ===== src/Browser/Unit.antt =====
-- core/unit: the store of `UnitScreen`.
pub mod Model
mod Texts
pub mod Children
pub mod Goto
pub mod Update
pub mod Stale
pub mod Valid
pub mod Good
pub mod Steps
pub mod Run
pub mod Paging
pub mod Total
pub mod Landed
pub mod Landing
pub mod Raises
