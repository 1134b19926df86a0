-- ===== src/WorkTypes.antt =====
-- The work types: apps/api/src/modules/work-types.
pub mod Model
pub mod Plan
pub mod Apply
pub mod Rows
pub mod Linked
pub mod Planned
pub mod Synced
pub mod Writes
pub mod Updated
pub mod Created
pub mod Complete
pub mod Refines
pub mod Succeeds
pub mod Selection
pub mod Reconciles
pub mod Edits
pub mod Service
pub mod Reached
pub mod Selected
pub mod Saving
mod Tests
