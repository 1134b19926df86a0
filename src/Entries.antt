-- ===== src/Entries.antt =====
-- The time entries: apps/api/src/modules/time-entries and packages/contracts/src/time-entry.ts.
pub mod Model
pub mod Schema
pub mod Table
pub mod Repository
pub mod Service
pub mod Edit
pub mod Requests
pub mod Index
pub mod Invariant
pub mod Inversion
pub mod Known
pub mod Fresh
pub mod Synced
pub mod Recorded
pub mod Isolation
pub mod Retry
pub mod Persistence
pub mod Overlap
pub mod Applies
pub mod Editing
pub mod Filing
pub mod Listing
pub mod Inverted
mod Tests
pub mod Serving
