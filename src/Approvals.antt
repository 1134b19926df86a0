-- ===== src/Approvals.antt =====
-- The approval of timesheets: apps/worker/src/processors/timesheet-auto-approve.ts, and the reviews of
-- apps/api/src/modules/approvals.
pub mod Job
pub mod Decisions
pub mod Reviews
pub mod Scopes
mod Tests
