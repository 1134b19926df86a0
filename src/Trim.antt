-- ===== src/Trim.antt =====
-- apps/worker/src/processors/runaway-entry-trim.ts: the repair of time entries that ran unattended.
pub mod Stretches
mod Anchors
mod Cover
mod Separated
mod Repair
mod Head
mod Rows
mod Effects
mod Tests
