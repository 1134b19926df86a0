-- ===== src/Retention.antt =====
-- The clean-up of expired rows: apps/worker/src/processors/retention.util.ts and
-- retention-cleanup.processor.ts.
pub mod Plan
pub mod Sweep
pub mod Kept
pub mod Objects
mod Tests
