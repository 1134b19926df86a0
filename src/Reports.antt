-- ===== src/Reports.antt =====
-- The reports: apps/api/src/modules/reports.
pub mod Csv
pub mod Reader
pub mod Export
mod Tests
