-- ===== src/Entries/Repository.antt =====
-- apps/api/src/modules/time-entries/time-entries.repository.ts. A method takes the tables and the
-- clock; one that writes runs in a single transaction, so it returns the new tables or an error.
pub mod Rows
pub mod Upsert
pub mod Writes
pub mod Reads
