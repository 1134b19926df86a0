-- ===== src/Invites.antt =====
-- The invites: apps/api/src/modules/invites.
pub mod Model
pub mod Store
pub mod Service
pub mod Rows
pub mod Single
pub mod Joining
mod Tests
