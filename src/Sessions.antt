-- ===== src/Sessions.antt =====
-- The refresh tokens: apps/api/src/modules/auth.
pub mod Model
pub mod Store
pub mod Requests
pub mod Keys
pub mod Monotone
pub mod Interleaving
pub mod Answers
pub mod Logout
pub mod Rotation
pub mod Reuse
pub mod Races
mod Tests
