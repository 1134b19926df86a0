-- ===== src/SignIn.antt =====
-- Who may sign in: the password login and the single sign-on of apps/api/src/modules/auth.
pub mod Model
pub mod Directory
pub mod Service
pub mod Subjects
pub mod Active
mod Tests
