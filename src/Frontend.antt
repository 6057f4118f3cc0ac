-- ===== src/Frontend.antt =====
-- The parts of `frontend/app.js`.
pub mod Setup
pub mod Remotes
pub mod Selects
pub mod Saved
pub mod Routines
pub mod Rules
pub mod Cards
pub mod Views
pub mod Live
