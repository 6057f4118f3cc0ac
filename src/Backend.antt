-- ===== src/Backend.antt =====
-- The backend, `backend/server.js`.
pub mod Slug
pub mod Lowdb
pub mod State
pub mod Http
pub mod Remotes
pub mod Fire
pub mod Clients
pub mod Learn
pub mod Routines
pub mod Price
pub mod Rules
pub mod Steps
