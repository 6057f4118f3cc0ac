-- ===== src/Frontend/Setup.antt =====
-- The hub setup page of `frontend/app.js`: the form and its checks, what `setupApply` and
-- `setupForget` write over Bluetooth, and the status that the hub reports.
pub mod Encoding
pub mod Status
pub mod Form
pub mod Apply
pub mod Find
pub mod Checks
pub mod Partial
pub mod Reports
