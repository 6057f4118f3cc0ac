-- ===== src/Firmware.antt =====
-- The parts of the hub's firmware that the setup page talks to: `firmware/src`.
pub mod NetConfig
pub mod Provision
