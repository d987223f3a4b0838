-- ===== src/Reset.antt =====
-- internal/controller/reset.go: the removal of the device's Syncthing state after a confirmation.
pub mod Documents
pub mod Run
pub mod Steps
pub mod Flushes
pub mod Safe
pub mod Works
pub mod Recovered
pub mod Own
pub mod Harmless
mod Examples
