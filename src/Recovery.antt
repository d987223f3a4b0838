-- ===== src/Recovery.antt =====
-- internal/controller: changes of the managed folders that are finished after a restart.
pub mod Attempts
pub mod Waiting
pub mod Membership
pub mod Pending
pub mod Stops
mod Examples
