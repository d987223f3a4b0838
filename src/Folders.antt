-- ===== src/Folders.antt =====
-- internal/controller: the durable binding of managed folders to physical cards.
pub mod Types
pub mod Device
pub mod Store
pub mod Upstream
pub mod Ops
pub mod Load
pub mod Valid
pub mod Rows
pub mod Reconcile
pub mod GameCheck
pub mod Examples
