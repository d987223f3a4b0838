-- ===== src/Gateway.antt =====
-- internal/gateway: the read-only browser view, its pairing and its trusted browsers.
pub mod Trust
pub mod Manager
pub mod Urls
pub mod Routes
pub mod Examples
