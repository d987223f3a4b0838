-- ===== src/FirstSync.antt =====
-- internal/controller/first_sync.go: the protection of a folder until its first sync was started.
pub mod Documents
pub mod Manager
mod Examples
