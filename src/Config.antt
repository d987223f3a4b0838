-- ===== src/Config.antt =====
-- internal/syncthing: the committed upstream configuration and its recovery.
pub mod Files
pub mod Monad
pub mod Promote
pub mod Recover
pub mod CrashSafety
pub mod Examples
