-- ===== src/Life1.antt =====
-- internal/life1: the framed messages that the controller and the launcher exchange.
pub mod Wire
pub mod Events
pub mod Examples
