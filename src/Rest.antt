-- ===== src/Rest.antt =====
-- internal/syncthing: what the controller reads of the Syncthing process by its REST interface. The
-- replies of the process are a parameter.
pub mod Replies
pub mod Totals
pub mod Game
