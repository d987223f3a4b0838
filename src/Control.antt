-- ===== src/Control.antt =====
-- internal/uicontrol: the requests of the screen and the answers of the controller.
pub mod Words
pub mod Arguments
pub mod Calls
pub mod Status
pub mod Validate
pub mod Handlers
pub mod Handle
pub mod Server
mod Examples
