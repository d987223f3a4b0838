-- ===== src/Control/Handlers.antt =====
-- internal/uicontrol/protocol.go: the functions that the operations are handed to.
use leaf_syncthing_pak.Control.Words.{Operation}

-- The functions of `Operations`, each of which may be nil.
pub data Handler : Type 0 where
  status enroll_card set_network_profile gateway_action folder_action folder_inspect : Handler
  plan_folder plan_folder_offer folder_offer_action create_folder prepare_first_sync : Handler
  start_first_sync set_folder_type folder_membership device_action prepare_reset : Handler
  set_log_level export_diagnostics cleanup_storage : Handler

unfoldable pub handler_of : Operation → Handler
handler_of Operation.get = Handler.status
handler_of Operation.enroll_card = Handler.enroll_card
handler_of Operation.network_set = Handler.set_network_profile
handler_of Operation.gateway_open = Handler.gateway_action
handler_of Operation.gateway_keep_alive = Handler.gateway_action
handler_of Operation.gateway_close = Handler.gateway_action
handler_of Operation.gateway_extend = Handler.gateway_action
handler_of Operation.gateway_revoke = Handler.gateway_action
handler_of Operation.folder_pause = Handler.folder_action
handler_of Operation.folder_resume = Handler.folder_action
handler_of Operation.folder_rescan = Handler.folder_action
handler_of Operation.folder_rename = Handler.folder_action
handler_of Operation.folder_inspect = Handler.folder_inspect
handler_of Operation.folder_onboard_plan = Handler.plan_folder
handler_of Operation.folder_offer_plan = Handler.plan_folder_offer
handler_of Operation.folder_offer_ignore = Handler.folder_offer_action
handler_of Operation.folder_offer_restore = Handler.folder_offer_action
handler_of Operation.folder_onboard_create = Handler.create_folder
handler_of Operation.folder_first_sync_prepare = Handler.prepare_first_sync
handler_of Operation.folder_first_sync_start = Handler.start_first_sync
handler_of Operation.folder_type_set = Handler.set_folder_type
handler_of Operation.folder_share = Handler.folder_membership
handler_of Operation.folder_unshare = Handler.folder_membership
handler_of Operation.folder_stop = Handler.folder_action
handler_of Operation.device_add = Handler.device_action
handler_of Operation.device_rename = Handler.device_action
handler_of Operation.device_remove = Handler.device_action
handler_of Operation.reset_prepare = Handler.prepare_reset
handler_of Operation.log_level_set = Handler.set_log_level
handler_of Operation.diagnostics_export = Handler.export_diagnostics
handler_of Operation.storage_cleanup = Handler.cleanup_storage
