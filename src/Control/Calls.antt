-- ===== src/Control/Calls.antt =====
-- internal/uicontrol/protocol.go: the switch of `Operations.Handle`, up to the call.
pub mod Confirmed
pub mod Bounds
pub mod Decoders
pub mod Bounded
use leaf_syncthing_pak.Base.{Bool, true, false, Option, none, some, List, [], ◌∷◌, Text, codes}
use leaf_syncthing_pak.Control.Words.{
  Operation, get, enroll_card, network_set, gateway_open, gateway_keep_alive, gateway_close,
  gateway_extend, gateway_revoke, folder_pause, folder_resume, folder_rescan, folder_rename,
  folder_inspect, folder_onboard_plan, folder_offer_plan, folder_offer_ignore, folder_offer_restore,
  folder_onboard_create, folder_first_sync_prepare, folder_first_sync_start, folder_type_set,
  folder_share, folder_unshare, folder_stop, device_add, device_rename, device_remove,
  reset_prepare, log_level_set, diagnostics_export, storage_cleanup,
}
use leaf_syncthing_pak.Control.Arguments.{
  Json, Call, status, enroll, set_network_profile, gateway_action, folder_action, inspect_folder,
  folder_offer_action, folder_membership, device_action, prepare_first_sync, prepare_reset,
  set_log_level, export_diagnostics, given, ◌>>=◌, empty_object, decode_confirmed,
  decode_network_profile, decode_enroll_card, decode_onboarding_plan, decode_folder_offer_plan,
  decode_folder_membership, decode_onboarding_create, decode_first_sync_prepare,
  decode_first_sync_start, decode_folder_type, decode_id, decode_confirmed_id, decode_named,
  decode_reset, decode_log_level, decode_storage_cleanup,
}

module _ (json : Json) where
  unfoldable pub decode_call : Operation → Text → Option Call
  decode_call get raw = given (empty_object json raw) status
  decode_call enroll_card raw = do source_id ← decode_enroll_card json raw; some (enroll source_id)
  decode_call network_set raw = do
    profile ← decode_network_profile json raw
    some (set_network_profile profile)
  decode_call gateway_open raw = given (empty_object json raw) (gateway_action gateway_open)
  decode_call gateway_keep_alive raw =
      given (empty_object json raw) (gateway_action gateway_keep_alive)
  decode_call gateway_close raw = given (empty_object json raw) (gateway_action gateway_close)
  decode_call gateway_extend raw = do
    _ ← decode_confirmed json raw
    some (gateway_action gateway_extend)
  decode_call gateway_revoke raw = do
    _ ← decode_confirmed json raw
    some (gateway_action gateway_revoke)
  decode_call folder_pause raw = do
    folder_id ← decode_id json raw (codes "folder_id")
    some (folder_action folder_pause folder_id [])
  decode_call folder_resume raw = do
    folder_id ← decode_id json raw (codes "folder_id")
    some (folder_action folder_resume folder_id [])
  decode_call folder_rescan raw = do
    folder_id ← decode_id json raw (codes "folder_id")
    some (folder_action folder_rescan folder_id [])
  decode_call folder_stop raw = do
    folder_id ← decode_confirmed_id json raw (codes "folder_id")
    some (folder_action folder_stop folder_id [])
  decode_call folder_inspect raw = do
    folder_id ← decode_id json raw (codes "folder_id")
    some (inspect_folder folder_id)
  decode_call folder_rename raw = do
    named ← decode_named json raw (codes "folder_id") (codes "label") 96
    some (folder_action folder_rename named.0 named.1)
  decode_call folder_onboard_plan raw = decode_onboarding_plan json raw
  decode_call folder_offer_plan raw = decode_folder_offer_plan json raw
  decode_call folder_offer_ignore raw = do
    offer ← decode_folder_membership json raw
    some (folder_offer_action folder_offer_ignore offer.0 offer.1)
  decode_call folder_offer_restore raw = do
    offer ← decode_folder_membership json raw
    some (folder_offer_action folder_offer_restore offer.0 offer.1)
  decode_call folder_share raw = do
    member ← decode_folder_membership json raw
    some (folder_membership folder_share member.0 member.1)
  decode_call folder_unshare raw = do
    member ← decode_folder_membership json raw
    some (folder_membership folder_unshare member.0 member.1)
  decode_call folder_onboard_create raw = decode_onboarding_create json raw
  decode_call folder_first_sync_prepare raw = do
    folder_id ← decode_first_sync_prepare json raw
    some (prepare_first_sync folder_id)
  decode_call folder_first_sync_start raw = decode_first_sync_start json raw
  decode_call folder_type_set raw = decode_folder_type json raw
  decode_call device_add raw = do
    named ← decode_named json raw (codes "device_id") (codes "name") 64
    some (device_action device_add named.0 named.1)
  decode_call device_rename raw = do
    named ← decode_named json raw (codes "device_id") (codes "name") 64
    some (device_action device_rename named.0 named.1)
  decode_call device_remove raw = do
    device_id ← decode_confirmed_id json raw (codes "device_id")
    some (device_action device_remove device_id [])
  decode_call reset_prepare raw = do action ← decode_reset json raw; some (prepare_reset action)
  decode_call log_level_set raw = do level ← decode_log_level json raw; some (set_log_level level)
  decode_call diagnostics_export raw = given (empty_object json raw) export_diagnostics
  decode_call storage_cleanup raw = decode_storage_cleanup json raw
