-- ===== src/Control/Calls/Bounded.antt =====
-- What a call carries is within the bounds of the protocol.
use leaf_syncthing_pak.Base.{◌≡◌, refl, some, Text, codes}
use leaf_syncthing_pak.Control.Words.{
  Operation, get, enroll_card, network_set, gateway_open, gateway_keep_alive, gateway_close,
  gateway_extend, gateway_revoke, folder_pause, folder_resume, folder_rescan, folder_rename,
  folder_inspect, folder_onboard_plan, folder_offer_plan, folder_offer_ignore, folder_offer_restore,
  folder_onboard_create, folder_first_sync_prepare, folder_first_sync_start, folder_type_set,
  folder_share, folder_unshare, folder_stop, device_add, device_rename, device_remove,
  reset_prepare, log_level_set, diagnostics_export, storage_cleanup,
}
use leaf_syncthing_pak.Control.Arguments.{
  Json, Call, empty_object, decode_confirmed, decode_network_profile, decode_enroll_card,
  decode_folder_membership, decode_first_sync_prepare, decode_id, decode_confirmed_id, decode_named,
  decode_reset, decode_log_level,
}
use leaf_syncthing_pak.Control.Calls.{decode_call}
use leaf_syncthing_pak.Control.Calls.Confirmed.{bind-some}
use leaf_syncthing_pak.Control.Calls.Bounds.{IsBounded, some-IsBounded, given-IsBounded}
use leaf_syncthing_pak.Control.Calls.Decoders.{
  decode_network_profile-bounded, decode_enroll_card-IsIdentifier, decode_onboarding_plan-IsBounded,
  decode_folder_offer_plan-IsBounded, decode_folder_membership-bounded,
  decode_onboarding_create-IsBounded, decode_first_sync_prepare-IsIdentifier,
  decode_first_sync_start-IsBounded, decode_folder_type-IsBounded, decode_id-IsIdentifier,
  decode_confirmed_id-IsIdentifier, decode_named-bounded, decode_reset-bounded,
  decode_log_level-bounded, decode_storage_cleanup-IsBounded,
}

module _ (json : Json) (raw : Text) where
  -- What a call carries is within the bounds of the protocol, and it is the call of its operation.
  pub decode_call-IsBounded :
      (op : Operation) (call : Call) → decode_call json op raw ≡ some call → IsBounded op call
  unfolding decode_call
  decode_call-IsBounded get call e = given-IsBounded get (empty_object json raw) _ call refl e
  decode_call-IsBounded enroll_card call e =
      let (v, k, made) = bind-some (decode_enroll_card json raw) _ call e in
      some-IsBounded enroll_card _ call (refl, decode_enroll_card-IsIdentifier json raw v k) made
  decode_call-IsBounded network_set call e =
      let (v, k, made) = bind-some (decode_network_profile json raw) _ call e in
      some-IsBounded network_set _ call (refl, decode_network_profile-bounded json raw v k) made
  decode_call-IsBounded gateway_open call e =
      given-IsBounded gateway_open (empty_object json raw) _ call refl e
  decode_call-IsBounded gateway_keep_alive call e =
      given-IsBounded gateway_keep_alive (empty_object json raw) _ call refl e
  decode_call-IsBounded gateway_close call e =
      given-IsBounded gateway_close (empty_object json raw) _ call refl e
  decode_call-IsBounded gateway_extend call e =
      let (v, k, made) = bind-some (decode_confirmed json raw) _ call e in
      some-IsBounded gateway_extend _ call refl made
  decode_call-IsBounded gateway_revoke call e =
      let (v, k, made) = bind-some (decode_confirmed json raw) _ call e in
      some-IsBounded gateway_revoke _ call refl made
  decode_call-IsBounded folder_pause call e =
      let (v, k, made) = bind-some (decode_id json raw (codes "folder_id")) _ call e in
      some-IsBounded folder_pause _ call
        (refl, decode_id-IsIdentifier json raw (codes "folder_id") v k, refl) made
  decode_call-IsBounded folder_resume call e =
      let (v, k, made) = bind-some (decode_id json raw (codes "folder_id")) _ call e in
      some-IsBounded folder_resume _ call
        (refl, decode_id-IsIdentifier json raw (codes "folder_id") v k, refl) made
  decode_call-IsBounded folder_rescan call e =
      let (v, k, made) = bind-some (decode_id json raw (codes "folder_id")) _ call e in
      some-IsBounded folder_rescan _ call
        (refl, decode_id-IsIdentifier json raw (codes "folder_id") v k, refl) made
  decode_call-IsBounded folder_rename call e =
      let (v, k, made) =
        bind-some (decode_named json raw (codes "folder_id") (codes "label") 96) _ call e in
      some-IsBounded folder_rename _ call
        (let (p, q) = decode_named-bounded json raw (codes "folder_id") (codes "label") 96 v k in
          (refl, p, q))
        made
  decode_call-IsBounded folder_inspect call e =
      let (v, k, made) = bind-some (decode_id json raw (codes "folder_id")) _ call e in
      some-IsBounded folder_inspect _ call
        (refl, decode_id-IsIdentifier json raw (codes "folder_id") v k) made
  decode_call-IsBounded folder_onboard_plan call e =
      decode_onboarding_plan-IsBounded json raw call e
  decode_call-IsBounded folder_offer_plan call e =
      decode_folder_offer_plan-IsBounded json raw call e
  decode_call-IsBounded folder_offer_ignore call e =
      let (v, k, made) = bind-some (decode_folder_membership json raw) _ call e in
      some-IsBounded folder_offer_ignore _ call
        (let (p, q) = decode_folder_membership-bounded json raw v k in (refl, p, q)) made
  decode_call-IsBounded folder_offer_restore call e =
      let (v, k, made) = bind-some (decode_folder_membership json raw) _ call e in
      some-IsBounded folder_offer_restore _ call
        (let (p, q) = decode_folder_membership-bounded json raw v k in (refl, p, q)) made
  decode_call-IsBounded folder_onboard_create call e =
      decode_onboarding_create-IsBounded json raw call e
  decode_call-IsBounded folder_first_sync_prepare call e =
      let (v, k, made) = bind-some (decode_first_sync_prepare json raw) _ call e in
      some-IsBounded folder_first_sync_prepare _ call
        (refl, decode_first_sync_prepare-IsIdentifier json raw v k) made
  decode_call-IsBounded folder_first_sync_start call e =
      decode_first_sync_start-IsBounded json raw call e
  decode_call-IsBounded folder_type_set call e = decode_folder_type-IsBounded json raw call e
  decode_call-IsBounded folder_share call e =
      let (v, k, made) = bind-some (decode_folder_membership json raw) _ call e in
      some-IsBounded folder_share _ call
        (let (p, q) = decode_folder_membership-bounded json raw v k in (refl, p, q)) made
  decode_call-IsBounded folder_unshare call e =
      let (v, k, made) = bind-some (decode_folder_membership json raw) _ call e in
      some-IsBounded folder_unshare _ call
        (let (p, q) = decode_folder_membership-bounded json raw v k in (refl, p, q)) made
  decode_call-IsBounded folder_stop call e =
      let (v, k, made) = bind-some (decode_confirmed_id json raw (codes "folder_id")) _ call e in
      some-IsBounded folder_stop _ call
        (refl, decode_confirmed_id-IsIdentifier json raw (codes "folder_id") v k, refl) made
  decode_call-IsBounded device_add call e =
      let (v, k, made) =
        bind-some (decode_named json raw (codes "device_id") (codes "name") 64) _ call e in
      some-IsBounded device_add _ call
        (let (p, q) = decode_named-bounded json raw (codes "device_id") (codes "name") 64 v k in
          (refl, p, q))
        made
  decode_call-IsBounded device_rename call e =
      let (v, k, made) =
        bind-some (decode_named json raw (codes "device_id") (codes "name") 64) _ call e in
      some-IsBounded device_rename _ call
        (let (p, q) = decode_named-bounded json raw (codes "device_id") (codes "name") 64 v k in
          (refl, p, q))
        made
  decode_call-IsBounded device_remove call e =
      let (v, k, made) = bind-some (decode_confirmed_id json raw (codes "device_id")) _ call e in
      some-IsBounded device_remove _ call
        (refl, decode_confirmed_id-IsIdentifier json raw (codes "device_id") v k, refl) made
  decode_call-IsBounded reset_prepare call e =
      let (v, k, made) = bind-some (decode_reset json raw) _ call e in
      some-IsBounded reset_prepare _ call (refl, decode_reset-bounded json raw v k) made
  decode_call-IsBounded log_level_set call e =
      let (v, k, made) = bind-some (decode_log_level json raw) _ call e in
      some-IsBounded log_level_set _ call (refl, decode_log_level-bounded json raw v k) made
  decode_call-IsBounded diagnostics_export call e =
      given-IsBounded diagnostics_export (empty_object json raw) _ call refl e
  decode_call-IsBounded storage_cleanup call e = decode_storage_cleanup-IsBounded json raw call e
