-- ===== src/Control/Words.antt =====
-- internal/uicontrol/protocol.go: the operations by their names, and the tests on texts.
use leaf_syncthing_pak.Base.{
  ℕ, Bool, not, ◌&&◌, ◌||◌, List, [], ◌∷◌, all, any, length, ltb, ◌==◌, between, Text, codes,
  text_eq, Dict,
}

pub data Operation : Type 0 where
  get enroll_card network_set : Operation
  gateway_open gateway_keep_alive gateway_close gateway_extend gateway_revoke : Operation
  folder_pause folder_resume folder_rescan folder_rename folder_inspect : Operation
  folder_onboard_plan folder_offer_plan folder_offer_ignore folder_offer_restore : Operation
  folder_onboard_create folder_first_sync_prepare folder_first_sync_start : Operation
  folder_type_set folder_share folder_unshare folder_stop : Operation
  device_add device_rename device_remove : Operation
  reset_prepare log_level_set diagnostics_export storage_cleanup : Operation

unfoldable pub operations : Dict Operation
operations =
    (codes "status.get", get)
    ∷ (codes "card.enroll", enroll_card)
    ∷ (codes "network.profile.set", network_set)
    ∷ (codes "gateway.open", gateway_open)
    ∷ (codes "gateway.keepalive", gateway_keep_alive)
    ∷ (codes "gateway.close", gateway_close)
    ∷ (codes "gateway.extend", gateway_extend)
    ∷ (codes "gateway.revoke-all", gateway_revoke)
    ∷ (codes "folder.pause", folder_pause)
    ∷ (codes "folder.resume", folder_resume)
    ∷ (codes "folder.rescan", folder_rescan)
    ∷ (codes "folder.rename", folder_rename)
    ∷ (codes "folder.inspect", folder_inspect)
    ∷ (codes "folder.onboard.plan", folder_onboard_plan)
    ∷ (codes "folder.offer.plan", folder_offer_plan)
    ∷ (codes "folder.offer.ignore", folder_offer_ignore)
    ∷ (codes "folder.offer.restore", folder_offer_restore)
    ∷ (codes "folder.onboard.create", folder_onboard_create)
    ∷ (codes "folder.first-sync.prepare", folder_first_sync_prepare)
    ∷ (codes "folder.first-sync.start", folder_first_sync_start)
    ∷ (codes "folder.type.set", folder_type_set)
    ∷ (codes "folder.share", folder_share)
    ∷ (codes "folder.unshare", folder_unshare)
    ∷ (codes "folder.stop", folder_stop)
    ∷ (codes "device.add", device_add)
    ∷ (codes "device.rename", device_rename)
    ∷ (codes "device.remove", device_remove)
    ∷ (codes "reset.prepare", reset_prepare)
    ∷ (codes "log.level.set", log_level_set)
    ∷ (codes "diagnostics.export", diagnostics_export)
    ∷ (codes "storage.cleanup", storage_cleanup)
    ∷ []

abbrev pub max_identifier : ℕ
max_identifier = 64

abbrev pub is_identifier_char : ℕ → Bool
is_identifier_char c =
    between b'a' b'z' c
    || between b'A' b'Z' c
    || between b'0' b'9' c
    || c == b'.'
    || c == b'_'
    || c == b':'
    || c == b'-'

unfoldable pub valid_identifier : Text → Bool
valid_identifier value =
    not (length value == 0)
    && not (ltb max_identifier (length value))
    && all is_identifier_char value

-- The source walks the characters; those below 0x20 and 0x7f are single bytes.
abbrev pub is_display_char : ℕ → Bool
is_display_char c = not (ltb c 32 || c == 127)

unfoldable pub valid_display_text : Text → ℕ → Bool
valid_display_text value maximum =
    not (length value == 0) && not (ltb maximum (length value)) && all is_display_char value

unfoldable pub one_of : Text → List Text → Bool
one_of value allowed = any (λ candidate. text_eq value candidate) allowed

abbrev pub is_content_kind : Text → Bool
is_content_kind kind = text_eq kind (codes "saves") || text_eq kind (codes "states")

abbrev pub is_folder_type : Text → Bool
is_folder_type t =
    text_eq t (codes "sendonly")
    || text_eq t (codes "sendreceive")
    || text_eq t (codes "receiveonly")
