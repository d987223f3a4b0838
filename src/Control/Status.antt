-- ===== src/Control/Status.antt =====
-- internal/uicontrol/protocol.go: the status that answers a request, with `normalize` and `validate`.
-- Of the records, the fields that these two read or change; the others are carried along. A list may
-- be nil, which is `none`.
pub mod Laws
use leaf_syncthing_pak.Base.{
  ℕ, Bool, true, false, not, ◌&&◌, ◌||◌, Option, none, some, List, [], ◌∷◌, map, length, all, leb,
  ltb, ◌==◌, Text, codes, text_eq, is_empty, ℤ, pos, negsuc, is_negative, above, below,
  if◌then◌else◌,
}
use leaf_syncthing_pak.Control.Words.{
  valid_identifier, valid_display_text, one_of, is_content_kind, is_folder_type,
}

abbrev pub Nilable {ℓ} : Type ℓ → Type ℓ
Nilable A = Option (List A)

abbrev pub items {ℓ} : {A : Type ℓ} → Nilable A → List A
items none = []
items (some xs) = xs

pub record Issue : Type 0 where
  pub code : Text
  pub message : Text
  pub scope : Text
  pub subject_id : Text

pub record NetworkStatus : Type 0 where
  pub profile : Text
  pub allowed_networks : Nilable Text
  pub route_changed : Bool

pub record GatewayStatus : Type 0 where
  pub is_open : Bool
  pub url : Text
  pub pin : Text
  pub qr_url : Text
  pub offer_expires : Text
  pub fingerprint : Text
  pub trusted_browsers : ℤ
  pub pairing : Bool

pub record TransferStatus : Type 0 where
  pub local_bytes : ℤ
  pub global_bytes : ℤ
  pub need_bytes : ℤ
  pub in_bytes : ℤ
  pub out_bytes : ℤ

pub record SnapshotStatus : Type 0 where
  pub card_suffix : Text
  pub category : Text
  pub kind : Text
  pub name : Text
  pub bytes : ℤ

pub record StorageStatus : Type 0 where
  pub snapshot_bytes : ℤ
  pub version_bytes : ℤ
  pub snapshot_count : ℤ
  pub version_groups : ℤ
  pub inventory : List SnapshotStatus

pub record OnboardingStatus : Type 0 where
  pub plan_id : Text
  pub source_id : Text
  pub card_id : Text
  pub kind : Text
  pub folder_type : Text
  pub folder_id : Text
  pub label : Text
  pub path : Text
  pub file_count : ℤ
  pub directory_count : ℤ
  pub content_bytes : ℤ
  pub available_bytes : ℤ
  pub peer_count : ℤ
  pub join_existing : Bool
  pub offer_device_id : Text
  pub expires_at : Text

pub record UpstreamStatus : Type 0 where
  pub state : Text
  pub version : Text
  pub device_id : Text

pub record RecoveryStatus : Type 0 where
  pub state : Text
  pub plan_id : Text
  pub plan_action : Text
  pub remove_paths : List Text
  pub retained_paths : List Text

pub record CardStatus : Type 0 where
  pub id : Text
  pub source_id : Text
  pub state : Text
  pub retained_bytes : ℤ
  pub issues : Nilable Issue

pub record FolderStatus : Type 0 where
  pub pause_reasons : Nilable Text
  pub local_bytes : ℤ
  pub global_bytes : ℤ
  pub local_items : ℤ
  pub global_items : ℤ
  pub need_bytes : ℤ
  pub need_items : ℤ
  pub remote_state : Text
  pub remote_peer : Text
  pub remote_need_bytes : ℤ
  pub remote_need_items : ℤ
  pub peer_count : ℤ
  pub device_ids : Nilable Text
  pub first_sync_state : Text
  pub snapshot_name : Text
  pub snapshot_files : ℤ
  pub snapshot_directories : ℤ
  pub snapshot_bytes : ℤ
  pub first_sync_message : Text
  pub conflict_count : ℤ
  pub conflicts : List Text
  pub issues : Nilable Issue

pub record PeerStatus : Type 0 where
  pub id : Text
  pub name : Text
  pub state : Text
  pub connection : Text

pub record FolderOfferStatus : Type 0 where
  pub folder_id : Text
  pub label : Text
  pub device_id : Text
  pub device_id_suffix : Text
  pub device_name : Text
  pub offered_at : Text

pub record Status : Type 0 where
  pub controller : Text
  pub upstream : UpstreamStatus
  pub recovery : RecoveryStatus
  pub network : Option NetworkStatus
  pub gateway : Option GatewayStatus
  pub transfer : Option TransferStatus
  pub logging_level : Option Text
  pub storage : Option StorageStatus
  pub onboarding : Option OnboardingStatus
  pub cards : Nilable CardStatus
  pub folders : Nilable FolderStatus
  pub peers : List PeerStatus
  pub folder_offers : List FolderOfferStatus
  pub issues : Nilable Issue
  pub capabilities : Nilable Text

abbrev filled {ℓ} : {A : Type ℓ} → Nilable A → Nilable A
filled l = some (items l)

abbrev pub normalize_network : Option NetworkStatus → Option NetworkStatus
normalize_network none = none
normalize_network (some n) = some (record n { allowed_networks = filled n.allowed_networks })

abbrev pub normalize_card : CardStatus → CardStatus
normalize_card c = record c { issues = filled c.issues }

abbrev pub normalize_folder : FolderStatus → FolderStatus
normalize_folder f = record f {
  device_ids = filled f.device_ids;
  pause_reasons = filled f.pause_reasons;
  issues = filled f.issues;
}

unfoldable pub normalize : Status → Status
normalize s = record s {
  cards = some (map normalize_card (items s.cards));
  folders = some (map normalize_folder (items s.folders));
  issues = filled s.issues;
  capabilities = filled s.capabilities;
  network = normalize_network s.network;
}
