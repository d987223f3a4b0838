-- ===== src/Control/Validate.antt =====
-- internal/uicontrol/protocol.go: `Status.validate`. Each part says whether it finds no error.
use leaf_syncthing_pak.Base.{
  ℕ, Bool, true, false, not, ◌&&◌, ◌||◌, Option, none, some, List, [], ◌∷◌, length, all, leb, ltb,
  ◌==◌, Text, codes, text_eq, is_empty, ℤ, is_negative, above, below,
}
use leaf_syncthing_pak.Control.Words.{valid_identifier, valid_display_text, one_of}
use leaf_syncthing_pak.Control.Status.{
  items, NetworkStatus, GatewayStatus, TransferStatus, SnapshotStatus, StorageStatus,
  OnboardingStatus, UpstreamStatus, RecoveryStatus, CardStatus, FolderStatus, PeerStatus,
  FolderOfferStatus, Status,
}

abbrev longer : ℕ → Text → Bool
longer n t = ltb n (length t)

abbrev none_negative : List ℤ → Bool
none_negative ns = all (λ n. not (is_negative n)) ns

unfoldable pub valid_states : Status → Bool
valid_states s =
    one_of s.controller (codes "running" ∷ codes "recovery-pending" ∷ codes "error" ∷ [])
    && one_of s.upstream.state (
        codes "stopped"
        ∷ codes "starting"
        ∷ codes "running"
        ∷ codes "error"
        ∷ codes "conflict"
        ∷ [])
    && one_of s.recovery.state (codes "ready" ∷ codes "pending" ∷ codes "error" ∷ [])

unfoldable pub valid_network : Option NetworkStatus → Bool
valid_network none = true
valid_network (some n) = one_of n.profile (codes "lan-only" ∷ codes "sync-anywhere" ∷ [])

unfoldable pub valid_gateway : Option GatewayStatus → Bool
valid_gateway none = true
valid_gateway (some g) = not (
    is_negative g.trusted_browsers
    || above g.trusted_browsers 32
    || (g.is_open && (is_empty g.url || is_empty g.fingerprint))
    || (g.pairing
        && (not g.is_open
            || not (length g.pin == 4)
            || is_empty g.qr_url
            || is_empty g.offer_expires)))

unfoldable pub valid_transfer : Option TransferStatus → Bool
valid_transfer none = true
valid_transfer (some t) =
    none_negative (t.local_bytes ∷ t.global_bytes ∷ t.need_bytes ∷ t.in_bytes ∷ t.out_bytes ∷ [])

unfoldable pub valid_logging : Option Text → Bool
valid_logging none = true
valid_logging (some level) = one_of level (codes "normal" ∷ codes "debug" ∷ [])

abbrev same : Bool → Bool → Bool
same true b = b
same false b = not b

unfoldable pub valid_onboarding : Option OnboardingStatus → Bool
valid_onboarding none = true
valid_onboarding (some plan) =
    length plan.plan_id == 32
    && valid_identifier plan.plan_id
    && valid_identifier plan.source_id
    && not (is_empty plan.card_id)
    && valid_identifier plan.folder_id
    && valid_display_text plan.label 96
    && not (is_empty plan.path)
    && not (longer 1024 plan.path)
    && one_of plan.kind (codes "saves" ∷ codes "states" ∷ [])
    && one_of plan.folder_type (codes "sendonly" ∷ codes "sendreceive" ∷ codes "receiveonly" ∷ [])
    && none_negative
        (plan.file_count ∷ plan.directory_count ∷ plan.content_bytes ∷ plan.available_bytes ∷ [])
    && not (below plan.peer_count 1)
    && not (is_empty plan.expires_at)
    && not (longer 64 plan.expires_at)
    && same plan.join_existing (not (is_empty plan.offer_device_id))
    && (not plan.join_existing || valid_identifier plan.offer_device_id)

unfoldable pub valid_inventory_row : SnapshotStatus → Bool
valid_inventory_row row =
    not (is_empty row.card_suffix)
    && not (is_empty row.name)
    && not (is_negative row.bytes)
    && one_of row.category (codes "snapshot" ∷ codes "versions" ∷ [])
    && one_of row.kind (codes "saves" ∷ codes "states" ∷ codes "other" ∷ [])

unfoldable pub valid_storage : Option StorageStatus → Bool
valid_storage none = true
valid_storage (some s) =
    none_negative (s.snapshot_bytes ∷ s.version_bytes ∷ s.snapshot_count ∷ s.version_groups ∷ [])
    && leb (length s.inventory) 128
    && all valid_inventory_row s.inventory

unfoldable pub valid_recovery : RecoveryStatus → Bool
valid_recovery r =
    leb (length r.remove_paths) 64
    && leb (length r.retained_paths) 32
    && (is_empty r.plan_id
        || (length r.plan_id == 32
            && one_of r.plan_action
                (codes "index-only" ∷ codes "full" ∷ codes "available-only" ∷ [])))

unfoldable pub valid_upstream : UpstreamStatus → Bool
unfolding text_eq
valid_upstream u =
    not (text_eq u.state (codes "running") && (is_empty u.version || is_empty u.device_id))

unfoldable pub within_rows : Status → Bool
within_rows s =
    leb (length (items s.cards)) 128
    && leb (length (items s.folders)) 128
    && leb (length s.peers) 128
    && leb (length s.folder_offers) 32
    && leb (length (items s.issues)) 128
    && leb (length (items s.capabilities)) 64

unfoldable pub valid_card : CardStatus → Bool
valid_card c =
    not (is_empty c.id)
    && one_of c.state (
        codes "absent"
        ∷ codes "unenrolled"
        ∷ codes "enrolled"
        ∷ codes "invalid"
        ∷ codes "duplicate"
        ∷ [])
    && (is_empty c.source_id || valid_identifier c.source_id)
    && not (is_negative c.retained_bytes)
    && leb (length (items c.issues)) 128

unfoldable pub valid_folder : FolderStatus → Bool
valid_folder f =
    none_negative (
      f.local_bytes ∷ f.global_bytes ∷ f.local_items ∷ f.global_items ∷ f.need_bytes ∷ f.need_items
      ∷ f.remote_need_bytes ∷ f.remote_need_items ∷ f.peer_count ∷ f.snapshot_files
      ∷ f.snapshot_directories ∷ f.snapshot_bytes ∷ f.conflict_count ∷ [])
    && not (below f.conflict_count (length f.conflicts))
    && leb (length f.conflicts) 64
    && leb (length (items f.device_ids)) 33
    && leb (length (items f.pause_reasons)) 16
    && leb (length (items f.issues)) 128
    && (is_empty f.remote_state
        || one_of f.remote_state (
            codes "local-only"
            ∷ codes "current"
            ∷ codes "syncing"
            ∷ codes "offline"
            ∷ codes "paused"
            ∷ codes "not-sharing"
            ∷ codes "unknown"
            ∷ []))
    && (is_empty f.remote_peer || valid_display_text f.remote_peer 64)
    && all valid_identifier (items f.device_ids)
    && (is_empty f.first_sync_state
        || one_of f.first_sync_state (
            codes "required"
            ∷ codes "preparing"
            ∷ codes "ready"
            ∷ codes "complete"
            ∷ codes "error"
            ∷ []))
    && not (longer 96 f.snapshot_name || longer 240 f.first_sync_message)
    && all (λ conflict. valid_display_text conflict 256) f.conflicts

unfoldable pub valid_peer : PeerStatus → Bool
valid_peer p =
    not (is_empty p.id)
    && not (is_empty p.name)
    && one_of p.state (codes "offline" ∷ codes "connected" ∷ codes "paused" ∷ codes "pending" ∷ [])
    && one_of p.connection (codes "none" ∷ codes "local" ∷ codes "direct" ∷ codes "relay" ∷ [])

unfoldable pub valid_offer : FolderOfferStatus → Bool
valid_offer o =
    valid_identifier o.folder_id
    && valid_display_text o.label 96
    && not (is_empty o.device_id)
    && not (is_empty o.device_id_suffix)
    && valid_display_text o.device_name 64
    && not (longer 64 o.offered_at)

unfoldable pub validate : Status → Bool
validate s =
    valid_states s
    && valid_network s.network
    && valid_gateway s.gateway
    && valid_transfer s.transfer
    && valid_logging s.logging_level
    && valid_onboarding s.onboarding
    && valid_storage s.storage
    && valid_recovery s.recovery
    && valid_upstream s.upstream
    && within_rows s
    && all valid_card (items s.cards)
    && all valid_folder (items s.folders)
    && all valid_peer s.peers
    && all valid_offer s.folder_offers
