-- ===== src/FirstSync/Manager.antt =====
-- internal/controller/first_sync.go: `Complete`, `Invalidate` and the recovery of a folder, on the
-- marker of its card and kind. A call that fails ends the run, and so does a crash.
pub mod Durable
pub mod Recovered
pub mod Clears
use leaf_syncthing_pak.Base.{
  ℕ, Bool, true, false, not, ◌&&◌, ◌||◌, ◌==◌, Option, none, some, List, [], ◌∷◌, keep,
  if◌then◌else◌, Text, codes, text_eq, Dict, lookup, insert, ℤ, pos,
}
use leaf_syncthing_pak.Folders.Types.{
  ConfiguredFolder, Card, usable_enrolled_card, managed_content_path,
}
use leaf_syncthing_pak.Folders.Store.{
  FolderControlRecord, Store, StoreErr, Call, Outcome, complete_folder_binding,
}
use leaf_syncthing_pak.Folders.Ops.{set_first_sync, require_first_sync}
use leaf_syncthing_pak.Folders.Rows.{Lstat, Marker, sound, versions_kept, zero_record}
use leaf_syncthing_pak.Folders.Reconcile.{validate_managed_marker}
use leaf_syncthing_pak.FirstSync.Documents.{
  SnapshotHeader, FirstSyncMarker, Document, absent, unreadable, document, Found, failed, not_found,
  found, Snapshots, schema_version, is_sendonly, latest_prepared_snapshot, read_first_sync_marker,
}

pub record FirstSyncProgress : Type 0 where
  pub state : Text
  pub snapshot_name : Text
  pub file_count : ℤ
  pub directory_count : ℤ
  pub content_bytes : ℤ
  pub message : Text

abbrev is_sound : Marker → Bool
is_sound sound = true
is_sound _ = false

abbrev only {ℓ} : {A : Type ℓ} → List A → Option A
only (x ∷ []) = some x
only _ = none

-- The marker as a read finds it and as a loss of power leaves it, the control records, and the
-- manager's map.
pub record World : Type 0 where
  pub marker : Document FirstSyncMarker
  pub durable : Document FirstSyncMarker
  pub store : Store
  pub progress : Dict FirstSyncProgress

-- The calls, in program order; those of `Complete` that end in `_point` are its fault points.
pub data Point : Type 0 where
  confirm_snapshot owned_directories : Point
  replace_pending pending_written_point sync_pending pending_synced_point : Point
  replace_complete ready_written_point sync_complete ready_synced_point control_cleared_point :
      Point
  remove_marker remove_temporary sync_removed : Point
  clean_entries remove_incomplete sync_recovered : Point

-- Which calls succeed, which calls of the control store's write, and which writes reach the card
-- before they are flushed.
pub record Calls : Type 0 where
  pub works : Point → Bool
  pub stores : Call → Bool
  pub early : Point → Bool

abbrev pub Run : Type 0
Run = World → World × Bool

infixl 5 ◌>>◌
abbrev pub ◌>>◌ : Run → Run → Run
◌>>◌ m k w = let (w', ok) = m w in elim ok [ true ↦ k w' | false ↦ (w', false) ]

abbrev pub require : Bool → Run
require ok w = (w, ok)

abbrev pub rejected : Run
rejected w = (w, false)

abbrev pub set_progress : Text → FirstSyncProgress → Run
set_progress id p w = (record w { progress = insert id p w.progress }, true)

abbrev pub in_state : Text → Text → FirstSyncProgress
in_state state name = record {
  state = state;
  snapshot_name = name;
  file_count = pos 0;
  directory_count = pos 0;
  content_bytes = pos 0;
  message = [];
}

-- `progressFromSnapshot`.
unfoldable pub progress_from_snapshot : Text → SnapshotHeader → FirstSyncProgress
progress_from_snapshot state h = record {
  state = state;
  snapshot_name = h.name;
  file_count = h.file_count;
  directory_count = h.directory_count;
  content_bytes = h.content_bytes;
  message = [];
}

abbrev pub stored_in : World → Outcome → World × Bool
stored_in w (s, none) = (record w { store = s }, true)
stored_in w (s, some e) = (record w { store = s }, false)

module _ (clean base : Text → Text) (join : List Text → Text) (lstat : Text → Lstat) where
  -- `validateFirstSyncBinding`.
  unfoldable pub valid_first_sync_binding :
      (folder : ConfiguredFolder) → Card → FolderControlRecord → Bool
  unfolding text_eq
  valid_first_sync_binding folder card binding =
      text_eq binding.card_id card.identity_id
      && text_eq binding.kind folder.kind
      && text_eq binding.marker_name folder.marker_name
      && text_eq (clean folder.path) (clean (managed_content_path card.source folder.kind))
      && is_sound (validate_managed_marker clean base join lstat folder.path folder.marker_name)
      && (is_sendonly folder.type || versions_kept clean join folder card)

module _ (calls : Calls) where
  -- `replaceBoundedJSON` of the marker.
  abbrev pub replace : Point → Document FirstSyncMarker → Run
  replace p d w = (
    record w {
      marker = if calls.works p then d else w.marker;
      durable = if calls.works p && calls.early p then d else w.durable;
    },
    calls.works p,
  )

  -- `SyncFilesystem`.
  abbrev pub sync : Point → Run
  sync p w = (record w { durable = if calls.works p then w.marker else w.durable }, calls.works p)

  abbrev pub reach : Point → Run
  reach p = require (calls.works p)

  abbrev pub clear_control : Text → Bool → Run
  clear_control id pending w = stored_in w (set_first_sync calls.stores id pending w.store)

  -- The marker of a start that was confirmed, at the time `stamp`.
  abbrev pub started_marker :
      ConfiguredFolder
      → Card
      → FolderControlRecord
      → (state mode name stamp : Text) → FirstSyncMarker
  started_marker folder card control state mode name stamp = record {
    schema = pos schema_version;
    state = state;
    epoch = control.first_sync_epoch;
    folder_id = folder.id;
    card_id = card.identity_id;
    kind = folder.kind;
    folder_type = folder.type;
    mode = mode;
    snapshot_name = name;
    hub_versioning_acknowledged = true;
    explicit_start = true;
    completed_at = stamp;
  }

  -- `Complete`, from the marker on.
  unfoldable pub write_started :
      ConfiguredFolder → Card → FolderControlRecord → (mode name stamp : Text) → Run
  write_started folder card control mode name stamp =
      let marker =
        λ (state : Text). document (started_marker folder card control state mode name stamp) in
      reach owned_directories
      >> replace replace_pending (marker (codes "pending"))
      >> reach pending_written_point
      >> sync sync_pending
      >> reach pending_synced_point
      >> replace replace_complete (marker (codes "complete"))
      >> reach ready_written_point
      >> sync sync_complete
      >> reach ready_synced_point
      >> clear_control folder.id false
      >> reach control_cleared_point
      >> set_progress folder.id (in_state (codes "complete") name)

  module _ (clean base : Text → Text) (join : List Text → Text) (lstat : Text → Lstat)
      (kind_root : Text) (snapshots : Snapshots) (folder : ConfiguredFolder) where
    unfoldable pub complete : (hub : Bool) → Card → (stamp : Text) → Run
    complete hub card stamp w = elim (lookup folder.id w.store.records) [
      | none ↦ (w, false)
      | some control ↦
          if not hub
            || not (usable_enrolled_card card)
            || not control.first_sync
            || control.first_sync_epoch == 0
            || not (valid_first_sync_binding clean base join lstat folder card control)
          then (w, false)
          else if is_sendonly folder.type
          then write_started folder card control (codes "sendonly") [] stamp w
          else elim (latest_prepared_snapshot base join kind_root snapshots folder card
              control.first_sync_epoch) [
                | found h ↦
                    (sync confirm_snapshot
                        >> write_started folder card control (codes "snapshot") h.name stamp)
                      w
                | _ ↦ (w, false)
              ]
    ]

    abbrev pub require_control : Run
    require_control w = stored_in w (require_first_sync calls.stores folder.id w.store)

    abbrev pub remove_document : Point → Run
    remove_document p w = (
      record w {
        marker = if calls.works p then absent else w.marker;
        durable = if calls.works p && calls.early p then absent else w.durable;
      },
      calls.works p,
    )

    -- The marker that a start left incomplete is removed.
    abbrev pub drop_incomplete : Run
    drop_incomplete w = elim w.marker [
      | absent ↦ (w, true)
      | unreadable ↦ (w, false)
      | document m ↦
          if text_eq m.state (codes "complete")
          then (w, true)
          else remove_document remove_incomplete w
    ]

    abbrev pub read_marker :
        Card → FolderControlRecord → Document FirstSyncMarker → Found FirstSyncMarker
    read_marker card control d =
        read_first_sync_marker base join kind_root snapshots folder card control.first_sync_epoch d

    abbrev pub flush_complete : Bool → Run
    flush_complete true w = sync sync_recovered w
    flush_complete false w = (w, true)

    abbrev pub default_progress : Run
    default_progress w = elim (lookup folder.id w.progress) [
      | none ↦ set_progress folder.id (in_state (codes "required") []) w
      | some p ↦ (w, true)
    ]

    abbrev pub control_of : World → FolderControlRecord
    control_of w = elim (lookup folder.id w.store.records) [ none ↦ zero_record | some r ↦ r ]

    abbrev pub absent_state : FolderControlRecord → Text
    absent_state control = if control.first_sync then codes "required" else codes "complete"

    -- `Invalidate`.
    unfoldable pub invalidate : Card → Run
    invalidate card w =
        if not (usable_enrolled_card card)
        then (w, false)
        else (remove_document remove_marker
              >> reach remove_temporary
              >> sync sync_removed
              >> require_control
              >> set_progress folder.id (in_state (codes "required") []))
            w

    -- `cardForConfiguredFolder`.
    unfoldable pub card_for_configured_folder : List Card → Dict FolderControlRecord → Option Card
    card_for_configured_folder inventory state = elim (lookup folder.id state) [
      | none ↦ none
      | some binding ↦
          if not (complete_folder_binding binding) || not (text_eq binding.kind folder.kind)
          then none
          else only (keep (λ card. text_eq card.identity_id binding.card_id) inventory)
    ]

    -- The marker in `recoverFirstSyncKind`, after the leftovers were removed.
    unfoldable pub recover_first_sync_kind : Run
    recover_first_sync_kind = reach clean_entries >> drop_incomplete

    -- The part of `recover` for a folder whose card is usable.
    unfoldable pub recover_present : Card → FolderControlRecord → Run
    recover_present card control w = elim (read_marker card control w.marker) [
      | failed ↦ (w, false)
      | found m ↦
          (flush_complete control.first_sync
              >> set_progress folder.id (in_state (codes "complete") m.snapshot_name)
              >> clear_control folder.id false)
            w
      | not_found ↦
          if not control.first_sync
          then (require_control
                >> set_progress folder.id (in_state (codes "required") [])
                >> clear_control folder.id true)
              w
          else elim (latest_prepared_snapshot base join kind_root snapshots folder card
              control.first_sync_epoch) [
                | failed ↦ (w, false)
                | found h ↦
                    (set_progress folder.id (progress_from_snapshot (codes "ready") h)
                        >> clear_control folder.id true)
                      w
                | not_found ↦ (clear_control folder.id true >> default_progress) w
              ]
    ]

    unfoldable pub recover_folder : List Card → Run
    recover_folder inventory w =
        let control = control_of w in
        elim (card_for_configured_folder inventory w.store.records) [
          | none ↦ set_progress folder.id (in_state (absent_state control) []) w
          | some card ↦
              if not (usable_enrolled_card card)
              then set_progress folder.id (in_state (absent_state control) []) w
              else recover_present card control w
        ]
