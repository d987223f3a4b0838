-- ===== src/Folders/Reconcile.antt =====
-- internal/controller/folders.go: which folders are paused and why, from the configuration of
-- Syncthing, the cards and the control records; and `ValidateManagedMarker` of
-- internal/cards/cards.go.
pub mod Safe
use leaf_syncthing_pak.Base.{
  ℕ, zero, suc, ◌-◌, Bool, true, false, not, ◌&&◌, ◌||◌, Option, none, some, List, [], ◌∷◌, ◌++◌,
  map, length, keep, any, if◌then◌else◌, Text, codes, text_eq, is_empty, Dict, lookup, insert,
}
use leaf_syncthing_pak.Folders.Types.{
  Source, Card, CardState, ConfiguredFolder, is_enrolled, managed_content_path,
}
use leaf_syncthing_pak.Folders.Store.{FolderControlRecord, complete_folder_binding}
use leaf_syncthing_pak.Folders.Rows.{
  FolderStatus, Lstat, Marker, append_unique, assign_paused, at_path, card_read_only,
  card_unavailable, cards_with, directory, duplicate_card_id, failed, first_row, foreign_marker,
  is_type, mark, mark_and_pause, mark_marker, marker_collision, missing, no_marker, receives,
  refused, settled, sound, source_label, storage_reason, unknown_card_binding, unreadable,
  unregistered_folder, unsafe_folder_kind, unsafe_folder_marker, unsafe_folder_path, unsafe_root,
  unsafe_versioning, unsupported_folder_type, versions_kept, zero_record,
}

-- `clean`, `base` and `join` are `filepath.Clean`, `Base` and `Join`; `lstat` is what the file
-- system holds.
module _ (clean base : Text → Text) (join : List Text → Text) (lstat : Text → Lstat) where
  unfoldable pub validate_managed_marker : Text → Text → Marker
  validate_managed_marker root marker_name =
      if is_empty marker_name
        || text_eq marker_name (codes ".stfolder")
        || not (text_eq (base marker_name) marker_name)
      then marker_collision
      else elim (lstat root) [
        | directory ↦ elim (lstat (join (root ∷ codes ".stfolder" ∷ []))) [
          | missing ↦ elim (lstat (join (root ∷ marker_name ∷ []))) [
            | missing ↦ no_marker
            | unreadable ↦ failed
            | directory ↦ sound
            | _ ↦ marker_collision
          ]
          | unreadable ↦ failed
          | _ ↦ foreign_marker
        ]
        | _ ↦ unsafe_root
      ]

  unfoldable pub check_card :
      ConfiguredFolder → FolderControlRecord → Card → FolderStatus → FolderStatus
  unfolding text_eq
  check_card folder control card row =
      let expected = managed_content_path card.source folder.kind in
      let storage = storage_reason card in
      let labelled = record row {
        card_id = card.identity_id;
        label = row.label ++ 32 ∷ 226 ∷ 128 ∷ 148 ∷ 32 ∷ source_label card.source;
      } in
      let placed = mark labelled (not (at_path clean folder expected)) unsafe_folder_path in
      let available =
        mark_and_pause placed
          (not (is_enrolled card.state) || not card.present || card.duplicate_id) card_unavailable
          (placed.pause_reasons ++ storage ∷ []) in
      let typed = mark available (not (is_type folder)) unsupported_folder_type in
      let written =
        mark_and_pause typed (receives folder && not card.writable) card_read_only
          (append_unique typed.pause_reasons storage) in
      let named =
        mark written (not (text_eq folder.marker_name control.marker_name)) unsafe_folder_marker in
      let marked =
        mark_marker named (at_path clean folder expected && card.present)
          (validate_managed_marker expected control.marker_name) in
      mark marked (receives folder && not (versions_kept clean join folder card)) unsafe_versioning

  -- The loop's body for a folder with a control record.
  unfoldable pub bound_row : List Card → ConfiguredFolder → FolderControlRecord → FolderStatus
  bound_row inventory folder control =
      let row = first_row folder control in
      let bound = record row { card_id = control.card_id } in
      let kinded = mark bound (not (text_eq folder.kind control.kind)) unsafe_folder_kind in
      if not (complete_folder_binding control)
      then refused (mark row true unregistered_folder)
      else elim (cards_with control.card_id inventory) [
        | [] ↦ refused (mark kinded true unknown_card_binding)
        | card ∷ [] ↦ settled (check_card folder control card kinded)
        | _ ∷ _ ∷ _ ↦ refused (mark kinded true duplicate_card_id)
      ]

  unfoldable pub reconcile_folder :
      List Card → Dict FolderControlRecord → ConfiguredFolder → FolderStatus
  reconcile_folder inventory control_state folder = elim (lookup folder.id control_state) [
    | none ↦ refused (mark (first_row folder zero_record) true unregistered_folder)
    | some control ↦ bound_row inventory folder control
  ]

  -- The rows of the result; its list of global issues is left aside.
  unfoldable pub reconcile_managed_folders :
      List ConfiguredFolder → List Card → Dict FolderControlRecord → List FolderStatus
  reconcile_managed_folders configured inventory control_state =
      map (reconcile_folder inventory control_state) configured

  unfoldable pub required_offline_pause_set :
      List ConfiguredFolder → List Card → Dict FolderControlRecord → Dict Bool
  unfolding assign_paused
  required_offline_pause_set configured inventory control_state =
      assign_paused (reconcile_managed_folders configured inventory control_state) []
