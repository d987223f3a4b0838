-- ===== src/Folders/GameCheck.antt =====
-- internal/controller/game_check.go: the folders that a game waits for, `foldersForGameCheck`, with
-- `folderSafeForAction` of internal/controller/ui.go. Every error is `none`.
pub mod Selected
pub mod Loop
mod Timely
mod Replies
mod Stops
mod Examples
use leaf_syncthing_pak.Base.{
  ℕ, zero, suc, Bool, true, false, not, ◌&&◌, ◌||◌, Option, none, some, List, [], ◌∷◌, ◌++◌, keep,
  all, if◌then◌else◌, Text, codes, text_eq, is_empty, Dict, lookup, insert,
}
use leaf_syncthing_pak.Folders.Types.{
  Source, Card, CardState, ConfiguredFolder, is_enrolled, usable_enrolled_card,
  managed_content_path,
}
use leaf_syncthing_pak.Folders.Device.{is_kind}
use leaf_syncthing_pak.Folders.Store.{FolderControlRecord, complete_folder_binding}
use leaf_syncthing_pak.Folders.Rows.{IssueCode, folder_sync_error, FolderStatus, Lstat}
use leaf_syncthing_pak.Folders.Reconcile.{reconcile_managed_folders}

-- What the check reads of an event of the launcher.
pub record GameEvent : Type 0 where
  pub source_id : Text
  pub saves_path : Text
  pub states_path : Text

-- The assignments to a map, in order.
unfoldable pub by_folder_id : List ConfiguredFolder → Dict ConfiguredFolder → Dict ConfiguredFolder
by_folder_id [] result = result
by_folder_id (folder ∷ folders) result = by_folder_id folders (insert folder.id folder result)

unfoldable pub by_row_id : List FolderStatus → Dict FolderStatus → Dict FolderStatus
by_row_id [] result = result
by_row_id (row ∷ rows) result = by_row_id rows (insert row.id row result)

abbrev is_harmless : IssueCode → Bool
is_harmless folder_sync_error = true
is_harmless _ = false

unfoldable pub folder_safe_for_action : FolderStatus → Bool
folder_safe_for_action row = not (is_empty row.card_id) && all is_harmless row.issues

unfoldable pub cards_of_source : Text → List Card → List Card
cards_of_source source_id inventory = keep (λ card. text_eq card.source.id source_id) inventory

-- The folder of one control record, which the loop skips or refuses or selects.
pub data Choice : Type 0 where
  skipped refused_folder : Choice
  chosen : ConfiguredFolder → Choice

module _ (clean base : Text → Text) (join : List Text → Text) (lstat : Text → Lstat) where
  unfoldable pub choose :
      Card → Dict ConfiguredFolder → Dict FolderStatus → Text → FolderControlRecord → Choice
  choose card configured safe_rows folder_id control =
      if not (text_eq control.card_id card.identity_id) || not (is_kind control.kind)
      then skipped
      else if not (complete_folder_binding control)
          || control.first_sync
          || control.pending_add
          || not (is_empty control.pending_membership)
          || control.pending_stop
      then refused_folder
      else elim (lookup folder_id configured) [
        | none ↦ refused_folder
        | some folder ↦
            if not (text_eq folder.kind control.kind)
              || not (
                  text_eq (clean folder.path)
                    (clean (managed_content_path card.source control.kind)))
            then refused_folder
            else elim (lookup folder_id safe_rows) [
              | none ↦ refused_folder
              | some row ↦
                  if row.paused || not (folder_safe_for_action row)
                  then refused_folder
                  else chosen folder
            ]
      ]

  unfoldable pub select :
      Card
      → Dict ConfiguredFolder
      → Dict FolderStatus
      → Dict FolderControlRecord
      → List ConfiguredFolder
      → Option (List ConfiguredFolder)
  select card configured safe_rows [] selected = some selected
  select card configured safe_rows ((folder_id, control) ∷ controls) selected =
      let skip = select card configured safe_rows controls selected in
      elim (choose card configured safe_rows folder_id control) [
        | skipped ↦ skip
        | refused_folder ↦ none
        | chosen folder ↦ select card configured safe_rows controls (selected ++ folder ∷ [])
      ]

  unfoldable pub folders_for_game_check :
      GameEvent
      → List Card
      → List ConfiguredFolder
      → Dict FolderControlRecord
      → Option (List ConfiguredFolder)
  unfolding text_eq
  folders_for_game_check event inventory folders controls =
      elim (cards_of_source event.source_id inventory) [
        | [] ↦ none
        | card ∷ _ ∷ _ ↦ none
        | card ∷ [] ↦
            let rows = reconcile_managed_folders clean base join lstat folders inventory controls in
            if not (usable_enrolled_card card)
              || not (
                  text_eq (clean event.saves_path)
                    (clean (managed_content_path card.source (codes "saves"))))
              || not (
                  text_eq (clean event.states_path)
                    (clean (managed_content_path card.source (codes "states"))))
            then none
            else select card (by_folder_id folders []) (by_row_id rows []) controls []
      ]
