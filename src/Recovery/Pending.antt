-- ===== src/Recovery/Pending.antt =====
-- internal/controller/membership.go: `recoverFolderMemberships`.
pub mod Settled
use leaf_syncthing_pak.Base.{
  Bool, true, false, not, Option, none, some, List, [], ◌∷◌, if◌then◌else◌, Text, codes, text_eq,
  is_empty, member, Dict,
}
use leaf_syncthing_pak.Folders.Types.{ConfiguredFolder, Card}
use leaf_syncthing_pak.Folders.Store.{FolderControlRecord, Store, Call}
use leaf_syncthing_pak.Folders.Ops.{complete_membership}
use leaf_syncthing_pak.Folders.Rows.{FolderStatus, Lstat}
use leaf_syncthing_pak.Folders.Reconcile.{reconcile_managed_folders}
use leaf_syncthing_pak.Folders.Upstream.{Upstream}
use leaf_syncthing_pak.Recovery.Attempts.{
  Attempt, fail, return, next, called, stored, find_configured_folder, replace_folder,
}
use leaf_syncthing_pak.Recovery.Membership.{folder_with_membership}

-- `works` says which calls of the operating system succeed while the record of a folder is written.
module _ {U : Type 0} (upstream : Upstream U) (works : Text → Call → Bool) (self_id : Text) where
  -- The body of the loop for a record with a pending change.
  unfoldable pub recover_member :
      Text
      → FolderControlRecord
      → List ConfiguredFolder
      → Store
      → U
      → Attempt U (List ConfiguredFolder)
  unfolding text_eq
  recover_member id r folders s u = elim (find_configured_folder folders id) [
    | none ↦ fail s u
    | some folder ↦
        elim (folder_with_membership folder self_id r.pending_device_id
          (text_eq r.pending_membership (codes "share"))) [
            | none ↦ fail s u
            | some (updated, changed) ↦
                called (upstream.set_managed_folder_devices updated u) s (λ u'.
                  stored (complete_membership (works id) id s) u'
                    (λ s'. return (replace_folder id (λ f. updated) folders) s' u'))
          ]
  ]

  -- The loop over a snapshot of the records, with the ids of those that it recovered.
  unfoldable pub recover_members :
      Dict FolderControlRecord
      → List ConfiguredFolder
      → List Text
      → Store
      → U
      → Attempt U (List ConfiguredFolder × List Text)
  recover_members [] folders recovered s u = return (folders, recovered) s u
  recover_members ((id, r) ∷ m) folders recovered s u = elim (is_empty r.pending_membership) [
    | true ↦ recover_members m folders recovered s u
    | false ↦
        next (recover_member id r folders s u)
          (λ fs s' u'. recover_members m fs (id ∷ recovered) s' u')
  ]

  -- The loop over the rows of the recovered folders.
  unfoldable pub pause_recovered :
      List FolderStatus
      → List Text
      → List ConfiguredFolder
      → Store
      → U
      → Attempt U (List ConfiguredFolder)
  pause_recovered [] recovered folders s u = return folders s u
  pause_recovered (row ∷ rows) recovered folders s u = elim (member row.id recovered) [
    | false ↦ pause_recovered rows recovered folders s u
    | true ↦ called (upstream.set_folder_paused row.id row.paused u) s (λ u'.
        pause_recovered rows recovered
          (replace_folder row.id (λ f. record f { paused = row.paused }) folders) s u')
  ]

  -- The file system, as in `reconcile_managed_folders`.
  module _ (clean base : Text → Text) (join : List Text → Text) (lstat : Text → Lstat) where
    unfoldable pub pause_all :
        List Card
        → List ConfiguredFolder × List Text
        → Store
        → U
        → Attempt U (List ConfiguredFolder)
    pause_all inventory (folders, []) s u = return folders s u
    pause_all inventory (folders, id ∷ ids) s u =
        pause_recovered
          (reconcile_managed_folders clean base join lstat folders inventory s.records) (id ∷ ids)
          folders s u

    unfoldable pub recover_folder_memberships :
        List ConfiguredFolder → List Card → Store → U → Attempt U (List ConfiguredFolder)
    recover_folder_memberships folders inventory s u =
        next (recover_members s.records folders [] s u) (pause_all inventory)
