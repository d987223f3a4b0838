-- ===== src/FirstSync/Manager/Clears.antt =====
-- A confirmed start in which no call fails ends the protection of the folder.
use leaf_syncthing_pak.Base.{
  Bool, true, false, not, ◌||◌, ◌==◌, ◌≡◌, ◌⊎◌, inl, inr, none, some, List, [], Bool-cases, arith,
  Text, codes, lookup,
}
use leaf_syncthing_pak.Folders.Types.{ConfiguredFolder, Card, usable_enrolled_card}
use leaf_syncthing_pak.Folders.Store.{FolderControlRecord, Store, Call, absent}
use leaf_syncthing_pak.Folders.Store.Persist.{persist_locked-works}
use leaf_syncthing_pak.Folders.Ops.{set_first_sync, put}
use leaf_syncthing_pak.Folders.Rows.{Lstat}
use leaf_syncthing_pak.FirstSync.Documents.{
  SnapshotHeader, found, Snapshots, is_sendonly, latest_prepared_snapshot,
}
use leaf_syncthing_pak.FirstSync.Manager.{
  World, Point, Calls, write_started, complete, valid_first_sync_binding, sync,
}
use leaf_syncthing_pak.FirstSync.Manager.Recovered.{set_first_sync-lookup}

set_first_sync-works :
    (works : Call → Bool) (id : Text) (s : Store) (r : FolderControlRecord)
    → ((c : Call) → works c ≡ true)
    → s.temporary ≡ absent
    → lookup id s.records ≡ some r
    → (set_first_sync works id false s).1 ≡ none
unfolding set_first_sync
set_first_sync-works works id s r all t e =
    let new = put id (record r { first_sync = false }) s in
    ground (arith, persist_locked-works works new all t)

module _ (calls : Calls) (all : (p : Point) → calls.works p ≡ true)
    (stores : (c : Call) → calls.stores c ≡ true) where
  -- The record of the folder no longer asks for a first sync.
  abbrev IsCleared : Text → FolderControlRecord → World × Bool → Type 0
  IsCleared id control (w, ok) =
      (ok ≡ true) × (lookup id w.store.records ≡ some (record control { first_sync = false }))

  write_started-clears :
      (folder : ConfiguredFolder) (card : Card) (control : FolderControlRecord)
      (mode name stamp : Text) (w : World)
      → w.store.temporary ≡ absent
      → lookup folder.id w.store.records ≡ some control
      → IsCleared folder.id control (write_started calls folder card control mode name stamp w)
  unfolding write_started
  write_started-clears folder card control mode name stamp w t e =
      let done = set_first_sync-works calls.stores folder.id w.store control stores t e in
      let cleared = set_first_sync-lookup calls.stores folder.id false w.store control e done in
      ground (
        arith,
        done,
        cleared,
        all Point.owned_directories,
        all Point.replace_pending,
        all Point.pending_written_point,
        all Point.sync_pending,
        all Point.pending_synced_point,
        all Point.replace_complete,
        all Point.ready_written_point,
        all Point.sync_complete,
        all Point.ready_synced_point,
        all Point.control_cleared_point,
      )

  -- Where no call fails and nothing is in the way of a temporary, a confirmed start of a folder that
  -- waits for its first sync, with a usable card that fits and, unless it is send-only, a snapshot
  -- that is ready, succeeds, and the folder no longer waits.
  pub complete-clears :
      (clean base : Text → Text) (join : List Text → Text) (lstat : Text → Lstat) (kind_root : Text)
      (snapshots : Snapshots) (folder : ConfiguredFolder) (card : Card) (stamp : Text) (w : World)
      (control : FolderControlRecord)
      → w.store.temporary ≡ absent
      → lookup folder.id w.store.records ≡ some control
      → control.first_sync ≡ true
      → (control.first_sync_epoch == 0) ≡ false
      → usable_enrolled_card card ≡ true
      → valid_first_sync_binding clean base join lstat folder card control ≡ true
      → (is_sendonly folder.type ≡ true)
        ⊎ ((h : SnapshotHeader) × (latest_prepared_snapshot base join kind_root snapshots folder
                card control.first_sync_epoch
              ≡ found h))
      → ((complete calls clean base join lstat kind_root snapshots folder true card stamp w).1
          ≡ true)
        × (lookup folder.id
              (complete calls clean base join lstat kind_root snapshots folder true card stamp
                w).0.store.records
            ≡ some (record control { first_sync = false }))
  unfolding complete
  complete-clears clean base join lstat kind_root snapshots folder card stamp w control t e f z u v
        ready =
      let free : (not true
            || not (usable_enrolled_card card)
            || not control.first_sync
            || control.first_sync_epoch == 0
            || not (valid_first_sync_binding clean base join lstat folder card control))
          ≡ false =
        ground arith in
      elim (Bool-cases (is_sendonly folder.type)) [
        | inl s ↦
            rw (e, free, s, complete)
              (write_started-clears folder card control (codes "sendonly") [] stamp w t e)
        | inr s ↦ elim ready [
          | inl c ↦ absurd (ground arith)
          | inr (h, l) ↦
              rw (e, free, s, l, all Point.confirm_snapshot, complete)
                (write_started-clears folder card control (codes "snapshot") h.name stamp
                  (sync calls Point.confirm_snapshot w).0 t e)
        ]
      ]
