-- ===== src/FirstSync/Manager/Recovered.antt =====
-- After a recovery the control record of a folder and the marker on its card agree.
use leaf_syncthing_pak.Base.{
  ◌+◌, Bool, true, false, ◌≡◌, refl, ap, ◌∙◌, ◌⊎◌, inl, inr, none, some, List, Bool-cases, arith,
  Text, text_eq_refl, lookup, lookup-insert,
}
use mathlib.Core.Path.{subst}
use leaf_syncthing_pak.Folders.Types.{ConfiguredFolder, Card}
use leaf_syncthing_pak.Folders.Store.{FolderControlRecord, Store, Call}
use leaf_syncthing_pak.Folders.Store.Persist.{persist_locked-records}
use leaf_syncthing_pak.Folders.Ops.{set_first_sync, require_first_sync, put}
use leaf_syncthing_pak.Folders.Rows.{Lstat}
use leaf_syncthing_pak.FirstSync.Documents.{
  FirstSyncMarker, failed, not_found, found, Snapshots, read_first_sync_marker,
}
use leaf_syncthing_pak.FirstSync.Manager.{World, Calls, recover_present}
use leaf_syncthing_pak.FirstSync.Manager.Durable.{IsAccepted, Found-cases}

put-lookup :
    (id : Text) (r : FolderControlRecord) (s : Store) → lookup id (put id r s).records ≡ some r
put-lookup id r s = lookup-insert id id r s.records ∙ rw (text_eq_refl id) refl

pub set_first_sync-lookup :
    (works : Call → Bool) (id : Text) (pending : Bool) (s : Store) (r : FolderControlRecord)
    → lookup id s.records ≡ some r
    → (set_first_sync works id pending s).1 ≡ none
    → lookup id (set_first_sync works id pending s).0.records
      ≡ some (record r { first_sync = pending })
unfolding set_first_sync
set_first_sync-lookup works id pending s r e done =
    let new = record r { first_sync = pending } in
    ground (arith, put-lookup id new s, persist_locked-records works (put id new s))

require_first_sync-lookup :
    (works : Call → Bool) (id : Text) (s : Store) (r : FolderControlRecord)
    → lookup id s.records ≡ some r
    → (require_first_sync works id s).1 ≡ none
    → lookup id (require_first_sync works id s).0.records
      ≡ some (record r { first_sync = true; first_sync_epoch = r.first_sync_epoch + 1 })
unfolding require_first_sync
require_first_sync-lookup works id s r e done =
    let new = record r { first_sync = true; first_sync_epoch = r.first_sync_epoch + 1 } in
    ground (arith, put-lookup id new s, persist_locked-records works (put id new s))

module _ (calls : Calls) (clean base : Text → Text) (join : List Text → Text) (lstat : Text → Lstat)
    (kind_root : Text) (snapshots : Snapshots) (folder : ConfiguredFolder) (card : Card) where
  -- The record asks for a first sync, or a restart accepts the marker, which is durable where the
  -- record was changed for it.
  pub record Agrees (control : FolderControlRecord) (w : World) : Type 0 where
    pub now : FolderControlRecord
    pub recorded : lookup folder.id w.store.records ≡ some now
    pub agreed :
        (now.first_sync ≡ true)
        ⊎ (IsAccepted clean base join lstat kind_root snapshots folder card now.first_sync_epoch
              w.marker
            × ((control.first_sync ≡ false) ⊎ (w.durable ≡ w.marker)))

  abbrev present : Card → FolderControlRecord → World → World × Bool
  present c control w =
      recover_present calls clean base join lstat kind_root snapshots folder c control w

  found-Agrees :
      (control : FolderControlRecord) (w : World) (m : FirstSyncMarker)
      → lookup folder.id w.store.records ≡ some control
      → read_first_sync_marker base join kind_root snapshots folder card control.first_sync_epoch
          w.marker
        ≡ found m
      → (present card control w).1 ≡ true
      → Agrees control (present card control w).0
  unfolding recover_present
  found-Agrees control w m e f done =
      let cleared = set_first_sync-lookup calls.stores folder.id false w.store control e in
      record {
        now = record control { first_sync = false };
        recorded = ground arith;
        agreed = inr (
          (m, ground arith),
          (elim (Bool-cases control.first_sync) [ inl c ↦ inr (ground arith) | inr c ↦ inl c ]),
        );
      }

  required-Agrees :
      (control : FolderControlRecord) (w : World)
      → lookup folder.id w.store.records ≡ some control
      → read_first_sync_marker base join kind_root snapshots folder card control.first_sync_epoch
          w.marker
        ≡ not_found
      → control.first_sync ≡ false
      → (present card control w).1 ≡ true
      → Agrees control (present card control w).0
  unfolding recover_present
  required-Agrees control w e f c done =
      let required = require_first_sync-lookup calls.stores folder.id w.store control e in
      let next = (require_first_sync calls.stores folder.id w.store).0 in
      let new = record control {
        first_sync = true;
        first_sync_epoch = control.first_sync_epoch + 1;
      } in
      let kept = set_first_sync-lookup calls.stores folder.id true next new in
      record { now = new; recorded = ground arith; agreed = inl refl }

  waiting-Agrees :
      (control : FolderControlRecord) (w : World)
      → lookup folder.id w.store.records ≡ some control
      → read_first_sync_marker base join kind_root snapshots folder card control.first_sync_epoch
          w.marker
        ≡ not_found
      → control.first_sync ≡ true
      → (present card control w).1 ≡ true
      → Agrees control (present card control w).0
  unfolding recover_present
  waiting-Agrees control w e f c done =
      let kept = set_first_sync-lookup calls.stores folder.id true w.store control e in
      record {
        now = record control { first_sync = true };
        recorded = ground arith;
        agreed = inl refl;
      }

  failed-stops :
      (control : FolderControlRecord) (w : World)
      → read_first_sync_marker base join kind_root snapshots folder card control.first_sync_epoch
          w.marker
        ≡ failed
      → (recover_present calls clean base join lstat kind_root snapshots folder card control w).1
        ≡ true
      → ⊥
  unfolding recover_present
  failed-stops control w f done = ground arith

  -- After a folder with a usable card was recovered without an error, its record asks for a first
  -- sync, or the card's marker is one that a restart accepts for the record's epoch, and is durable
  -- if the record asked for a first sync before.
  pub recover_present-Agrees :
      (control : FolderControlRecord) (w w' : World)
      → lookup folder.id w.store.records ≡ some control
      → recover_present calls clean base join lstat kind_root snapshots folder card control w
        ≡ (w', true)
      → Agrees control w'
  recover_present-Agrees control w w' e h =
      let done : (recover_present calls clean base join lstat kind_root snapshots folder card
            control w).1
          ≡ true =
        ap (λ p. p.1) h in
      subst (Agrees control) (ap (λ p. p.0) h)
        (elim (Found-cases (
          read_first_sync_marker base join kind_root snapshots folder card control.first_sync_epoch
            w.marker)) [
              | inl f ↦ absurd (failed-stops control w f done)
              | inr (inl f) ↦ elim (Bool-cases control.first_sync) [
                | inl c ↦ waiting-Agrees control w e f c done
                | inr c ↦ required-Agrees control w e f c done
              ]
              | inr (inr (m, f)) ↦ found-Agrees control w m e f done
            ])
