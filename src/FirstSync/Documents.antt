-- ===== src/FirstSync/Documents.antt =====
-- internal/controller/first_sync.go: the documents on a card, and which of them count. `kind_root` is
-- the directory of the folder's kind on its card (`firstSyncKindRoot`).
use leaf_syncthing_pak.Base.{
  ℕ, Bool, false, not, ◌&&◌, ◌||◌, ◌==◌, Option, none, some, List, [], ◌∷◌, if◌then◌else◌, Text,
  codes, text_eq, is_empty, sort, ℤ, is_negative, equals,
}
use leaf_syncthing_pak.Folders.Types.{ConfiguredFolder, Card}

pub record SnapshotHeader : Type 0 where
  pub schema : ℤ
  pub state : Text
  pub epoch : ℕ
  pub folder_id : Text
  pub card_id : Text
  pub source_id : Text
  pub kind : Text
  pub name : Text
  pub file_count : ℤ
  pub directory_count : ℤ
  pub content_bytes : ℤ

pub record FirstSyncMarker : Type 0 where
  pub schema : ℤ
  pub state : Text
  pub epoch : ℕ
  pub folder_id : Text
  pub card_id : Text
  pub kind : Text
  pub folder_type : Text
  pub mode : Text
  pub snapshot_name : Text
  pub hub_versioning_acknowledged : Bool
  pub explicit_start : Bool
  pub completed_at : Text

-- What `readBoundedJSON` finds.
pub data Document {ℓ} (A : Type ℓ) : Type ℓ where
  absent unreadable : Document A
  document : A → Document A

-- What a search with an error returns.
pub data Found {ℓ} (A : Type ℓ) : Type ℓ where
  failed not_found : Found A
  found : A → Found A

-- What stands in the directory of a snapshot.
pub record Snapshot : Type 0 where
  pub header : Document SnapshotHeader
  pub manifest_sound : Bool

pub record DirectoryEntry : Type 0 where
  pub name : Text
  pub is_directory : Bool

-- What `safeDirectoryEntries` returns of the kind's directory.
pub data Listing : Type 0 where
  unsafe_listing no_directory : Listing
  listing : List DirectoryEntry → Listing

-- The snapshots of a kind on a card: the entries of its directory, and what stands at a path.
pub record Snapshots : Type 0 where
  pub entries : Listing
  pub at : Text → Snapshot

abbrev pub schema_version : ℕ
schema_version = 1

unfoldable pub header_fits : ConfiguredFolder → Card → ℕ → Text → SnapshotHeader → Bool
unfolding text_eq
header_fits folder card epoch name h =
    equals h.schema schema_version
    && text_eq h.state (codes "ready")
    && h.epoch == epoch
    && not (epoch == 0)
    && text_eq h.folder_id folder.id
    && text_eq h.card_id card.identity_id
    && text_eq h.source_id card.source.id
    && text_eq h.kind folder.kind
    && text_eq h.name name
    && not
        (is_negative h.file_count || is_negative h.directory_count || is_negative h.content_bytes)

-- The fields of a marker that do not depend on its mode.
unfoldable pub marker_fits : ConfiguredFolder → Card → ℕ → FirstSyncMarker → Bool
unfolding text_eq
marker_fits folder card epoch m =
    equals m.schema schema_version
    && text_eq m.state (codes "complete")
    && m.epoch == epoch
    && not (epoch == 0)
    && text_eq m.folder_id folder.id
    && text_eq m.card_id card.identity_id
    && text_eq m.kind folder.kind
    && m.hub_versioning_acknowledged
    && m.explicit_start
    && not (is_empty m.completed_at)

abbrev pub is_sendonly : Text → Bool
is_sendonly type = text_eq type (codes "sendonly")

abbrev pub is_hidden : Text → Bool
is_hidden [] = false
is_hidden (c ∷ cs) = c == b'.'

-- The entries that are not hidden; one of these that is no directory is an error.
unfoldable pub visible_names : List DirectoryEntry → Option (List Text)
visible_names [] = some []
visible_names (e ∷ es) =
    let rest = visible_names es in
    if is_hidden e.name
    then rest
    else if e.is_directory
    then elim rest [ none ↦ none | some ns ↦ some (e.name ∷ ns) ]
    else none

abbrev pub descending : List Text → List Text → List Text
descending [] done = done
descending (x ∷ xs) done = descending xs (x ∷ done)

-- `base` and `join` are path/filepath's.
module _ (base : Text → Text) (join : List Text → Text) (kind_root : Text) (snapshots : Snapshots)
    (folder : ConfiguredFolder) (card : Card) (epoch : ℕ) where
  unfoldable pub read_snapshot_header : Text → Found SnapshotHeader
  read_snapshot_header name =
      let root = join (kind_root ∷ name ∷ []) in
      let there = snapshots.at root in
      elim there.header [
        | absent ↦ not_found
        | unreadable ↦ failed
        | document h ↦
            if not there.manifest_sound
            then failed
            else if header_fits folder card epoch (base root) h
            then found h
            else not_found
      ]

  unfoldable pub first_ready : List Text → Found SnapshotHeader
  first_ready [] = not_found
  first_ready (name ∷ names) = elim (read_snapshot_header name) [
    | failed ↦ failed
    | not_found ↦ first_ready names
    | found h ↦ found h
  ]

  unfoldable pub latest_prepared_snapshot : Found SnapshotHeader
  latest_prepared_snapshot = elim snapshots.entries [
    | unsafe_listing ↦ failed
    | no_directory ↦ not_found
    | listing es ↦ elim (visible_names es) [
      | none ↦ failed
      | some names ↦ first_ready (descending (sort names) [])
    ]
  ]

  -- The switch on the mode of a marker that fits.
  unfoldable pub read_mode : FirstSyncMarker → Found FirstSyncMarker
  unfolding text_eq
  read_mode m =
      if is_sendonly m.mode
      then if not (is_sendonly folder.type)
          || not (is_sendonly m.folder_type)
          || not (is_empty m.snapshot_name)
        then not_found
        else found m
      else if text_eq m.mode (codes "snapshot")
      then if is_sendonly folder.type
          || is_sendonly m.folder_type
          || not (
              text_eq m.folder_type (codes "sendreceive")
              || text_eq m.folder_type (codes "receiveonly"))
          || is_empty m.snapshot_name
        then not_found
        else elim (read_snapshot_header m.snapshot_name) [
          | failed ↦ failed
          | not_found ↦ not_found
          | found h ↦ if text_eq h.name m.snapshot_name then found m else not_found
        ]
      else not_found

  unfoldable pub read_first_sync_marker : Document FirstSyncMarker → Found FirstSyncMarker
  read_first_sync_marker absent = not_found
  read_first_sync_marker unreadable = failed
  read_first_sync_marker (document m) =
      if not (marker_fits folder card epoch m) then not_found else read_mode m
