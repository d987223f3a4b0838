-- ===== src/Recovery/Stops.antt =====
-- internal/controller/local_stop.go: the stops of folders that a restart finishes.
pub mod Settled
use leaf_syncthing_pak.Base.{
  ℕ, Bool, true, false, not, ◌&&◌, ◌||◌, Option, none, some, List, [], ◌∷◌, any, keep,
  if◌then◌else◌, Text, codes, text_eq, is_empty, Dict,
}
use leaf_syncthing_pak.Folders.Types.{
  Source, ConfiguredFolder, Card, managed_content_path, usable_enrolled_card,
}
use leaf_syncthing_pak.Folders.Store.{FolderControlRecord, Store, Call}
use leaf_syncthing_pak.Folders.Ops.{remove, is_some}
use leaf_syncthing_pak.Folders.Rows.{Lstat, missing, directory}
use leaf_syncthing_pak.Folders.Upstream.{Upstream}
use leaf_syncthing_pak.Recovery.Attempts.{
  Attempt, fail, return, next, called, stored, find_configured_folder,
}

-- A file system with states in `D`: what `os.Lstat` finds, the names that `os.ReadDir` reads,
-- `os.Remove` (whose error that there is nothing counts as a success) and the flush of a card.
pub record Disk (D : Type 0) : Type 0 where
  pub lstat : Text → D → Lstat
  pub read_dir : Text → D → Option (List Text)
  pub remove : Text → D → D × Bool
  pub sync : Text → D → D × Bool

unfoldable pub has_pending_folder_stop : Dict FolderControlRecord → Bool
has_pending_folder_stop m = any (λ e. e.1.pending_stop) m

abbrev pub only {ℓ} : {A : Type ℓ} → List A → Option A
only (x ∷ []) = some x
only _ = none

unfoldable pub card_for_stop : FolderControlRecord → List Card → Option Card
card_for_stop r inventory = only (keep (λ card. text_eq card.identity_id r.card_id) inventory)

-- `result[:index]` with `result[index+1:]`.
unfoldable pub remove_folder : Text → List ConfiguredFolder → List ConfiguredFolder
remove_folder id [] = []
remove_folder id (f ∷ fs) =
    let rest = remove_folder id fs in if text_eq f.id id then fs else f ∷ rest

-- The folder of a record that Syncthing no longer has.
abbrev pub or_recorded :
    Option ConfiguredFolder → Text → FolderControlRecord → Card → ConfiguredFolder
or_recorded (some folder) id r card = folder
or_recorded none id r card = record {
  id = id;
  label = [];
  kind = r.kind;
  path = managed_content_path card.source r.kind;
  type = [];
  marker_name = r.marker_name;
  paused = false;
  versioning_type = [];
  versioning_fs_path = [];
  versioning_fs_type = [];
  devices = [];
}

-- A part of the state, with the other as it is.
abbrev pub on_left : {U D : Type 0} → U × Bool → D → (U × D) × Bool
on_left (u, ok) d = ((u, d), ok)

abbrev pub on_right : {U D : Type 0} → U → D × Bool → (U × D) × Bool
on_right u (d, ok) = ((u, d), ok)

-- `clean`, `base` and `join` are path/filepath's; `root_of` is the root of a card's source.
module _ {D : Type 0} (disk : Disk D) (clean base : Text → Text) (join : List Text → Text)
    (root_of : Source → Text) where
  unfoldable pub valid_binding : ConfiguredFolder → Card → Bool
  unfolding text_eq
  valid_binding folder card =
      let expected = managed_content_path card.source folder.kind in
      not (
        is_empty folder.id
        || is_empty folder.kind
        || is_empty folder.marker_name
        || text_eq folder.marker_name (codes ".stfolder")
        || not (text_eq (base folder.marker_name) folder.marker_name)
        || is_empty expected
        || not (text_eq (clean folder.path) (clean expected)))

  abbrev pub marker_at : ConfiguredFolder → Card → Text
  marker_at folder card =
      join (managed_content_path card.source folder.kind ∷ folder.marker_name ∷ [])

  abbrev pub is_empty_directory : Option (List Text) → Bool
  is_empty_directory (some []) = true
  is_empty_directory _ = false

  unfoldable pub validate_stop_marker : ConfiguredFolder → Card → (required : Bool) → D → Bool
  validate_stop_marker folder card required d =
      valid_binding folder card
      && elim (disk.lstat (managed_content_path card.source folder.kind) d) [
        | directory ↦ elim (disk.lstat (marker_at folder card) d) [
          | missing ↦ not required
          | directory ↦ is_empty_directory (disk.read_dir (marker_at folder card) d)
          | _ ↦ false
        ]
        | _ ↦ false
      ]

  unfoldable pub remove_stop_marker : ConfiguredFolder → Card → D → D × Bool
  remove_stop_marker folder card d =
      if not (validate_stop_marker folder card false d)
      then (d, false)
      else let (d', removed) = disk.remove (join (folder.path ∷ folder.marker_name ∷ [])) d in
        if not removed then (d', false) else disk.sync (root_of card.source) d'

  -- `works` is as in the recovery of the memberships.
  module _ {U : Type 0} (upstream : Upstream U) (works : Text → Call → Bool)
      (inventory : List Card) where
    -- From the validation on. `found` is the configured folder.
    unfoldable pub finish_stop :
        Text
        → Option ConfiguredFolder
        → ConfiguredFolder
        → Card
        → List ConfiguredFolder
        → Store
        → (U × D)
        → Attempt (U × D) (List ConfiguredFolder)
    finish_stop id found folder card folders s (u, d) =
        let paused = if is_some found then upstream.set_folder_paused id true u else (u, true) in
        if not (validate_stop_marker folder card (is_some found) d)
        then fail s (u, d)
        else called (on_left paused d) s (λ (u₁, d₁).
          called (on_left (upstream.remove_managed_folder id u₁) d₁) s (λ (u₂, d₂).
            called (on_right u₂ (remove_stop_marker folder card d₂)) s (λ w.
              stored (remove (works id) id s) w
                (λ s'. return (if is_some found then remove_folder id folders else folders) s' w))))

    unfoldable pub recover_stop :
        Text
        → FolderControlRecord
        → List ConfiguredFolder
        → Store
        → (U × D)
        → Attempt (U × D) (List ConfiguredFolder)
    recover_stop id r folders s w =
        let found = find_configured_folder folders id in
        elim (card_for_stop r inventory) [
          | none ↦ fail s w
          | some card ↦
              if not (usable_enrolled_card card)
              then fail s w
              else finish_stop id found (or_recorded found id r card) card folders s w
        ]

    unfoldable pub recover_stops :
        Dict FolderControlRecord
        → List ConfiguredFolder
        → Store
        → (U × D)
        → Attempt (U × D) (List ConfiguredFolder)
    recover_stops [] folders s w = return folders s w
    recover_stops ((id, r) ∷ m) folders s w = elim r.pending_stop [
      | false ↦ recover_stops m folders s w
      | true ↦ next (recover_stop id r folders s w) (λ fs s' w'. recover_stops m fs s' w')
    ]

    -- `recoverPendingFolderStops`, on a snapshot of the records.
    unfoldable pub recover_pending_folder_stops :
        List ConfiguredFolder → Store → (U × D) → Attempt (U × D) (List ConfiguredFolder)
    recover_pending_folder_stops folders s w = recover_stops s.records folders s w
