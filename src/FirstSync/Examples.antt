-- ===== src/FirstSync/Examples.antt =====
-- The theorems on the first sync at a concrete folder, card and marker.
use leaf_syncthing_pak.Base.{
  true, false, ◌≡◌, refl, ◌⊎◌, inr, if◌then◌else◌, sort, place, some, List, [], ◌∷◌, Text, codes,
  text_eq, lookup, insert, pos, All, is_empty, arith,
}
use leaf_syncthing_pak.Folders.Types.{
  Card, CardState, ConfiguredFolder, managed_content_path, usable_enrolled_card,
}
use leaf_syncthing_pak.Folders.Store.{FolderControlRecord, StateFile, Temporary, persist_locked}
use leaf_syncthing_pak.Folders.Ops.{set_first_sync}
use leaf_syncthing_pak.Folders.Rows.{Lstat}
use leaf_syncthing_pak.FirstSync.Documents.{
  SnapshotHeader, FirstSyncMarker, Document, Snapshots, Listing, DirectoryEntry, found, header_fits,
  marker_fits, read_mode, read_first_sync_marker, read_snapshot_header, latest_prepared_snapshot,
  first_ready, visible_names,
}
use leaf_syncthing_pak.FirstSync.Manager.{
  World, Calls, complete, recover_present, started_marker, valid_first_sync_binding,
}
use leaf_syncthing_pak.FirstSync.Manager.Clears.{complete-clears}
use leaf_syncthing_pak.Folders.Reconcile.{validate_managed_marker}
use leaf_syncthing_pak.FirstSync.Manager.Durable.{IsAccepted, Surroundings, complete-durable}
use leaf_syncthing_pak.FirstSync.Manager.Recovered.{Agrees, recover_present-Agrees}

abbrev same_text : Text → Text
same_text t = t

-- The last part of a path, as a path of one part.
abbrev last_part : List Text → Text
last_part [] = []
last_part (t ∷ []) = t
last_part (t ∷ s ∷ ts) = last_part (s ∷ ts)

abbrev always_directory : Text → Lstat
always_directory t = Lstat.directory

-- All directories but those that another Syncthing would leave.
abbrev own_directories : Text → Lstat
own_directories t = if text_eq t (codes ".stfolder") then Lstat.missing else Lstat.directory

abbrev sample_folder : ConfiguredFolder
sample_folder = record {
  id = codes "f1";
  label = [];
  kind = codes "saves";
  path = codes "/sd/Saves";
  type = codes "sendreceive";
  marker_name = codes ".leaf";
  paused = true;
  versioning_type = codes "simple";
  versioning_fs_path = codes "saves";
  versioning_fs_type = codes "basic";
  devices = [];
}

abbrev sample_card : Card
sample_card = record {
  source = record {
    id = codes "s";
    primary = true;
    root = codes "/";
    roms_path = [];
    userdata_path = codes "/sd/u";
    saves_path = codes "/sd/Saves";
    states_path = [];
  };
  identity_id = codes "c1";
  state = CardState.enrolled;
  present = true;
  writable = true;
  duplicate_id = false;
}

abbrev sample_control : FolderControlRecord
sample_control = record {
  card_id = codes "c1";
  kind = codes "saves";
  marker_name = codes ".leaf";
  manual = false;
  first_sync = true;
  first_sync_epoch = 3;
  pending_rescan = false;
  pending_add = false;
  pending_membership = [];
  pending_device_id = [];
  pending_stop = false;
}

abbrev sample_header : SnapshotHeader
sample_header = record {
  schema = pos 1;
  state = codes "ready";
  epoch = 3;
  folder_id = codes "f1";
  card_id = codes "c1";
  source_id = codes "s";
  kind = codes "saves";
  name = codes "n1";
  file_count = pos 2;
  directory_count = pos 1;
  content_bytes = pos 10;
}

abbrev sample_snapshots : Snapshots
sample_snapshots = record {
  entries = Listing.listing (record { name = codes "n1"; is_directory = true } ∷ []);
  at = λ path. record { header = Document.document sample_header; manifest_sound = true };
}

abbrev all_work : Calls
all_work = record { works = λ p. true; stores = λ c. true; early = λ p. false }

abbrev sample_marker : FirstSyncMarker
sample_marker =
    started_marker all_work sample_folder sample_card sample_control (codes "complete")
      (codes "snapshot") (codes "n1") (codes "now")

abbrev world_with : Document FirstSyncMarker → World
world_with d = record {
  marker = d;
  durable = Document.absent;
  store = record {
    records = (codes "f1", sample_control) ∷ [];
    ignored_offers = [];
    pending_device_removal = [];
    file = StateFile.missing;
    temporary = Temporary.absent;
  };
  progress = [];
}

sample_recorded :
    lookup (codes "f1") (world_with Document.absent).store.records ≡ some sample_control
unfolding lookup text_eq
sample_recorded = refl

sample_plain :
    (es : List DirectoryEntry)
    → sample_snapshots.entries ≡ Listing.listing es
    → All (λ e. (last_part (codes "r" ∷ e.name ∷ []) ≡ e.name) × (is_empty e.name ≡ false)) es
sample_plain es h =
    let same : (record { name = codes "n1"; is_directory = true } ∷ []) ≡ es = ground arith in
    rw (← same) ((refl, refl), tt)

sample-Surroundings :
    Surroundings same_text same_text last_part always_directory
      (codes "r")
      sample_snapshots
      sample_folder
      sample_card
      (codes "now")
unfolding text_eq
sample-Surroundings = record { typed = λ s. refl; stamped = refl; plain = sample_plain }

complete-durable_example :
    ((complete all_work same_text same_text last_part always_directory
        (codes "r")
        sample_snapshots
        sample_folder
        true
        sample_card
        (codes "now")
        (world_with Document.absent)).0.store
      ≡ (world_with Document.absent).store)
    ⊎ IsAccepted same_text same_text last_part always_directory
        (codes "r")
        sample_snapshots
        sample_folder
        sample_card
        3
        (complete all_work same_text same_text last_part always_directory
          (codes "r")
          sample_snapshots
          sample_folder
          true
          sample_card
          (codes "now")
          (world_with Document.absent)).0.durable
complete-durable_example =
    complete-durable same_text same_text last_part always_directory (codes "r") sample_snapshots
      sample_folder sample_card all_work true (codes "now") (world_with Document.absent)
      sample_control sample-Surroundings sample_recorded

abbrev recovered_world : World
recovered_world =
    (recover_present all_work same_text same_text last_part always_directory (codes "r")
      sample_snapshots sample_folder sample_card sample_control
      (world_with (Document.document sample_marker))).0

sample_recovered :
    recover_present all_work same_text same_text last_part always_directory
      (codes "r")
      sample_snapshots
      sample_folder
      sample_card
      sample_control
      (world_with (Document.document sample_marker))
    ≡ (recovered_world, true)
unfolding recover_present read_first_sync_marker read_mode marker_fits read_snapshot_header
    header_fits text_eq lookup insert set_first_sync persist_locked
sample_recovered = refl

recover_present-Agrees_example :
    Agrees all_work same_text same_text last_part always_directory
      (codes "r")
      sample_snapshots
      sample_folder
      sample_card
      sample_control
      recovered_world
recover_present-Agrees_example =
    recover_present-Agrees all_work same_text same_text last_part always_directory (codes "r")
      sample_snapshots sample_folder sample_card sample_control
      (world_with (Document.document sample_marker)) recovered_world sample_recorded
      sample_recovered

sample_latest :
    latest_prepared_snapshot same_text last_part
      (codes "r")
      sample_snapshots
      sample_folder
      sample_card
      3
    ≡ found sample_header
unfolding latest_prepared_snapshot first_ready visible_names read_snapshot_header header_fits
    text_eq sort place
sample_latest = refl

sample_fits :
    valid_first_sync_binding same_text same_text last_part own_directories sample_folder sample_card
      sample_control
    ≡ true
unfolding valid_first_sync_binding validate_managed_marker managed_content_path text_eq
sample_fits = refl

complete-clears_example :
    ((complete all_work same_text same_text last_part own_directories
        (codes "r")
        sample_snapshots
        sample_folder
        true
        sample_card
        (codes "now")
        (world_with Document.absent)).1
      ≡ true)
    × (lookup
          (codes "f1")
          (complete all_work same_text same_text last_part own_directories
            (codes "r")
            sample_snapshots
            sample_folder
            true
            sample_card
            (codes "now")
            (world_with Document.absent)).0.store.records
        ≡ some (record sample_control { first_sync = false }))
unfolding text_eq usable_enrolled_card
complete-clears_example =
    complete-clears all_work (λ p. refl) (λ c. refl) same_text same_text last_part own_directories
      (codes "r") sample_snapshots sample_folder sample_card (codes "now")
      (world_with Document.absent) sample_control refl sample_recorded refl refl refl sample_fits
      (inr (sample_header, sample_latest))
