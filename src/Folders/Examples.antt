-- ===== src/Folders/Examples.antt =====
-- The theorems on the managed folders at concrete records, cards and folders, and runs of the code.
use leaf_syncthing_pak.Base.{
  Bool, true, false, ◌≡◌, refl, inl, none, some, List, [], ◌∷◌, ◌++◌, All, arith, Text, codes,
  text_eq, Dict, lookup, insert, if◌then◌else◌,
}
use leaf_syncthing_pak.Folders.Types.{
  Source, Card, CardState, ConfiguredFolder, usable_enrolled_card, managed_content_path,
}
use leaf_syncthing_pak.Folders.Device.{binding_names, valid_folder_id, valid_identity_id}
use leaf_syncthing_pak.Folders.Device.Canonical.{sample_device, sample_device_normal}
use leaf_syncthing_pak.Folders.Store
use leaf_syncthing_pak.Folders.Store.{
  FolderControlRecord, Store, StateFile, Temporary, persist_locked, complete_folder_binding,
}
use leaf_syncthing_pak.Folders.Store.Persist.{persist_locked-works}
use leaf_syncthing_pak.Folders.Ops.{begin_membership, is_operation, put}
use leaf_syncthing_pak.Folders.Load.{validate_records, new_folder_control_store}
use leaf_syncthing_pak.Folders.Load.Refuses.{is_accepted, begin_membership-stopping}
use leaf_syncthing_pak.Folders.Valid.{WellFormed, ValidRecords}
use leaf_syncthing_pak.Folders.Valid.Accepted.{
  stop_begun, apply, apply-ValidRecords, validate_records-ValidRecords,
}
use leaf_syncthing_pak.Folders.Rows.{
  Lstat, first_row, folder_kind_label, settled, append_unique, source_label, cards_with,
}
use leaf_syncthing_pak.Folders.Reconcile.{
  reconcile_folder, reconcile_managed_folders, bound_row, check_card, validate_managed_marker,
}
use leaf_syncthing_pak.Folders.Reconcile.Safe.{IsReady, reconcile_folder-IsReady}
use leaf_syncthing_pak.Folders.GameCheck.{
  GameEvent, cards_of_source, select, choose, by_folder_id, by_row_id, folder_safe_for_action,
  folders_for_game_check,
}
use leaf_syncthing_pak.Folders.GameCheck.Selected.{Ready, folders_for_game_check-Ready}

abbrev hex_sample : Text → Text
hex_sample _ = codes "0123456789abcdef0123456789abcdef"

abbrev card_id_sample : Text
card_id_sample = codes "000102030405060708090a0b0c0d0e0f"

abbrev folder_id_sample : Text
folder_id_sample = codes "leaf-saves-0123456789abcdef"

abbrev marker_sample : Text
marker_sample = codes ".leaf-saves-0123456789ab"

abbrev saves_record : FolderControlRecord
saves_record = record {
  card_id = card_id_sample;
  kind = codes "saves";
  marker_name = marker_sample;
  manual = false;
  first_sync = false;
  first_sync_epoch = 1;
  pending_rescan = false;
  pending_add = false;
  pending_membership = [];
  pending_device_id = [];
  pending_stop = false;
}

abbrev stopping_record : FolderControlRecord
stopping_record = record saves_record { pending_stop = true }

abbrev one_record : Dict FolderControlRecord
one_record = (folder_id_sample, saves_record) ∷ []

abbrev store_of : Dict FolderControlRecord → Store
store_of records = record {
  records = records;
  ignored_offers = [];
  pending_device_removal = [];
  file = StateFile.missing;
  temporary = Temporary.absent;
}

abbrev all_work : Store.Call → Bool
all_work _ = true

saves-WellFormed : WellFormed hex_sample (folder_id_sample, saves_record)
unfolding binding_names valid_folder_id valid_identity_id text_eq
saves-WellFormed = record {
  id_valid = refl;
  bound = refl;
  membership = inl (refl, refl);
  adding = cc;
  stopping = cc;
}

one_record_valid : ValidRecords hex_sample one_record
one_record_valid = record {
  entries = (saves-WellFormed, tt);
  distinct = (tt, tt);
  room = omega arith;
}

apply-ValidRecords_example :
    ValidRecords hex_sample
      (apply hex_sample all_work (stop_begun folder_id_sample) (store_of one_record)).0.records
apply-ValidRecords_example =
    apply-ValidRecords hex_sample all_work (stop_begun folder_id_sample) (store_of one_record)
      one_record_valid tt

validate_records-ValidRecords_example : validate_records hex_sample [] one_record ≡ none
validate_records-ValidRecords_example =
    validate_records-ValidRecords hex_sample one_record one_record_valid

abbrev stopping_store : Store
stopping_store = store_of ((folder_id_sample, stopping_record) ∷ [])

stopping_found : lookup folder_id_sample stopping_store.records ≡ some stopping_record
unfolding lookup text_eq
stopping_found = refl

stopping_stored :
    (persist_locked all_work (
      put folder_id_sample
        (record stopping_record {
          pending_membership = codes "share";
          pending_device_id = sample_device;
        })
        stopping_store)).1
    ≡ none
stopping_stored = persist_locked-works all_work _ (λ _. refl) refl

share_accepted : is_operation (codes "share") ≡ true
unfolding text_eq
share_accepted = refl

begin_membership-stopping_example :
    let (s', e) =
      begin_membership all_work folder_id_sample sample_device (codes "share") stopping_store in
    (e ≡ none)
    × (is_accepted (new_folder_control_store hex_sample all_work [] [] s'.file Temporary.absent)
        ≡ false)
begin_membership-stopping_example =
    begin_membership-stopping hex_sample all_work all_work stopping_store folder_id_sample
      sample_device (codes "share") sample_device stopping_record [] [] Temporary.absent
      stopping_found refl refl refl sample_device_normal share_accepted stopping_stored

-- A card with one folder that is left running.
abbrev join_sample : List Text → Text
join_sample [] = []
join_sample (p ∷ []) = p
join_sample (p ∷ q ∷ ps) = p ++ codes "/" ++ join_sample (q ∷ ps)

abbrev same_text : Text → Text
same_text t = t

abbrev sample_source : Source
sample_source = record {
  id = codes "primary";
  primary = true;
  root = codes "/";
  roms_path = [];
  userdata_path = codes "/u";
  saves_path = codes "/s";
  states_path = codes "/t";
}

abbrev sample_card : Card
sample_card = record {
  source = sample_source;
  identity_id = card_id_sample;
  state = CardState.enrolled;
  present = true;
  writable = true;
  duplicate_id = false;
}

abbrev sample_folder : ConfiguredFolder
sample_folder = record {
  id = folder_id_sample;
  label = [];
  kind = codes "saves";
  path = codes "/s";
  type = codes "sendreceive";
  marker_name = marker_sample;
  paused = false;
  versioning_type = codes "simple";
  versioning_fs_path = codes "/u/Syncthing/versions/saves";
  versioning_fs_type = codes "basic";
  devices = [];
}

abbrev sample_lstat : Text → Lstat
sample_lstat path = if text_eq path (codes "/s/.stfolder") then Lstat.missing else Lstat.directory

sample_running :
    (reconcile_folder same_text same_text join_sample sample_lstat
      (sample_card ∷ [])
      one_record
      sample_folder).paused
    ≡ false
unfolding reconcile_folder bound_row first_row folder_kind_label complete_folder_binding cards_with
    settled check_card managed_content_path validate_managed_marker append_unique source_label
    lookup text_eq
sample_running = refl

reconcile_folder-IsReady_example :
    (control : FolderControlRecord) × (lookup folder_id_sample one_record ≡ some control)
    × IsReady same_text same_text join_sample sample_lstat sample_folder (sample_card ∷ []) control
reconcile_folder-IsReady_example =
    reconcile_folder-IsReady same_text same_text join_sample sample_lstat (sample_card ∷ [])
      one_record sample_folder sample_running

abbrev sample_event : GameEvent
sample_event = record {
  source_id = codes "primary";
  saves_path = codes "/s";
  states_path = codes "/t";
}

sample_selected :
    folders_for_game_check same_text same_text join_sample sample_lstat sample_event
      (sample_card ∷ [])
      (sample_folder ∷ [])
      one_record
    ≡ some (sample_folder ∷ [])
unfolding folders_for_game_check cards_of_source usable_enrolled_card select choose by_folder_id
    by_row_id folder_safe_for_action insert reconcile_managed_folders reconcile_folder bound_row
    first_row folder_kind_label complete_folder_binding cards_with settled check_card
    managed_content_path validate_managed_marker append_unique source_label lookup text_eq
sample_selected = refl

folders_for_game_check-Ready_example :
    All
      (Ready same_text same_text join_sample sample_lstat (sample_card ∷ []) one_record)
      (sample_folder ∷ [])
folders_for_game_check-Ready_example =
    folders_for_game_check-Ready same_text same_text join_sample sample_lstat sample_event
      (sample_card ∷ []) (sample_folder ∷ []) one_record (sample_folder ∷ []) sample_selected
