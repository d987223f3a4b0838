-- ===== src/Recovery/Examples.antt =====
-- The theorems on the recoveries at concrete records, and runs of the code.
use leaf_syncthing_pak.Base.{
  ℕ, suc, Bool, true, false, ◌≡◌, refl, ◌⊎◌, some, List, [], ◌∷◌, if◌then◌else◌, any, is_empty,
  member, sort, place, text_lt, Text, codes, text_eq, lookup, insert, delete,
}
use leaf_syncthing_pak.Folders.Types.{
  Source, Card, CardState, ConfiguredFolder, managed_content_path, usable_enrolled_card,
}
use leaf_syncthing_pak.Folders.Device.{normalize_device_id}
use leaf_syncthing_pak.Folders.Device.Canonical.{sample_device}
use leaf_syncthing_pak.Folders.Store.{
  FolderControlRecord, Store, StateFile, Temporary, Call, persist_locked, complete_folder_binding,
}
use leaf_syncthing_pak.Folders.Ops.{complete_membership, remove}
use leaf_syncthing_pak.Folders.Rows.{Lstat, first_row, folder_kind_label, append_unique, cards_with}
use leaf_syncthing_pak.Folders.Reconcile.{reconcile_folder, reconcile_managed_folders, bound_row}
use leaf_syncthing_pak.Folders.Upstream.{Upstream}
use leaf_syncthing_pak.Recovery.Attempts.{
  next, called, stored, find_configured_folder, replace_folder,
}
use leaf_syncthing_pak.Recovery.Membership.{folder_with_membership, gather, with_peer}
use leaf_syncthing_pak.Recovery.Membership.Gathered.{stands_for}
use leaf_syncthing_pak.Recovery.Membership.Laws.{folder_with_membership-member}
use leaf_syncthing_pak.Recovery.Pending.{
  recover_member, recover_members, pause_recovered, pause_all, recover_folder_memberships,
}
use leaf_syncthing_pak.Recovery.Pending.Settled.{recover_folder_memberships-IsSettled}
use leaf_syncthing_pak.Recovery.Stops.{
  Disk, recover_pending_folder_stops, recover_stops, recover_stop, finish_stop, card_for_stop,
  remove_folder, validate_stop_marker, valid_binding, remove_stop_marker,
}
use leaf_syncthing_pak.Recovery.Stops.Settled.{
  IsOwn, remove_stop_marker-IsOwn, recover_pending_folder_stops-IsSettled,
}

abbrev sample_peer : Text
sample_peer = codes "AAAAAAA-BBBBBBB-CCCCCCC-DDDDDDD-EEEEEEE-FFFFFFF-2345672-7654325"

abbrev sample_folder : ConfiguredFolder
sample_folder = record {
  id = codes "f1";
  label = [];
  kind = codes "saves";
  path = codes "/sd/Saves";
  type = codes "sendreceive";
  marker_name = codes ".leaf";
  paused = false;
  versioning_type = [];
  versioning_fs_path = [];
  versioning_fs_type = [];
  devices = sample_device ∷ [];
}

abbrev shared_folder : ConfiguredFolder
shared_folder = record sample_folder { devices = sample_device ∷ sample_peer ∷ []; paused = true }

abbrev sample_record : FolderControlRecord
sample_record = record {
  card_id = codes "c1";
  kind = codes "saves";
  marker_name = codes ".leaf";
  manual = false;
  first_sync = false;
  first_sync_epoch = 1;
  pending_rescan = false;
  pending_add = false;
  pending_membership = codes "share";
  pending_device_id = sample_peer;
  pending_stop = false;
}

abbrev settled_record : FolderControlRecord
settled_record = record sample_record { pending_membership = []; pending_device_id = [] }

abbrev store_with : FolderControlRecord → Store
store_with r = record {
  records = (codes "f1", r) ∷ (codes "f2", settled_record) ∷ [];
  ignored_offers = [];
  pending_device_removal = [];
  file = StateFile.missing;
  temporary = Temporary.absent;
}

abbrev all_work : Text → Call → Bool
all_work id c = true

-- An upstream that takes every change.
abbrev willing : Upstream (Unit {0})
willing = record {
  configured_folder_devices = λ self u. some (sample_device ∷ sample_peer ∷ []);
  add_managed_folder = λ f u. (u, true);
  set_managed_folder_devices = λ f u. (u, true);
  remove_managed_folder = λ id u. (u, true);
  set_folder_paused = λ id p u. (u, true);
}

sample_shared :
    folder_with_membership sample_folder sample_device sample_peer true ≡ some (shared_folder, true)
unfolding folder_with_membership gather with_peer sort place text_lt text_eq normalize_device_id
sample_shared = refl

sample_device_normal : normalize_device_id sample_device ≡ some sample_device
unfolding normalize_device_id
sample_device_normal = refl

sample_peer_normal : normalize_device_id sample_peer ≡ some sample_peer
unfolding normalize_device_id
sample_peer_normal = refl

folder_with_membership-member_example :
    (member sample_device shared_folder.devices ≡ true)
    × (member sample_peer shared_folder.devices ≡ (
        if text_eq sample_peer sample_peer
        then true
        else any (stands_for sample_peer) sample_folder.devices))
folder_with_membership-member_example =
    folder_with_membership-member sample_folder shared_folder sample_device sample_peer true true
      sample_shared sample_device sample_peer sample_device_normal sample_peer_normal sample_peer

abbrev same_text : Text → Text
same_text t = t

abbrev no_path : List Text → Text
no_path ts = []

abbrev always_directory : Text → Lstat
always_directory t = Lstat.directory

sample_recovered :
    recover_folder_memberships willing all_work sample_device same_text same_text no_path
      always_directory
      (sample_folder ∷ [])
      []
      (store_with sample_record)
      tt
    ≡ (
      (
        (recover_folder_memberships willing all_work sample_device same_text same_text no_path
            always_directory
            (sample_folder ∷ [])
            []
            (store_with sample_record)
            tt).0.0,
        tt,
      ),
      some (shared_folder ∷ []),
    )
unfolding recover_folder_memberships recover_members recover_member pause_all pause_recovered next
    called stored find_configured_folder replace_folder folder_with_membership gather with_peer sort
    place text_lt text_eq normalize_device_id complete_membership persist_locked lookup insert
    reconcile_managed_folders reconcile_folder bound_row first_row folder_kind_label append_unique
    cards_with complete_folder_binding
sample_recovered = refl

abbrev recovered_store : Store
recovered_store =
    (recover_folder_memberships willing all_work sample_device same_text same_text no_path
      always_directory (sample_folder ∷ []) [] (store_with sample_record) tt).0.0

sample_recorded : lookup (codes "f1") recovered_store.records ≡ some settled_record
unfolding recover_folder_memberships recover_members recover_member pause_all pause_recovered next
    called stored find_configured_folder replace_folder folder_with_membership gather with_peer sort
    place text_lt text_eq normalize_device_id complete_membership persist_locked lookup insert
    reconcile_managed_folders reconcile_folder bound_row first_row folder_kind_label append_unique
    cards_with complete_folder_binding
sample_recorded = refl

recover_folder_memberships-IsSettled_example : is_empty settled_record.pending_membership ≡ true
recover_folder_memberships-IsSettled_example =
    recover_folder_memberships-IsSettled willing all_work sample_device same_text same_text no_path
      always_directory (sample_folder ∷ []) [] (store_with sample_record) tt (shared_folder ∷ [])
      recovered_store tt sample_recovered (codes "f1") settled_record sample_recorded

abbrev sample_card : Card
sample_card = record {
  source = record {
    id = codes "s";
    primary = true;
    root = codes "/";
    roms_path = [];
    userdata_path = codes "/sd/u";
    saves_path = codes "/sd/Saves";
    states_path = [];
  };
  identity_id = codes "c1";
  state = CardState.enrolled;
  present = true;
  writable = true;
  duplicate_id = false;
}

-- A file system of empty directories, which counts what is removed.
abbrev sample_disk : Disk ℕ
sample_disk = record {
  lstat = λ t d. Lstat.directory;
  read_dir = λ t d. some [];
  remove = λ t d. (suc d, true);
  sync = λ t d. (d, true);
}

abbrev source_root : Source → Text
source_root s = codes "/sd"

abbrev stopping_record : FolderControlRecord
stopping_record = record settled_record { pending_stop = true }

sample_stopped :
    recover_pending_folder_stops sample_disk same_text same_text no_path source_root willing
      all_work
      (sample_card ∷ [])
      (sample_folder ∷ [])
      (store_with stopping_record)
      (tt, 0)
    ≡ (
      (
        (recover_pending_folder_stops sample_disk same_text same_text no_path source_root willing
            all_work
            (sample_card ∷ [])
            (sample_folder ∷ [])
            (store_with stopping_record)
            (tt, 0)).0.0,
        (tt, 1),
      ),
      some [],
    )
unfolding recover_pending_folder_stops recover_stops recover_stop finish_stop card_for_stop
    remove_folder validate_stop_marker valid_binding remove_stop_marker next called stored
    find_configured_folder remove persist_locked lookup insert delete text_eq managed_content_path
    usable_enrolled_card
sample_stopped = refl

abbrev stopped_store : Store
stopped_store =
    (recover_pending_folder_stops sample_disk same_text same_text no_path source_root willing
      all_work (sample_card ∷ []) (sample_folder ∷ []) (store_with stopping_record) (tt, 0)).0.0

sample_left : lookup (codes "f2") stopped_store.records ≡ some settled_record
unfolding recover_pending_folder_stops recover_stops recover_stop finish_stop card_for_stop
    remove_folder validate_stop_marker valid_binding remove_stop_marker next called stored
    find_configured_folder remove persist_locked lookup insert delete text_eq managed_content_path
    usable_enrolled_card
sample_left = refl

recover_pending_folder_stops-IsSettled_example : settled_record.pending_stop ≡ false
recover_pending_folder_stops-IsSettled_example =
    recover_pending_folder_stops-IsSettled sample_disk same_text same_text no_path source_root
      willing all_work (sample_card ∷ []) (sample_folder ∷ []) (store_with stopping_record) (tt, 0)
      [] stopped_store (tt, 1) sample_stopped (codes "f2") settled_record sample_left

remove_stop_marker-IsOwn_example :
    ((remove_stop_marker sample_disk same_text same_text no_path source_root sample_folder
        sample_card 0).0
      ≡ 0)
    ⊎ (IsOwn sample_disk same_text same_text no_path source_root sample_folder sample_card 0
        × (((remove_stop_marker sample_disk same_text same_text no_path source_root sample_folder
                sample_card 0).0
              ≡ (sample_disk.remove
                  (no_path (sample_folder.path ∷ sample_folder.marker_name ∷ []))
                  0).0)
            ⊎ ((remove_stop_marker sample_disk same_text same_text no_path source_root sample_folder
                  sample_card 0).0
                ≡ (sample_disk.sync
                    (source_root sample_card.source)
                    (sample_disk.remove
                      (no_path (sample_folder.path ∷ sample_folder.marker_name ∷ []))
                      0).0).0)))
remove_stop_marker-IsOwn_example =
    remove_stop_marker-IsOwn sample_disk same_text same_text no_path source_root sample_folder
      sample_card 0
