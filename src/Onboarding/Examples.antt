-- ===== src/Onboarding/Examples.antt =====
-- The theorems on the creation of folders at a concrete plan.
use leaf_syncthing_pak.Base.{
  ℕ, suc, Dict, ◌+◌, ◌≤◌, arith, length, if◌then◌else◌, Bool, true, false, ◌≡◌, refl, Option, none,
  some, List, [], ◌∷◌, sort, place, text_lt, Text, codes, text_eq, lookup, insert, delete, pos,
}
use leaf_syncthing_pak.Folders.Types.{
  Source, Card, CardState, ConfiguredFolder, managed_content_path, usable_enrolled_card,
}
use leaf_syncthing_pak.Folders.Device.{
  normalize_device_id, binding_names, valid_folder_id, valid_identity_id,
}
use leaf_syncthing_pak.Folders.Device.Canonical.{sample_device}
use leaf_syncthing_pak.Folders.Store.{
  FolderControlRecord, StateFile, Temporary, Call, persist_locked,
}
use leaf_syncthing_pak.Folders.Ops.{new_folder_control_record, add, activate, remove, binds}
use leaf_syncthing_pak.Folders.Rows.{Lstat}
use leaf_syncthing_pak.Folders.Reconcile.{validate_managed_marker}
use leaf_syncthing_pak.Folders.Upstream.{Upstream}
use leaf_syncthing_pak.FirstSync.Manager.{valid_first_sync_binding}
use leaf_syncthing_pak.Onboarding.Plans.{
  OnboardingPlan, expire, onboarding_card, valid_onboarding_selection, snapshot_fits,
  selected_folder_devices, normalized, selected_peers,
}
use leaf_syncthing_pak.Onboarding.Create.{
  World, Phase, Surveys, folder_of, reviewed, binding_unchanged, room_for_snapshot, add_folder,
  create_reviewed, create,
}
use leaf_syncthing_pak.Folders.Rows.{folder_kind_label}
use leaf_syncthing_pak.Onboarding.Making.{
  nothing_offered, onboarding_plan_lifetime, max_onboarding_plans, plan, surveyed,
}
use leaf_syncthing_pak.Onboarding.Making.Kept.{plan-lookup}
use leaf_syncthing_pak.Onboarding.Create.Refused.{create-refused}
use leaf_syncthing_pak.Onboarding.Create.Created.{IsCreated, create-IsCreated}

abbrev sample_peer : Text
sample_peer = codes "AAAAAAA-BBBBBBB-CCCCCCC-DDDDDDD-EEEEEEE-FFFFFFF-2345672-7654325"

abbrev hex_sample : Text → Text
hex_sample t = codes "0123456789abcdef0123456789abcdef"

abbrev sample_plan : OnboardingPlan
sample_plan = record {
  source_id = codes "s";
  card_id = codes "000102030405060708090a0b0c0d0e0f";
  kind = codes "saves";
  folder_type = codes "sendonly";
  folder_id = codes "leaf-saves-0123456789abcdef";
  label = codes "Leaf Saves";
  path = codes "/sd/Saves";
  marker_name = codes ".leaf-saves-0123456789ab";
  versioning_path = [];
  states_warning = false;
  offer_device_id = [];
  devices = sample_device ∷ sample_peer ∷ [];
  expires_at = 100;
}

abbrev sample_card : Card
sample_card = record {
  source = record {
    id = codes "s";
    primary = true;
    root = codes "/";
    roms_path = [];
    userdata_path = codes "/sd/u";
    saves_path = codes "/sd/Saves";
    states_path = [];
  };
  identity_id = codes "000102030405060708090a0b0c0d0e0f";
  state = CardState.enrolled;
  present = true;
  writable = true;
  duplicate_id = false;
}

abbrev sample_upstream : Upstream ℕ
sample_upstream = record {
  configured_folder_devices = λ self u. some (sample_device ∷ sample_peer ∷ []);
  add_managed_folder = λ f u. (suc u, true);
  set_managed_folder_devices = λ f u. (u, true);
  remove_managed_folder = λ id u. (u, true);
  set_folder_paused = λ id p u. (u, true);
}

abbrev all_work : Phase → Call → Bool
all_work p c = true

abbrev same_text : Text → Text
same_text t = t

abbrev last_part : List Text → Text
last_part [] = []
last_part (t ∷ []) = t
last_part (t ∷ s ∷ ts) = last_part (s ∷ ts)

abbrev own_directories : Text → Lstat
own_directories t = if text_eq t (codes ".stfolder") then Lstat.missing else Lstat.directory

abbrev always_confined : Text → Text → Bool
always_confined root path = true

abbrev sample_root : Source → Text
sample_root s = codes "/sd"

abbrev sample_surveys : Surveys
sample_surveys = record {
  inspect = λ path name. some (pos 10);
  available_bytes = λ root. some 1000;
  prepare = λ card plan. true;
}

abbrev before : World ℕ
before = record {
  plans = (codes "p1", sample_plan) ∷ [];
  store = record {
    records = [];
    ignored_offers = [];
    pending_device_removal = [];
    file = StateFile.missing;
    temporary = Temporary.absent;
  };
  upstream = 0;
}

abbrev created : World ℕ × Option ConfiguredFolder
created =
    create sample_upstream hex_sample all_work same_text same_text last_part own_directories
      always_confined sample_root 5 sample_surveys 99 (codes "p1") sample_device false true
      (sample_card ∷ []) [] before

sample_created :
    created ≡ (created.0, some (folder_of sample_plan (sample_device ∷ sample_peer ∷ [])))
unfolding create reviewed binding_unchanged room_for_snapshot add_folder create_reviewed expire
    onboarding_card valid_onboarding_selection snapshot_fits selected_folder_devices normalized
    selected_peers sort place text_lt text_eq lookup insert delete new_folder_control_record add
    activate binds persist_locked normalize_device_id binding_names valid_folder_id
    valid_identity_id valid_first_sync_binding validate_managed_marker managed_content_path
    usable_enrolled_card
sample_created = refl

create-IsCreated_example :
    IsCreated 99
      (codes "p1")
      false
      true
      before
      created.0
      (folder_of sample_plan (sample_device ∷ sample_peer ∷ []))
create-IsCreated_example =
    create-IsCreated sample_upstream hex_sample all_work same_text same_text last_part
      own_directories always_confined sample_root 5 sample_surveys 99 (codes "p1") sample_device
      false true (sample_card ∷ []) [] before created.0
      (folder_of sample_plan (sample_device ∷ sample_peer ∷ [])) sample_created

-- An upstream that refuses the folder, and a store that cannot take the record back.
abbrev refusing : Upstream ℕ
refusing = record sample_upstream { add_managed_folder = λ f u. (u, false) }

abbrev no_removal : Phase → Call → Bool
no_removal Phase.removing c = false
no_removal _ c = true

abbrev left : World ℕ × Option ConfiguredFolder
left =
    create refusing hex_sample no_removal same_text same_text last_part own_directories
      always_confined sample_root 5 sample_surveys 99 (codes "p1") sample_device false true
      (sample_card ∷ []) [] before

abbrev left_record : FolderControlRecord
left_record = record {
  card_id = codes "000102030405060708090a0b0c0d0e0f";
  kind = codes "saves";
  marker_name = codes ".leaf-saves-0123456789ab";
  manual = false;
  first_sync = true;
  first_sync_epoch = 1;
  pending_rescan = false;
  pending_add = true;
  pending_membership = [];
  pending_device_id = [];
  pending_stop = false;
}

sample_left :
    (left ≡ (left.0, none)) × (lookup sample_plan.folder_id left.0.store.records ≡ some left_record)
unfolding create reviewed binding_unchanged room_for_snapshot add_folder create_reviewed expire
    onboarding_card valid_onboarding_selection snapshot_fits selected_folder_devices normalized
    selected_peers sort place text_lt text_eq lookup insert delete new_folder_control_record add
    activate remove binds persist_locked normalize_device_id binding_names valid_folder_id
    valid_identity_id valid_first_sync_binding validate_managed_marker managed_content_path
    usable_enrolled_card
sample_left = (refl, refl)

sample_empty : lookup sample_plan.folder_id before.store.records ≡ none
unfolding lookup
sample_empty = refl

create-refused_example : left_record.pending_add ≡ true
create-refused_example =
    create-refused refusing hex_sample no_removal same_text same_text last_part own_directories
      always_confined sample_root 5 sample_surveys 99 (codes "p1") sample_device false true
      (sample_card ∷ []) [] before left.0 sample_plan.folder_id left_record sample_left.0
      sample_empty sample_left.1

abbrev making : Dict OnboardingPlan × Option (Text × OnboardingPlan)
making =
    plan sample_upstream hex_sample same_text last_part always_confined sample_root sample_surveys 7
      (some (codes "p2")) (codes "s") (codes "saves") (codes "sendonly") nothing_offered
      sample_device (sample_peer ∷ []) (sample_card ∷ []) [] 0 before.plans

abbrev made_plan : OnboardingPlan
made_plan = record sample_plan {
  versioning_path = codes "saves";
  expires_at = 7 + onboarding_plan_lifetime;
}

sample_made : making ≡ (making.0, some (codes "p2", made_plan))
unfolding plan surveyed expire onboarding_card valid_onboarding_selection selected_folder_devices
    normalized selected_peers sort place text_lt text_eq lookup insert normalize_device_id
    binding_names valid_identity_id managed_content_path usable_enrolled_card folder_kind_label
sample_made = refl

plan-lookup_example :
    (lookup (codes "p2") (expire 1000 making.0) ≡ some made_plan)
    × (length making.0 ≤ max_onboarding_plans)
plan-lookup_example =
    plan-lookup sample_upstream hex_sample same_text last_part always_confined sample_root
      sample_surveys 7 (some (codes "p2")) (codes "s") (codes "saves") (codes "sendonly")
      nothing_offered sample_device (sample_peer ∷ []) (sample_card ∷ []) [] 0 before.plans making.0
      (codes "p2") made_plan 1000 sample_made (omega arith)
